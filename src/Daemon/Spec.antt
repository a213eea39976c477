-- ===== src/Daemon/Spec.antt =====
-- daemon.py: the effective environment of a process Stack, its secrets, and the gates before a (re)start.
use the_ozolith.Common.{
  String, Bool, true, false, not, ◌&&◌, ◌||◌, Option, none, some, List, [], ◌∷◌, if◌then◌else◌,
  is_some, any, ◌==◌, nat_eq, string_eq, pair_eq, triple_eq, list_eq, contains,
}
use the_ozolith.Common.Table.{Table, find, put, delete}
use the_ozolith.Common.Message.{Message, lit, say}
use the_ozolith.Common.Exec.{Result, ok, err, pure, raise, ◌>>=◌, ◌>>◌, catch}
use the_ozolith.Common.Order.{insert_by, text_le}
use text.Mathlib.Text.{starts_with}
use the_ozolith.Daemon.{Fault, Env, WireStack, Image, Daemon, Host}
use the_ozolith.Daemon.Base.{Act, merge, concat, call, look, observe, lift, change, report}
use the_ozolith.Daemon.Supervisor.{driver_launcher}
use the_ozolith.Daemon.Runs.{stack_jobs_dir}

-- RESERVED_CHANNEL_ENV
abbrev pub reserved_channel_env : List String
reserved_channel_env =
    "CONTROL_NODE_URL" ∷ "CONTROL_NODE_URL_FILE" ∷ "THEOZOLITH_NODE_TOKEN"
    ∷ "THEOZOLITH_NODE_TOKEN_FILE" ∷ "THEOZOLITH_TLS_CA" ∷ "THEOZOLITH_TLS_CA_FILE" ∷ []

abbrev pub pop_all : List String → Env → Env
pop_all [] env = env
pop_all (name ∷ names) env = pop_all names (delete name env)

-- `secret_env_files`, with the order of the names left as it is
abbrev pub secret_env_files : String → Env → Env
secret_env_files dir [] = []
secret_env_files dir ((env, name) ∷ secrets) =
    (env, concat (concat dir "/") name) ∷ secret_env_files dir secrets

abbrev file_vars : Env → Env
file_vars [] = []
file_vars ((env, path) ∷ files) = (concat env "_FILE", path) ∷ file_vars files

abbrev set_default : String → String → Env → Env
set_default k v env = if is_some (find k env) then env else put k v env

-- argv[0] is the launcher, argv[1] under drivers/
abbrev pub invokes_custom_driver : List String → Bool
invokes_custom_driver (program ∷ driver ∷ args) =
    program == driver_launcher && starts_with driver "drivers/"
invokes_custom_driver (program ∷ []) = false
invokes_custom_driver [] = false

abbrev pub invokes_driver : List String → Bool
invokes_driver [] = false
invokes_driver (program ∷ args) = program == driver_launcher

abbrev parses_as_custom : Result Fault (List String) → Bool
parses_as_custom (ok argv) = invokes_custom_driver argv
parses_as_custom (err e) = false

abbrev is_declared : String → List Image → Bool
is_declared tag images = any (λ (i : Image). i.tag == tag) images

-- `_images`: a later recipe of the same name replaces an earlier one
images_by_name : List Image → Table String Image
images_by_name images = named images []
  where
    named : List Image → Table String Image → Table String Image
    named [] t = t
    named (i ∷ is) t = if i.name == "" then named is t else named is (put i.name i t)

abbrev image_rows : Table String Image → List Image
image_rows [] = []
image_rows ((name, i) ∷ rows) = i ∷ image_rows rows

unfoldable pub images : Daemon → List Image
unfolding images_by_name
images d = image_rows (images_by_name d.desired.images)

module _ {H : Type 0} (host : Host H) where
  open host use {config}

  -- `_is_config_dist_stack`
  unfoldable pub is_config_dist_stack : WireStack → Bool
  is_config_dist_stack s =
      if not (s.kind == "process") || s.command == ""
      then false
      else parses_as_custom (host.split s.command)

  abbrev pub memoized : Option String → Act H String
  memoized (some hash) = pure hash
  memoized none = do
    hash ← call host.verify_applied_drivers
    change (λ d. record d { verified_drivers_hash = some hash })
    pure hash

  -- `_current_drivers_hash`, memoized for a pass
  unfoldable pub current_drivers_hash : Act H String
  current_drivers_hash = do memo ← look (λ d. d.verified_drivers_hash); memoized memo

  -- the environment up to the drivers directory
  abbrev own_env : WireStack → Env
  own_env s =
      merge
        (merge [] (
          ("THEOZOLITH_NODE_NAME", config.node)
          ∷ ("THEOZOLITH_STACK", s.name)
          ∷ ("THEOZOLITH_JOBS_DIR", stack_jobs_dir s)
          ∷ []))
        s.env

  abbrev with_drivers_dir : String → Env → Env
  with_drivers_dir hash env =
      if hash == ""
      then env
      else set_default "THEOZOLITH_DRIVERS_DIR" (concat (concat config.config_dist_dir "/") hash)
          env

  abbrev pub driver_env : WireStack → Act H Env
  driver_env s =
      if is_config_dist_stack s
      then (do hash ← current_drivers_hash; pure (with_drivers_dir hash (own_env s)))
      else pure (own_env s)

  abbrev pub with_secret_files : WireStack → Env → Env
  with_secret_files s env = merge env (file_vars (secret_env_files config.secrets_dir s.secrets))

  -- the channel identity, over every Stack-controlled entry
  abbrev pub identity : Env → Env
  identity env =
      let env' =
        put "THEOZOLITH_NODE_TOKEN" config.node_token
          (put "CONTROL_NODE_URL" config.control_url (pop_all reserved_channel_env env)) in
      if config.tls_ca == "" then env' else put "THEOZOLITH_TLS_CA" config.tls_ca env'

  abbrev pub sealed : WireStack → Env → Result Fault Env
  sealed s env =
      if config.control_url == ""
      then ok env
      else if host.scheme config.control_url == "https" && config.tls_ca == ""
      then err (
          Fault.runtime_error (
            lit "stack "
            ∷ lit s.name
            ∷ say ": the provisioned control URL is https but no pinned CA"))
      else ok (identity env)

  -- `_process_env`
  unfoldable pub process_env : WireStack → Act H Env
  unfolding is_config_dist_stack current_drivers_hash
  process_env s = do env ← driver_env s; lift (sealed s (with_secret_files s env))

  -- `sorted(set(secrets.values()))`
  unfoldable pub secret_names : Env → List String
  secret_names [] = []
  secret_names ((env, name) ∷ secrets) =
      let rest = secret_names secrets in
      if contains rest name then rest else insert_by text_le name rest

  abbrev all_files : List String → H → Bool
  all_files [] h = true
  all_files (name ∷ names) h =
      host.is_file (concat (concat config.secrets_dir "/") name) h && all_files names h

  abbrev pub cannot_deploy : WireStack → Message → Fault → Act H Bool
  cannot_deploy s why e = do
    report host (lit "stack " ∷ lit s.name ∷ lit ": cannot deploy, " ∷ why) e
    pure false

  -- the copies in tmpfs serve while the Control Node is away
  abbrev pub degraded : WireStack → Fault → Act H Bool
  degraded s e = do
    present ← observe (λ d. all_files (secret_names s.secrets))
    if present then pure true else cannot_deploy s (say "secrets unavailable: ") e

  abbrev pub secrets_failed : WireStack → Fault → Act H Bool
  secrets_failed s (Fault.control_unreachable m) = degraded s (Fault.control_unreachable m)
  secrets_failed s (Fault.control_error m) = degraded s (Fault.control_error m)
  secrets_failed s (Fault.secret_name_error m) =
      cannot_deploy s (say "invalid secret name: ") (Fault.secret_name_error m)
  secrets_failed s (Fault.os_error m) =
      cannot_deploy s (say "secret materialization failed: ") (Fault.os_error m)
  secrets_failed s (Fault.docker_error m) = raise (Fault.docker_error m)
  secrets_failed s (Fault.value_error m) = raise (Fault.value_error m)
  secrets_failed s (Fault.launcher_missing m) = raise (Fault.launcher_missing m)
  secrets_failed s (Fault.runtime_error m) = raise (Fault.runtime_error m)

  abbrev pub fetch_secrets : WireStack → Act H Bool
  fetch_secrets s =
      if host.has_client
      then (do
        values ← call (host.pull_secrets (secret_names s.secrets))
        call (host.materialize_secrets config.secrets_dir values)
        pure true)
      else raise (Fault.control_unreachable (say "no CONTROL_NODE_URL configured"))

  abbrev pub secrets_if_any : WireStack → Env → Act H Bool
  secrets_if_any s [] = pure true
  secrets_if_any s (row ∷ rows) = catch (fetch_secrets s) (secrets_failed s)

  -- `_pull_stack_secrets`
  unfoldable pub pull_stack_secrets : WireStack → Act H Bool
  unfolding secret_names
  pull_stack_secrets s = secrets_if_any s s.secrets

  -- `_declared_but_unbuilt`
  unfoldable pub declared_but_unbuilt : String → Act H Bool
  unfolding images
  declared_but_unbuilt tag = do
    declared ← look (λ d. is_declared tag (images d))
    if declared then (do built ← call (host.image_exists tag); pure (not built)) else pure false
