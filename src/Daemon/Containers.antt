-- ===== src/Daemon/Containers.antt =====
-- daemon.py: the convergence of a container Stack, a compose project or a single image.
use the_ozolith.Common.{
  String, Bool, true, false, not, ◌&&◌, Option, none, some, List, [], ◌∷◌, if◌then◌else◌, is_some,
  select, ◌==◌, nat_eq, string_eq, pair_eq, triple_eq, list_eq,
}
use the_ozolith.Common.Table.{find, update}
use the_ozolith.Common.Message.{Message, lit, say}
use the_ozolith.Common.Exec.{Result, ok, err, ◌>>=◌, ◌>>◌}
use the_ozolith.Daemon.{
  Fault, WireStack, ComposeState, AppliedCompose, Container, Launch, Event, Host,
}
use the_ozolith.Daemon.Base.{Act, call, look, observe, lift, change, skip, emit_event, isolated}
use the_ozolith.Daemon.Runs.{child_inflight_blocker}
use the_ozolith.Daemon.Compose.{
  project, is_running, with_records, persist_applied_compose, write_ahead_compose, compose_running,
  compose_down,
}
use the_ozolith.Daemon.Teardown.{stop_process_child, remove_single_image, teardown_all_forms}
use the_ozolith.Daemon.Spec.{secret_env_files, declared_but_unbuilt, pull_stack_secrets}

abbrev pub when : {H : Type 0} → Bool → Act H (Unit {0}) → Act H (Unit {0})
when test m = if test then m else skip

abbrev pub some_row : List Container → Bool
some_row [] = false
some_row (row ∷ rows) = true

abbrev pub is_applied : ComposeState → Bool
is_applied ComposeState.pending = false
is_applied ComposeState.applied = true

-- a confirmed record at this spec
abbrev pub is_confirmed : Option AppliedCompose → String → Bool
is_confirmed none fingerprint = false
is_confirmed (some r) fingerprint = is_applied r.state && r.fingerprint == fingerprint

abbrev confirmed : AppliedCompose → AppliedCompose
confirmed r = record r { state = ComposeState.applied }

abbrev replaced : String → String → Message → Event
replaced stack why detail = Event.stack_replace stack why detail

module _ {H : Type 0} (host : Host H) where
  -- `_compose_fingerprint`
  abbrev pub compose_fingerprint : WireStack → String
  compose_fingerprint s = host.compose_digest s.compose_files s.env s.secrets

  -- best effort: the record of the write-ahead stays
  abbrev pub confirm : WireStack → Act H (Unit {0})
  confirm s = do
    change (λ d. with_records (update s.name confirmed d.applied_compose) d)
    isolated host (lit "stack " ∷ lit s.name ∷ say ": confirm applied compose")
        (persist_applied_compose host)

  abbrev pub remove_losing : WireStack → Act H (Unit {0})
  remove_losing s = do
    emit_event host (
        replaced s.name "compose-transition"
          (say "single-image->compose: removing the single-image container for compose up"))
    remove_single_image host s.name

  -- the record is durable before the losing forms go and before `up`
  abbrev pub bring_up : WireStack → Bool → Bool → Act H (Unit {0})
  bring_up s child_lingers single_present = do
    files ← call (host.materialize_compose s (compose_fingerprint s))
    write_ahead_compose host s.name (record {
      fingerprint = compose_fingerprint s;
      files = files;
      state = ComposeState.pending;
    })
    when child_lingers (stop_process_child host s.name)
    when single_present (remove_losing s)
    call (host.compose (project s.name) files "up")
    confirm s

  abbrev pub compose_again : WireStack → Bool → Bool → Act H (Unit {0})
  compose_again s child_lingers single_present = do
    ready ← pull_stack_secrets host s
    when ready (bring_up s child_lingers single_present)

  abbrev pub unless_running : WireStack → Bool → Act H (Unit {0})
  unless_running s true = skip
  unless_running s false = compose_again s false false

  -- `_converge_compose`
  unfoldable pub converge_compose : WireStack → Bool → Act H (Unit {0})
  converge_compose s child_lingers = do
    rows ← call (host.stack_containers (some s.name))
    r ← look (λ d. find s.name d.applied_compose)
    if not child_lingers && not (some_row rows) && is_confirmed r (compose_fingerprint s)
        then (do up ← compose_running host s.name; unless_running s up)
        else compose_again s child_lingers (some_row rows)

  -- the key `tmpfs` is there only for a Stack that has such mounts
  abbrev tmpfs_key : List String → Option (List String)
  tmpfs_key [] = none
  tmpfs_key (m ∷ ms) = some (m ∷ ms)

  -- `_container_fingerprint`
  abbrev pub container_fingerprint : WireStack → String
  container_fingerprint s =
      host.container_digest s.image s.command s.env s.secrets s.ports s.volumes (tmpfs_key s.tmpfs)

  abbrev launch_of : WireStack → Option (List String) → Launch
  launch_of s command = record {
    stack = s.name;
    image = s.image;
    env_files = secret_env_files host.config.secrets_dir s.secrets;
    env = s.env;
    ports = s.ports;
    volumes = s.volumes;
    tmpfs = s.tmpfs;
    command = command;
    spec = container_fingerprint s;
  }

  abbrev command_of : WireStack → Result Fault (Option (List String))
  command_of s =
      if s.command == ""
      then ok none
      else elim (host.split s.command) [ ok argv ↦ ok (some argv) | err e ↦ err e ]

  -- why a container is replaced: the first that holds
  abbrev pub reason : WireStack → Bool → List Container → Event
  reason s true running =
      replaced s.name "compose-transition"
        (say "compose->single-image: composed the old project down before docker run")
  reason s false [] = replaced s.name "no-running-container" (say "no running container")
  reason s false (row ∷ rows) =
      if row.spec == ""
      then replaced s.name "missing-spec-label"
          (say "running container carries no applied-spec label; reconciling once")
      else replaced s.name "spec-mismatch"
          (lit "applied spec " ∷ lit row.spec ∷ lit " -> wanted " ∷ say (container_fingerprint s))

  abbrev pub run_image : WireStack → Bool → Bool → List Container → Act H (Unit {0})
  run_image s child_lingers tracked running = do
    when child_lingers (stop_process_child host s.name)
    when tracked (compose_down host s.name)
    emit_event host (reason s tracked running)
    command ← lift (command_of s)
    call (host.run_stack_container (launch_of s command))

  abbrev pub is_at_spec : List Container → String → Bool
  is_at_spec [] want = false
  is_at_spec (row ∷ rows) want = row.spec == want

  -- the image and the secrets are ready before the old form goes
  abbrev pub replace_image : WireStack → Bool → Bool → List Container → Act H (Unit {0})
  replace_image s child_lingers tracked running = do
    unbuilt ← declared_but_unbuilt host s.image
    if unbuilt then skip else (do
      ready ← pull_stack_secrets host s
      when ready (run_image s child_lingers tracked running))

  -- `_converge_single_image`
  unfoldable pub converge_single_image : WireStack → Bool → Act H (Unit {0})
  converge_single_image s child_lingers = do
    tracked ← look (λ d. is_some (find s.name d.applied_compose))
    rows ← call (host.stack_containers (some s.name))
    let running = select is_running rows
    if not child_lingers && not tracked && is_at_spec running (container_fingerprint s)
        then skip
        else replace_image s child_lingers tracked running

  -- a project whose record was lost is downed with the desired files
  abbrev pub down_untracked : WireStack → List Container → Act H (Unit {0})
  down_untracked s [] = skip
  down_untracked s (row ∷ rows) = do
    files ← call (host.materialize_compose s (compose_fingerprint s))
    call (host.compose (project s.name) files "down")

  abbrev is_composed : List (String × String) → Bool
  is_composed [] = false
  is_composed (file ∷ files) = true

  abbrev pub stopped : WireStack → Act H (Unit {0})
  stopped s = do
    teardown_all_forms host s.name
    tracked ← look (λ d. is_some (find s.name d.applied_compose))
    if is_composed s.compose_files && not tracked
        then (do rows ← call (host.compose_ps (project s.name)); down_untracked s rows)
        else skip

  abbrev pub form_of : WireStack → Bool → List (String × String) → Act H (Unit {0})
  form_of s child_lingers [] = converge_single_image s child_lingers
  form_of s child_lingers (file ∷ files) = converge_compose s child_lingers

  abbrev pub converge_form : WireStack → Bool → Act H (Unit {0})
  converge_form s child_lingers = form_of s child_lingers s.compose_files

  abbrev pub unless_busy : WireStack → Bool → Option Message → Act H (Unit {0})
  unless_busy s child_lingers none = converge_form s child_lingers
  unless_busy s child_lingers (some why) = skip

  -- a tracked child: the Stack flipped to a container, and waits for its Run
  abbrev pub started : WireStack → Bool → Act H (Unit {0})
  started s false = converge_form s false
  started s true = do
    blocker ← observe (child_inflight_blocker host s.name)
    unless_busy s true blocker

  -- `_converge_container`
  unfoldable pub converge_container : WireStack → Bool → Act H (Unit {0})
  unfolding converge_compose converge_single_image
  converge_container s want_running = do
    child_lingers ← look (λ d. is_some (find s.name d.children))
    if want_running then started s child_lingers else stopped s
