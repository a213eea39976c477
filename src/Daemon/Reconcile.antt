-- ===== src/Daemon/Reconcile.antt =====
-- daemon.py: the reconcile pass, every step of it contained.
use the_ozolith.Common.{
  String, Bool, true, false, not, ◌&&◌, ◌||◌, Option, none, some, List, [], ◌∷◌, map, if◌then◌else◌,
  is_some, ◌==◌, nat_eq, string_eq, pair_eq, triple_eq, list_eq, contains, set_remove,
}
use the_ozolith.Common.Table.{Table}
use the_ozolith.Common.Message.{Message, lit, say}
use the_ozolith.Common.Exec.{Result, ok, err, raise, ◌>>=◌, ◌>>◌, catch, tried}
use the_ozolith.Daemon.{Fault, WireStack, Image, Daemon, Container, Host}
use the_ozolith.Daemon.Base.{
  Act, concat, call, ask, look, observe, change, skip, each, emit_error, report, isolated,
}
use the_ozolith.Daemon.Supervisor.{alive}
use the_ozolith.Daemon.Compose.{compose_down}
use the_ozolith.Daemon.Teardown.{stack_container_prefix, stop_process_child}
use the_ozolith.Daemon.Spec.{images, current_drivers_hash}
use the_ozolith.Daemon.Process.{converge_process}
use the_ozolith.Daemon.Containers.{converge_container}
use the_ozolith.Daemon.Generations.{sweep_compose_generations}

-- `text[len(prefix):]` of a text that starts with the prefix
abbrev pub strip_prefix : String → String → Option String
strip_prefix String.[] s = some s
strip_prefix (String.◌∷◌ c p) String.[] = none
strip_prefix (String.◌∷◌ c p) (String.◌∷◌ d s) =
    let rest = strip_prefix p s in
    if String.◌∷◌ c String.[] == String.◌∷◌ d String.[] then rest else none

abbrev pub stack_name : WireStack → String
stack_name s = s.name

abbrev pub keys : {V : Type 0} → Table String V → List String
keys [] = []
keys ((k, v) ∷ t) = k ∷ keys t

module _ {H : Type 0} (host : Host H) where
  -- `try: … except Exception as exc: log and emit`
  unfoldable pub contained : Message → Act H (Unit {0}) → Act H (Unit {0})
  contained what action = catch action (report host what)

  abbrev pub absent : String → String → Message
  absent name what = lit "stack " ∷ lit name ∷ say what

  abbrev pub stop_absent : List String → String → Act H (Unit {0})
  stop_absent desired name =
      if contains desired name
      then skip
      else isolated host (absent name ": absent process child") (stop_process_child host name)

  abbrev pub remove_absent : List String → String → Option String → Act H (Unit {0})
  remove_absent desired container none = skip
  remove_absent desired container (some name) =
      if contains desired name
      then skip
      else isolated host (absent name ": absent single-image container")
          (call (host.remove container))

  abbrev pub remove_row : List String → Container → Act H (Unit {0})
  remove_row desired row =
      remove_absent desired row.name (strip_prefix stack_container_prefix row.name)

  abbrev pub down_absent : List String → String → Act H (Unit {0})
  down_absent desired name =
      if contains desired name
      then skip
      else isolated host (absent name ": absent compose project") (compose_down host name)

  -- `_reconcile_removed`
  unfoldable pub reconcile_removed : List WireStack → Act H (Unit {0})
  reconcile_removed stacks = do
    let desired = map stack_name stacks
    children ← look (λ d. keys d.children)
    each (stop_absent desired) children
    rows ← call (host.stack_containers none)
    each (remove_row desired) rows
    projects ← look (λ d. keys d.applied_compose)
    each (down_absent desired) projects

  abbrev pub set_policy : String → Option String → Act H (Unit {0})
  set_policy name none = skip
  set_policy name (some policy) =
      if policy == "" || policy == "no" then skip else call (host.set_restart_policy name "no")

  -- `_migrate_one_restart_policy`
  unfoldable pub migrate_one_restart_policy : String → Act H (Unit {0})
  migrate_one_restart_policy name = do
    policy ← call (host.container_restart_policy name)
    set_policy name policy

  abbrev pub migrate_row : Container → Act H (Unit {0})
  migrate_row row =
      if is_some (strip_prefix stack_container_prefix row.name)
      then isolated host (lit "stack container " ∷ lit row.name ∷ say ": restart-policy migration")
          (migrate_one_restart_policy row.name)
      else skip

  abbrev pub migrate_rows : Result Fault (List Container) → Act H (Unit {0})
  migrate_rows (ok rows) = each migrate_row rows
  migrate_rows (err (Fault.docker_error m)) =
      emit_error host "DockerError" (lit "restart-policy migration: container listing failed: " ∷ m)
  migrate_rows (err e) = raise e

  -- `_migrate_restart_policies`
  unfoldable pub migrate_restart_policies : Act H (Unit {0})
  unfolding migrate_one_restart_policy
  migrate_restart_policies = do
    listing ← tried (call (host.stack_containers none))
    migrate_rows listing

  abbrev pub reap : Container → Act H (Unit {0})
  reap c = do
    owned ← observe (λ d h. not (c.owner == "") && alive host c.owner d h)
    if owned then skip else call (host.remove c.name)

  -- `_reap_orphans`
  unfoldable pub reap_orphans : Act H (Unit {0})
  reap_orphans = do rows ← call host.run_containers; each reap rows

  abbrev pub built : String → Bool → Act H (Unit {0})
  built name false = skip
  built name true = change (λ d. record d { rebuild_targets = set_remove d.rebuild_targets name })

  abbrev pub build : Option String → Option String → Image → Act H (Unit {0})
  build dist_root credentials i = contained (lit "image " ∷ lit i.name ∷ say ": build failed: ") (do
    force ← look (λ d. contains d.rebuild_targets i.name)
    ran ← call (host.ensure_image i force dist_root credentials)
    built i.name ran)

  abbrev dist_root : String → Option String
  dist_root applied =
      if applied == "" then none else some (concat (concat host.config.config_dist_dir "/") applied)

  abbrev pub want_running : WireStack → Daemon → Bool
  want_running s d = s.state == "running" && not (contains d.drained s.name)

  abbrev pub converge : WireStack → Bool → Act H (Unit {0})
  converge s want =
      if s.kind == "process" then converge_process host s want else converge_container host s want

  abbrev pub converge_stack : WireStack → Act H (Unit {0})
  converge_stack s = do
    want ← look (want_running s)
    contained (lit "stack " ∷ lit s.name ∷ say ": reconcile failed: ") (converge s want)

  -- the steps of `_reconcile` after the applied distribution is known
  unfoldable pub settle : String → Act H (Unit {0})
  unfolding contained reconcile_removed migrate_restart_policies reap_orphans
  settle applied = do
    is ← look images
    credentials ← ask (host.build_docker_config is)
    each (build (dist_root applied) credentials) is
    desired ← look (λ d. d.desired.stacks)
    contained (say "removed-runtime sweep failed: ") (reconcile_removed desired)
    contained (say "restart-policy migration sweep failed: ") migrate_restart_policies
    each converge_stack desired
    contained (say "orphan reap failed: ") reap_orphans
    contained (say "compose generation sweep failed: ") (sweep_compose_generations host)

  -- `_reconcile`
  unfoldable pub reconcile : Act H (Unit {0})
  unfolding settle
  reconcile = do applied ← current_drivers_hash host; settle applied
