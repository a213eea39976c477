-- ===== src/Daemon/Teardown.antt =====
-- daemon.py: the teardown of every runtime form under a Stack's name, and the drain and recycle commands.
use the_ozolith.Common.{
  String, Option, none, some, List, [], ◌∷◌, map, if◌then◌else◌, ◌==◌, nat_eq, string_eq, pair_eq,
  triple_eq, list_eq, set_add, set_remove,
}
use the_ozolith.Common.Table.{delete}
use the_ozolith.Common.Exec.{◌>>=◌, ◌>>◌}
use the_ozolith.Daemon.{WireStack, Daemon, Container, StateFile, Host}
use the_ozolith.Daemon.Base.{
  Act, concat, call, look, change, skip, each, atomic_json, stop_grace_seconds,
}
use the_ozolith.Daemon.Supervisor.{stop}
use the_ozolith.Daemon.Compose.{compose_down}

-- STACK_CONTAINER_PREFIX
abbrev pub stack_container_prefix : String
stack_container_prefix = "ozolith-stack-"

abbrev pub forget_jobs_dir : String → Daemon → Daemon
forget_jobs_dir name d = record d { applied_jobs_dir = delete name d.applied_jobs_dir }

module _ {H : Type 0} (host : Host H) where
  abbrev pub remove_owned : String → Container → Act H (Unit {0})
  remove_owned name c = if c.owner == name then call (host.remove c.name) else skip

  -- `_remove_owned_run_containers`
  unfoldable pub remove_owned_run_containers : String → Act H (Unit {0})
  remove_owned_run_containers name = do
    rows ← call host.run_containers
    each (remove_owned name) rows

  -- `_stop_process_child`
  unfoldable pub stop_process_child : String → Act H (Unit {0})
  unfolding remove_owned_run_containers
  stop_process_child name = do
    grace ← look (stop_grace_seconds host)
    stop host name grace
    change (forget_jobs_dir name)
    remove_owned_run_containers name

  abbrev pub remove_rows : String → List Container → Act H (Unit {0})
  remove_rows name [] = skip
  remove_rows name (row ∷ rows) = call (host.remove (concat stack_container_prefix name))

  -- `_remove_single_image`
  unfoldable pub remove_single_image : String → Act H (Unit {0})
  remove_single_image name = do
    rows ← call (host.stack_containers (some name))
    remove_rows name rows

  -- `_teardown_container_forms`
  abbrev pub teardown_container_forms : String → Act H (Unit {0})
  teardown_container_forms name = do remove_single_image name; compose_down host name

  -- `_teardown_all_forms`
  unfoldable pub teardown_all_forms : String → Act H (Unit {0})
  teardown_all_forms name = do
    stop_process_child name
    remove_single_image name
    compose_down host name

  abbrev pub save_drained : Act H (Unit {0})
  save_drained = atomic_json host StateFile.drained_path (λ d f. record f { drained = d.drained })

  abbrev stack_name : WireStack → String
  stack_name s = s.name

  -- the named Stack, or every desired one
  abbrev pub targets : Option String → Daemon → List String
  targets none d = map stack_name d.desired.stacks
  targets (some name) d = name ∷ []

  abbrev pub drain_one : String → Act H (Unit {0})
  drain_one name = do
    teardown_all_forms name
    change (λ d. record d { drained = set_add d.drained name })

  abbrev pub recycle_one : String → Act H (Unit {0})
  recycle_one name = do
    teardown_all_forms name
    change (λ d. record d { drained = set_remove d.drained name })

  -- `_drain`
  unfoldable pub drain : Option String → Act H (Unit {0})
  drain target = do names ← look (targets target); each drain_one names; save_drained

  -- `_recycle`
  unfoldable pub recycle : Option String → Act H (Unit {0})
  recycle target = do names ← look (targets target); each recycle_one names; save_drained
