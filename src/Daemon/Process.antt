-- ===== src/Daemon/Process.antt =====
-- daemon.py: the convergence of a process Stack onto its desired state.
use the_ozolith.Common.{
  String, Bool, true, false, not, ◌&&◌, ◌||◌, Option, none, some, List, [], ◌∷◌, if◌then◌else◌,
  is_some, ◌==◌, nat_eq, string_eq, pair_eq, triple_eq, list_eq,
}
use the_ozolith.Common.Table.{find, put}
use the_ozolith.Common.Message.{Message, lit, say}
use the_ozolith.Common.Exec.{Result, ok, raise, ◌>>=◌, ◌>>◌}
use the_ozolith.Daemon.{Fault, Env, WireStack, Container, Host}
use the_ozolith.Daemon.Base.{Act, call, look, observe, lift, change, skip, emit_error}
use the_ozolith.Daemon.Supervisor.{alive, needs_restart, resolve_command, ensure_running}
use the_ozolith.Daemon.Runs.{stack_jobs_dir, get_or_empty, inflight_blocker}
use the_ozolith.Daemon.Teardown.{stop_process_child, teardown_container_forms, teardown_all_forms}
use the_ozolith.Daemon.Spec.{
  process_env, invokes_driver, invokes_custom_driver, current_drivers_hash, declared_but_unbuilt,
  pull_stack_secrets,
}

abbrev pub not_converged : WireStack → String → Message
not_converged s desired =
    lit "stack "
    ∷ lit s.name
    ∷ lit ": custom driver cannot start — "
    ∷ say (
        if desired == ""
        then "no config distribution desired/applied"
        else "config distribution not converged to the desired hash")

abbrev pub no_run_image : WireStack → Fault
no_run_image s =
    Fault.runtime_error
      (lit "driver Stack " ∷ lit s.command ∷ say " has no control-authored THEOZOLITH_RUN_IMAGE")

module _ {H : Type 0} (host : Host H) where
  -- `shlex.split(stack.command) if stack.command else []`
  abbrev pub argv_of : WireStack → Result Fault (List String)
  argv_of s = if s.command == "" then ok [] else host.split s.command

  -- kill-the-tree, the losing forms, the launch
  abbrev pub replace_child : WireStack → Env → Bool → Act H (Unit {0})
  replace_child s env is_live = do
    if is_live then stop_process_child host s.name else skip
    teardown_container_forms host s.name
    ensure_running host s.name s.command env
    change (λ d. record d { applied_jobs_dir = put s.name (stack_jobs_dir s) d.applied_jobs_dir })

  -- the secrets and the launcher are ready before anything is stopped
  abbrev pub launch : WireStack → Env → Bool → Act H (Unit {0})
  launch s env is_live = do
    ready ← pull_stack_secrets host s
    if ready then (do argv ← resolve_command host s.command; replace_child s env is_live) else skip

  abbrev pub with_image : WireStack → Env → Bool → Act H (Unit {0})
  with_image s env is_live = do
    unbuilt ← declared_but_unbuilt host (get_or_empty "THEOZOLITH_RUN_IMAGE" env)
    if unbuilt then skip else launch s env is_live

  abbrev pub with_distribution : WireStack → Env → Bool → Act H (Unit {0})
  with_distribution s env is_live = do
    desired ← look (λ d. d.desired.drivers_hash)
    applied ← current_drivers_hash host
    if desired == "" || not (applied == desired)
        then emit_error host "config-dist-missing" (not_converged s desired)
        else with_image s env is_live

  abbrev pub unblocked : WireStack → Env → List String → Bool → Act H (Unit {0})
  unblocked s env argv is_live =
      if invokes_custom_driver argv
      then with_distribution s env is_live
      else with_image s env is_live

  abbrev pub unless_blocked : WireStack → Env → List String → Option Message → Act H (Unit {0})
  unless_blocked s env argv none = unblocked s env argv true
  unless_blocked s env argv (some why) = skip

  -- a restart waits for the Run in flight
  abbrev pub due : WireStack → Env → List String → Bool → Act H (Unit {0})
  due s env argv false = unblocked s env argv false
  due s env argv true = do
    blocker ← observe (inflight_blocker host (some (s.name ∷ [])))
    unless_blocked s env argv blocker

  abbrev pub other_forms : WireStack → List Container → Bool → Act H (Unit {0})
  other_forms s [] false = skip
  other_forms s [] true = teardown_container_forms host s.name
  other_forms s (row ∷ rows) tracked = teardown_container_forms host s.name

  -- live at this spec: only a stale form of another kind goes
  abbrev pub sole_form : WireStack → Act H (Unit {0})
  sole_form s = do
    rows ← call (host.stack_containers (some s.name))
    tracked ← look (λ d. is_some (find s.name d.applied_compose))
    other_forms s rows tracked

  abbrev pub refuse : WireStack → Bool → Act H (Unit {0})
  refuse s is_live = do
    if is_live then stop_process_child host s.name else skip
    raise (no_run_image s)

  abbrev pub imaged : WireStack → Env → List String → Bool → Act H (Unit {0})
  imaged s env argv is_live = do
    stale ← observe (needs_restart host s.name s.command env)
    if is_live && not stale then sole_form s else due s env argv is_live

  abbrev pub with_argv : WireStack → Env → List String → Act H (Unit {0})
  with_argv s env argv = do
    is_live ← observe (alive host s.name)
    if invokes_driver argv && get_or_empty "THEOZOLITH_RUN_IMAGE" env == ""
        then refuse s is_live
        else imaged s env argv is_live

  abbrev pub with_env : WireStack → Env → Act H (Unit {0})
  with_env s env = do argv ← lift (argv_of s); with_argv s env argv

  abbrev pub wanted : WireStack → Act H (Unit {0})
  wanted s = do env ← process_env host s; with_env s env

  -- `_converge_process`
  unfoldable pub converge_process : WireStack → Bool → Act H (Unit {0})
  converge_process s want_running =
      if want_running then wanted s else teardown_all_forms host s.name
