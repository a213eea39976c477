-- ===== src/Daemon/Drivers.antt =====
-- daemon.py: the convergence onto the desired config distribution, staged before anything is stopped.
use the_ozolith.Common.{
  String, true, not, ◌&&◌, ◌||◌, Option, none, some, List, [], ◌∷◌, map, if◌then◌else◌, select,
  ◌==◌, nat_eq, string_eq, pair_eq, triple_eq, list_eq, set_add, set_remove,
}
use the_ozolith.Common.Message.{Message, say}
use the_ozolith.Common.Exec.{raise, ◌>>=◌, ◌>>◌, catch}
use the_ozolith.Daemon.{WireStack, Daemon, Host}
use the_ozolith.Daemon.Base.{Act, call, ask, look, observe, change, skip, each, report}
use the_ozolith.Daemon.Supervisor.{alive}
use the_ozolith.Daemon.Runs.{inflight_blocker}
use the_ozolith.Daemon.Teardown.{stop_process_child}
use the_ozolith.Daemon.Spec.{is_config_dist_stack, current_drivers_hash}

module _ {H : Type 0} (host : Host H) where
  abbrev pub set_hash : Option String → Act H (Unit {0})
  set_hash hash = change (λ d. record d { verified_drivers_hash = hash })

  abbrev stack_name : WireStack → String
  stack_name s = s.name

  -- `_drivers_stack_names`
  abbrev pub drivers_stack_names : Daemon → List String
  drivers_stack_names d = map stack_name (select (is_config_dist_stack host) d.desired.stacks)

  abbrev pub stop_if_live : String → Act H (Unit {0})
  stop_if_live name = do
    live ← observe (alive host name)
    if live then stop_process_child host name else skip

  -- `_stop_drivers_stacks`
  unfoldable pub stop_drivers_stacks : Act H (Unit {0})
  stop_drivers_stacks = do names ← look drivers_stack_names; each stop_if_live names

  -- what runs only once the replacement is verified
  abbrev pub swap : String → Act H (Unit {0})
  swap desired = do set_hash none; stop_drivers_stacks; call (host.exchange_distribution desired)

  -- `try: … finally: rmtree(staging)`
  abbrev pub after_staging : Act H (Unit {0}) → Act H (Unit {0})
  after_staging m = do catch m (λ e. ask host.discard_staging >> raise e); ask host.discard_staging

  -- `keep={desired, previous} - {""}`
  abbrev kept : String → String → List String
  kept desired previous = set_remove (set_add (desired ∷ []) previous) ""

  -- `_apply_config_dist`; the fetch, the unpacking and the verification in staging are one call of the
  -- host
  unfoldable pub apply_config_dist : String → String → Act H (Unit {0})
  unfolding stop_drivers_stacks
  apply_config_dist desired previous = do
    after_staging (do call (host.stage_distribution desired); swap desired)
    call (host.write_current_pointer desired)
    set_hash (some desired)
    call (host.gc_config_dist (kept desired previous))

  -- `_retire_config_dist`
  unfoldable pub retire_config_dist : Act H (Unit {0})
  unfolding stop_drivers_stacks
  retire_config_dist = do
    set_hash none
    stop_drivers_stacks
    ask host.clear_current_pointer
    call (host.gc_config_dist [])
    set_hash (some "")

  abbrev pub set_drivers_blocker : Option Message → Act H (Unit {0})
  set_drivers_blocker m = change (λ d. record d { drivers_blocker = m })

  abbrev pub drivers_failed : Message
  drivers_failed = say "config distribution apply failed: "

  abbrev pub converge_to : String → String → Act H (Unit {0})
  converge_to desired current = do
    change (λ d. record d { drivers_attempted = true })
    catch (if desired == "" then retire_config_dist else apply_config_dist desired current)
        (report host drivers_failed)

  -- without a client a distribution cannot be fetched
  abbrev pub drivers_unless : String → String → Option Message → Act H (Unit {0})
  drivers_unless desired current (some why) = set_drivers_blocker (some why)
  drivers_unless desired current none = do
    set_drivers_blocker none
    if not (desired == "") && not host.has_client then skip else converge_to desired current

  abbrev pub drivers_due : String → String → Act H (Unit {0})
  drivers_due desired current = if desired == current then set_drivers_blocker none else (do
    blocker ← observe (inflight_blocker host none)
    drivers_unless desired current blocker)

  abbrev pub drivers_pass : Act H (Unit {0})
  drivers_pass = do
    desired ← look (λ d. d.desired.drivers_hash)
    current ← current_drivers_hash host
    drivers_due desired current

  -- `_converge_drivers`
  unfoldable pub converge_drivers : Act H (Unit {0})
  unfolding apply_config_dist retire_config_dist
  converge_drivers = do
    over ← look (λ d. d.update_done || d.drivers_attempted)
    if over then skip else drivers_pass
