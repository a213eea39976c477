-- ===== src/Daemon/Tests.antt =====
-- Runs of the daemon on a small host, and instances of the theorems on it.
use the_ozolith.Common.{
  ℕ, ◌≤◌, ◌≡◌, refl, ◌≢◌, ◌⊎◌, true, false, none, some, [], ◌∷◌, arith, length, nat_eq, string_eq,
  pair_eq, triple_eq, list_eq,
}
use the_ozolith.Common.Table.{find, put, delete}
use the_ozolith.Common.Message.{Message}
use the_ozolith.Common.Exec.{ok, pure, ◌>>=◌, catch}
use the_ozolith.Common.Keeps.{Preorder}
use the_ozolith.Common.Order.{insert_by}
use the_ozolith.Common.Returns.{IsOk}
use the_ozolith.Daemon.{Env, ComposeState, Daemon, Command}
use the_ozolith.Daemon.Base.{look, call, change, observe, lift, each, isolated}
use the_ozolith.Daemon.Supervisor.{alive}
use the_ozolith.Daemon.Runs.{get_or_empty, sorted_names, active_runs, inflight_blocker}
use the_ozolith.Daemon.Spec.{process_env, current_drivers_hash}
use the_ozolith.Daemon.Process.{converge_process}
use the_ozolith.Daemon.Reconcile.{converge, reconcile}
use the_ozolith.Daemon.Generations.{
  subdirectories, directories, keep_records, gc_compose_generations, sweep_compose_generations,
}
use the_ozolith.Daemon.Beat.{exchange_heartbeat, next_delay}
use the_ozolith.Daemon.Commands.{execute_all, converge_product}
use the_ozolith.Daemon.Drivers.{converge_drivers}
use the_ozolith.Daemon.Pass.{once}
use the_ozolith.Daemon.Durable.{IsDurable, once-IsDurable}
use the_ozolith.Daemon.Apart.{SameStack, converge-SameStack}
use the_ozolith.Daemon.Supervisor.{child_env}
use the_ozolith.Daemon.Identity.{IsSealed, IsBare, process_env-IsSealed}
use the_ozolith.Daemon.Busy.{IsDesired, InFlight, deferred, execute_all-held}
use the_ozolith.Daemon.Undisturbed.{Elsewhere, IsUndisturbed, converge_process-IsUndisturbed}
use the_ozolith.Daemon.Preflight.{CanStart, converge_product-CanStart}
use the_ozolith.Daemon.Contained.{reconcile-IsOk}
use the_ozolith.Daemon.Acks.{WasReported, exchange_heartbeat-WasReported}
use the_ozolith.Daemon.Pacing.{next_delay_bounds}
use the_ozolith.Daemon.Reclaimed.{sweep_compose_generations-IsFree}
use the_ozolith.Daemon.Staged.{IsStaged, converge_drivers-IsStaged}
use the_ozolith.Daemon.Sample.{Log, small, driver, web, idle, working, on_small}

-- a pass on which the project is written ahead and brought up
once-IsDurable_example : IsDurable (once small (on_small idle)).1
once-IsDurable_example = once-IsDurable small (on_small idle) (λ name. unfold find in tt)

converge-SameStack_example :
    SameStack "driver" working (converge small web true (on_small working)).1.daemon
converge-SameStack_example =
    converge-SameStack small web true "driver" (on_small working) (λ e. absurd (cc e))

-- the environment of the driver, from whose Stack a foreign URL comes
abbrev launched : Env
launched =
    ("THEOZOLITH_NODE_NAME", "n1")
    ∷ ("THEOZOLITH_STACK", "driver")
    ∷ ("THEOZOLITH_JOBS_DIR", "/jobs")
    ∷ ("THEOZOLITH_RUN_IMAGE", "run:1")
    ∷ ("CONTROL_NODE_URL", "https://control")
    ∷ ("THEOZOLITH_NODE_TOKEN", "token")
    ∷ ("THEOZOLITH_TLS_CA", "ca.pem")
    ∷ []

environment_run : process_env small driver (on_small working) ≡ (ok launched, on_small working)
unfolding process_env lift ◌>>=◌ find put delete
environment_run = refl

small-IsBare : IsBare small
unfolding find
small-IsBare = record { ca = refl; url_file = refl; token_file = refl; ca_file = refl }

process_env-IsSealed_example : IsSealed small (child_env small launched)
process_env-IsSealed_example =
    process_env-IsSealed small driver launched (on_small working) (on_small working)
      (λ e. absurd (cc e)) small-IsBare environment_run

listed : IsDesired driver working
listed = record { before = []; after = web ∷ []; listed = refl }

in_flight : InFlight small driver working []
unfolding alive find active_runs sorted_names insert_by
in_flight = record { is_process = refl; lives = refl; run = λ e. absurd (cc e) }

abbrev restart_command : Command
restart_command = record { id = some 9; verb = "restart"; target = none; force = false }

abbrev drain_command : Command
drain_command = record { id = some 10; verb = "drain"; target = some "driver"; force = false }

execute_all-held_example :
    (why : Message) × (execute_all small (restart_command ∷ drain_command ∷ []) (on_small working)
      ≡ (ok tt, deferred small 9 why (on_small working)))
execute_all-held_example =
    execute_all-held small restart_command (drain_command ∷ []) 9 driver (on_small working) refl
      refl listed in_flight refl

elsewhere : Elsewhere small (λ log. tt)
elsewhere = record {
  verified = λ h. refl;
  listed = λ name h. refl;
  removed = λ name h. refl;
  composed = λ project files verb h. refl;
  replaced = λ file h. refl;
}

has_image : get_or_empty "THEOZOLITH_RUN_IMAGE" launched ≢ ""
unfolding find
has_image e = absurd (cc e)

converge_process-IsUndisturbed_example :
    IsUndisturbed small
      (λ log. tt)
      (on_small working)
      (converge_process small driver true (on_small working)).1
converge_process-IsUndisturbed_example =
    converge_process-IsUndisturbed small (λ log. tt) elsewhere driver launched (on_small working)
      (on_small working) environment_run has_image listed in_flight

converge_product-CanStart_example :
    (working.children ≡ (converge_product small true (on_small working)).1.daemon.children)
    ⊎ (CanStart small "2" []
        × ("2" ≢ small.config.version)
        × (true ≡ false → inflight_blocker small none working [] ≡ none))
converge_product-CanStart_example = converge_product-CanStart small true (on_small working)

verified_run : IsOk (current_drivers_hash small (on_small idle)).0
unfolding current_drivers_hash ◌>>=◌ look call change pure
verified_run = tt

reconcile-IsOk_example : IsOk (reconcile small (on_small idle)).0
reconcile-IsOk_example = reconcile-IsOk small (on_small idle) verified_run

exchange_heartbeat-WasReported_example :
    (idle.completed ≡ (exchange_heartbeat small (on_small idle)).1.daemon.completed)
    ⊎ WasReported small idle.completed
exchange_heartbeat-WasReported_example = exchange_heartbeat-WasReported small (on_small idle)

next_delay_bounds_example :
    (now : ℕ) × (later : ℕ) × (next_delay small idle ≡ some now)
    × (next_delay small (record idle { unreachable_streak = 5 }) ≡ some later)
    × (60 ≤ now)
    × (now ≤ later)
    × (later ≤ 300)
next_delay_bounds_example = next_delay_bounds small idle 5 (omega arith) (omega arith) (omega arith)

-- the float cannot hold the factor of the 1025th pass without an answer
overflow_run : next_delay small (record idle { unreachable_streak = 1025 }) ≡ none
unfolding next_delay
overflow_run = refl

-- the record of the project, whose file lies in the entry `new`
abbrev recorded : Daemon
recorded = record idle {
  applied_compose =
      (
        "web",
        record { fingerprint = "digest"; files = "base.yml" ∷ []; state = ComposeState.applied },
      )
      ∷ [];
}

-- the log only grows
abbrev grows : Preorder Log
grows = record {
  Rel = λ g h. length g ≤ length h;
  same = λ g. omega arith;
  along = λ f g h p q. omega arith;
}

sweep_compose_generations-IsFree_example :
    0 ≤ length (sweep_compose_generations small (on_small recorded)).1.host
sweep_compose_generations-IsFree_example =
    sweep_compose_generations-IsFree small grows (on_small recorded) (λ e log. omega arith)
      (λ stack entry free log. omega arith)

sweep_run :
    (sweep_compose_generations small (on_small recorded)).1.host ≡ "/state/stacks/web/old" ∷ []
unfolding sweep_compose_generations ◌>>=◌ look call observe each subdirectories directories isolated
    catch pure keep_records gc_compose_generations insert_by
sweep_run = refl

converge_drivers-IsStaged_example :
    (working.children ≡ (converge_drivers small (on_small working)).1.daemon.children)
    ⊎ ((inflight_blocker small none
            (current_drivers_hash small (on_small working)).1.daemon
            (current_drivers_hash small (on_small working)).1.host
          ≡ none)
        × IsStaged small "d1" (current_drivers_hash small (on_small working)).1.host)
converge_drivers-IsStaged_example = converge_drivers-IsStaged small (on_small working)
