-- ===== src/Daemon/Kept/Pass.antt =====
-- What a whole pass keeps, of a relation that the writes under every Stack's name keep.
use the_ozolith.Common.{
  ℕ, String, refl, Bool, true, false, Option, none, some, List, [], ◌∷◌, nat_eq, string_eq, pair_eq,
  triple_eq, list_eq,
}
use the_ozolith.Common.Message.{Message}
use the_ozolith.Common.Keeps.{Preorder}
use the_ozolith.Common.Steady.{Steady, Steady-bind, steady_rules}
use the_ozolith.Daemon.{Daemon, Command, Host, Machine}
use the_ozolith.Daemon.Base.{Act, ack, change}
use the_ozolith.Daemon.Supervisor.{stop, stop_all}
use the_ozolith.Daemon.Teardown.{drain, recycle, stop_process_child, teardown_all_forms}
use the_ozolith.Daemon.Kept.{
  IsApart, Ground, Leaves, Steady-look, Steady-observe, Steady-lift, Steady-call, Steady-ask,
  Steady-skip, Steady-atomic_json, Steady-emit_event, Steady-report, Steady-each, Steady-stop,
  Steady-stop_process_child, Steady-teardown_all_forms,
}
use the_ozolith.Daemon.Kept.Spec.{Steady-current_drivers_hash}
use the_ozolith.Daemon.Kept.Reconcile.{Steady-reconcile}
use the_ozolith.Daemon.Beat.{exchange_heartbeat}
use the_ozolith.Daemon.Commands.{
  installed, when_writable, with_targets, install_product, update_unless, converge_product, rebuilt,
  perform, ack_unless, run_command, undefer, unless_deferred, execute, go_on, execute_all,
}
use the_ozolith.Daemon.Drivers.{
  set_hash, stop_drivers_stacks, apply_config_dist, retire_config_dist, drivers_unless,
  converge_drivers,
}
use the_ozolith.Daemon.Reconcile.{reconcile}
use the_ozolith.Daemon.Pass.{once}
use the_ozolith.Daemon.Kept.Beat.{Steady-exchange_heartbeat}

module _ {H : Type 0} (R : Preorder (Machine H)) (facts : Ground R) (host : Host H) where
  Steady-others : (f : Daemon → Daemon) → ((d : Daemon) → IsApart d (f d)) → Steady R (change f)
  Steady-others = facts.others

  ruleset pass_rules = (
    steady_rules, Steady-look, Steady-observe, Steady-lift, Steady-call, Steady-ask, Steady-skip,
    Steady-emit_event, Steady-report, Steady-each, Steady-others, Steady-atomic_json, refl,
  )

  Steady-set_hash : (o : Option String) → Steady R (set_hash host o)
  Steady-set_hash o = search pass_rules

  Steady-ack : (i : Option ℕ) → Steady R (ack host i)
  unfolding ack
  Steady-ack none = search pass_rules
  Steady-ack (some i) = search pass_rules depth 8

  Steady-heartbeat : Steady R (exchange_heartbeat host)
  Steady-heartbeat = Steady-exchange_heartbeat R facts host

  module _ (leaves : (name : String) → Leaves R facts host name) where
    Steady-stop_name : (grace : ℕ) (name : String) → Steady R (stop host name grace)
    Steady-stop_name grace name = Steady-stop R facts host (leaves name) grace

    Steady-stop_child : (name : String) → Steady R (stop_process_child host name)
    Steady-stop_child name = Steady-stop_process_child R facts host (leaves name)

    Steady-teardown : (name : String) → Steady R (teardown_all_forms host name)
    Steady-teardown name = Steady-teardown_all_forms R facts host (leaves name)

    Steady-stop_all : (grace : ℕ) → Steady R (stop_all host grace)
    unfolding stop_all
    Steady-stop_all grace = search (pass_rules, Steady-stop_name)

    Steady-drain : (target : Option String) → Steady R (drain host target)
    unfolding drain
    Steady-drain target = search (pass_rules, Steady-teardown) depth 12

    Steady-recycle : (target : Option String) → Steady R (recycle host target)
    unfolding recycle
    Steady-recycle target = search (pass_rules, Steady-teardown) depth 12

    Steady-installed : (done : Bool) → Steady R (installed host done)
    Steady-installed false = search pass_rules
    Steady-installed true = search pass_rules depth 8

    Steady-when_writable :
        (targets : List String) (o : Option Message) → Steady R (when_writable host targets o)
    Steady-when_writable targets none =
        search (pass_rules, Steady-stop_all, Steady-installed) depth 12
    Steady-when_writable targets (some why) = search pass_rules

    Steady-with_targets : (targets : List String) → Steady R (with_targets host targets)
    Steady-with_targets [] = search pass_rules
    Steady-with_targets (t ∷ ts) = search (pass_rules, Steady-when_writable)

    Steady-install_product : (pin : String) → Steady R (install_product host pin)
    unfolding install_product
    Steady-install_product pin = search (pass_rules, Steady-with_targets)

    Steady-update_unless : (pin : String) (o : Option Message) → Steady R (update_unless host pin o)
    Steady-update_unless pin none = search (pass_rules, Steady-install_product) depth 12
    Steady-update_unless pin (some why) = search pass_rules

    Steady-converge_product : (force : Bool) → Steady R (converge_product host force)
    unfolding converge_product
    Steady-converge_product force = search (pass_rules, Steady-update_unless) depth 12

    Steady-rebuilt : (target : Option String) → Steady R (change (rebuilt target))
    Steady-rebuilt none = search pass_rules
    Steady-rebuilt (some t) = search pass_rules

    Steady-perform : (c : Command) → Steady R (perform host c)
    Steady-perform c =
        search
          (
            pass_rules, Steady-drain, Steady-recycle, Steady-rebuilt, Steady-ack,
            Steady-converge_product, Steady-stop_all,
          )
          depth 16

    Steady-ack_unless : (c : Command) (over : Bool) → Steady R (ack_unless host c over)
    Steady-ack_unless c true = search pass_rules
    Steady-ack_unless c false = Steady-ack c.id

    Steady-run_command : (c : Command) → Steady R (run_command host c)
    Steady-run_command c = search (pass_rules, Steady-perform, Steady-ack_unless) depth 12

    Steady-undefer : (i : Option ℕ) → Steady R (change (undefer host i))
    Steady-undefer none = search pass_rules
    Steady-undefer (some i) = search pass_rules

    Steady-unless_deferred :
        (c : Command) (i : Option ℕ) (o : Option Message) → Steady R (unless_deferred host c i o)
    Steady-unless_deferred c (some i) (some why) = search pass_rules depth 8
    Steady-unless_deferred c (some i) none = search (pass_rules, Steady-undefer, Steady-run_command)
    Steady-unless_deferred c none o = search (pass_rules, Steady-undefer, Steady-run_command)

    Steady-execute : (c : Command) → Steady R (execute host c)
    unfolding execute
    Steady-execute c = search (pass_rules, Steady-unless_deferred)

    Steady-go_on :
        (rest : Act H (Unit {0})) (b : Bool) → Steady R rest → Steady R (go_on host rest b)
    Steady-go_on rest true k = k
    Steady-go_on rest false k = search pass_rules

    pub Steady-execute_all : (cs : List Command) → Steady R (execute_all host cs)
    unfolding execute_all
    Steady-execute_all [] = search pass_rules
    Steady-execute_all (c ∷ cs) =
        Steady-bind _ _ (Steady-execute c)
          (λ executed. Steady-go_on _ executed (Steady-execute_all cs))

    Steady-stop_drivers_stacks : Steady R (stop_drivers_stacks host)
    unfolding stop_drivers_stacks
    Steady-stop_drivers_stacks = search (pass_rules, Steady-stop_child) depth 12

    Steady-apply : (desired previous : String) → Steady R (apply_config_dist host desired previous)
    unfolding apply_config_dist
    Steady-apply desired previous =
        search (pass_rules, Steady-stop_drivers_stacks, Steady-set_hash) depth 16

    Steady-retire : Steady R (retire_config_dist host)
    unfolding retire_config_dist
    Steady-retire = search (pass_rules, Steady-stop_drivers_stacks, Steady-set_hash) depth 16

    Steady-drivers_unless :
        (desired current : String) (o : Option Message)
        → Steady R (drivers_unless host desired current o)
    Steady-drivers_unless desired current none =
        search (pass_rules, Steady-apply, Steady-retire) depth 16
    Steady-drivers_unless desired current (some why) = search pass_rules

    Steady-converge_drivers : Steady R (converge_drivers host)
    unfolding converge_drivers
    Steady-converge_drivers =
        search (pass_rules, Steady-current_drivers_hash, Steady-drivers_unless) depth 16

    Steady-settled : Steady R (reconcile host)
    Steady-settled = Steady-reconcile R facts host leaves

    pub Steady-once : Steady R (once host)
    unfolding once
    Steady-once =
        search
          (
            pass_rules, Steady-heartbeat, Steady-execute_all, Steady-converge_product,
            Steady-converge_drivers, Steady-settled,
          )
          depth 24
