-- ===== src/Daemon/Kept/Reconcile.antt =====
-- What a reconcile pass keeps, of a relation that the writes under every Stack's name keep.
use the_ozolith.Common.{
  String, refl, Bool, true, false, Option, none, some, List, nat_eq, string_eq, pair_eq, triple_eq,
  list_eq,
}
use the_ozolith.Common.Message.{Message}
use the_ozolith.Common.Exec.{Result, ok, err}
use the_ozolith.Common.Keeps.{Preorder}
use the_ozolith.Common.Steady.{Steady, Steady-if, Steady-catch, Steady-bind, steady_rules}
use the_ozolith.Daemon.{Fault, WireStack, Image, Container, Host, Machine}
use the_ozolith.Daemon.Base.{Act}
use the_ozolith.Daemon.Kept.{
  Ground, Leaves, Steady-look, Steady-observe, Steady-lift, Steady-call, Steady-ask, Steady-skip,
  Steady-emit_event, Steady-report, Steady-isolated, Steady-each, Steady-stop_process_child,
}
use the_ozolith.Daemon.Kept.Spec.{Steady-current_drivers_hash}
use the_ozolith.Daemon.Kept.Converge.{Steady-converge_process, Steady-converge_container}
use the_ozolith.Daemon.Generations.{
  Kept, subdirectories, listed, gc_compose_generations, sweep_root, sweep_compose_generations,
}
use the_ozolith.Daemon.Reconcile.{
  contained, stop_absent, remove_absent, down_absent, reconcile_removed, set_policy,
  migrate_one_restart_policy, migrate_rows, migrate_restart_policies, reap_orphans, built, build,
  converge, converge_stack, settle, reconcile,
}

module _ {H : Type 0} (R : Preorder (Machine H)) (facts : Ground R) (host : Host H) where
  ruleset pass_rules = (
    steady_rules, Steady-look, Steady-observe, Steady-lift, Steady-call, Steady-ask, Steady-skip,
    Steady-emit_event, Steady-isolated, Steady-each,
  )

  pub Steady-contained :
      (what : Message) (m : Act H (Unit {0})) → Steady R m → Steady R (contained host what m)
  unfolding contained
  Steady-contained what m k = Steady-catch m _ k (Steady-report R facts host what)

  Steady-listed : (dir : String) (o : Option (List _)) → Steady R (listed host dir o)
  Steady-listed dir none = search pass_rules
  Steady-listed dir (some es) = search pass_rules

  Steady-subdirectories : (dir : String) → Steady R (subdirectories host dir)
  unfolding subdirectories
  Steady-subdirectories dir = search (pass_rules, Steady-listed)

  Steady-gc : (k : Kept) (stack : String) → Steady R (gc_compose_generations host k stack)
  unfolding gc_compose_generations
  Steady-gc k stack = search (pass_rules, Steady-subdirectories) depth 12

  Steady-sweep_root : (is_there : Bool) → Steady R (sweep_root host is_there)
  Steady-sweep_root false = search pass_rules
  Steady-sweep_root true = search (pass_rules, Steady-subdirectories, Steady-gc) depth 12

  Steady-sweep : Steady R (sweep_compose_generations host)
  unfolding sweep_compose_generations
  Steady-sweep = search (pass_rules, Steady-sweep_root)

  Steady-set_policy : (name : String) (o : Option String) → Steady R (set_policy host name o)
  Steady-set_policy name none = search pass_rules
  Steady-set_policy name (some policy) = search pass_rules

  Steady-migrate_one : (name : String) → Steady R (migrate_one_restart_policy host name)
  unfolding migrate_one_restart_policy
  Steady-migrate_one name = search (pass_rules, Steady-set_policy)

  Steady-migrate_rows : (r : Result Fault (List Container)) → Steady R (migrate_rows host r)
  Steady-migrate_rows (ok rows) = search (pass_rules, Steady-migrate_one) depth 12
  Steady-migrate_rows (err (Fault.docker_error m)) = search pass_rules
  Steady-migrate_rows (err (Fault.control_unreachable m)) = search pass_rules
  Steady-migrate_rows (err (Fault.control_error m)) = search pass_rules
  Steady-migrate_rows (err (Fault.secret_name_error m)) = search pass_rules
  Steady-migrate_rows (err (Fault.os_error m)) = search pass_rules
  Steady-migrate_rows (err (Fault.value_error m)) = search pass_rules
  Steady-migrate_rows (err (Fault.launcher_missing m)) = search pass_rules
  Steady-migrate_rows (err (Fault.runtime_error m)) = search pass_rules

  Steady-migrate : Steady R (migrate_restart_policies host)
  unfolding migrate_restart_policies
  Steady-migrate = search (pass_rules, Steady-migrate_rows)

  Steady-reap : Steady R (reap_orphans host)
  unfolding reap_orphans
  Steady-reap = search pass_rules depth 12

  Steady-built : (name : String) (ran : Bool) → Steady R (built host name ran)
  Steady-built name false = search pass_rules
  Steady-built name true =
      facts.others _ (λ d. record { children = refl; jobs_dirs = refl; projects = refl })

  Steady-build :
      (root credentials : Option String) (i : Image) → Steady R (build host root credentials i)
  Steady-build root credentials i = search (pass_rules, Steady-contained, Steady-built) depth 12

  pub Steady-converge :
      (s : WireStack) → Leaves R facts host s.name → (want : Bool) → Steady R (converge host s want)
  Steady-converge s leaves want =
      Steady-if _ _ _ (Steady-converge_process R facts host s leaves want)
        (Steady-converge_container R facts host s leaves want)

  module _ (leaves : (name : String) → Leaves R facts host name) where
    Steady-stop_absent :
        (desired : List String) (name : String) → Steady R (stop_absent host desired name)
    Steady-stop_absent desired name =
        Steady-if _ _ _ (Steady-skip R facts host)
          (Steady-isolated R facts host _ _ (Steady-stop_process_child R facts host (leaves name)))

    Steady-down_absent :
        (desired : List String) (name : String) → Steady R (down_absent host desired name)
    Steady-down_absent desired name =
        Steady-if _ _ _ (Steady-skip R facts host)
          (Steady-isolated R facts host _ _ (leaves name).down)

    Steady-remove_absent :
        (desired : List String) (container : String) (o : Option String)
        → Steady R (remove_absent host desired container o)
    Steady-remove_absent desired container none = search pass_rules
    Steady-remove_absent desired container (some name) = search pass_rules

    pub Steady-reconcile_removed :
        (stacks : List WireStack) → Steady R (reconcile_removed host stacks)
    unfolding reconcile_removed
    Steady-reconcile_removed stacks =
        search (pass_rules, Steady-stop_absent, Steady-remove_absent, Steady-down_absent) depth 16

    Steady-converge_stack : (s : WireStack) → Steady R (converge_stack host s)
    Steady-converge_stack s =
        Steady-bind _ _ (Steady-look R _)
          (λ want. Steady-contained _ _ (Steady-converge s (leaves s.name) want))

    pub Steady-settle : (applied : String) → Steady R (settle host applied)
    unfolding settle
    Steady-settle applied =
        search
          (
            pass_rules, Steady-contained, Steady-build, Steady-reconcile_removed, Steady-migrate,
            Steady-converge_stack, Steady-reap, Steady-sweep,
          )
          depth 24

    pub Steady-reconcile : Steady R (reconcile host)
    unfolding reconcile
    Steady-reconcile = search (pass_rules, Steady-current_drivers_hash, Steady-settle)
