-- ===== src/Daemon/Kept/Beat.antt =====
-- What a heartbeat keeps, of a relation that the writes under no Stack's name keep.
use the_ozolith.Common.{
  String, refl, Option, none, some, List, [], ◌∷◌, nat_eq, string_eq, pair_eq, triple_eq, list_eq,
}
use the_ozolith.Common.Exec.{Result, ok, err}
use the_ozolith.Common.Keeps.{Preorder}
use the_ozolith.Common.Steady.{Steady, Steady-pure, Steady-bind, steady_rules}
use the_ozolith.Daemon.{Fault, WireStack, Desired, Daemon, Answer, Host, Machine}
use the_ozolith.Daemon.Base.{change}
use the_ozolith.Daemon.Kept.{
  IsApart, Ground, Steady-look, Steady-observe, Steady-lift, Steady-call, Steady-ask, Steady-skip,
  Steady-atomic_json, Steady-emit_event, Steady-report, Steady-each,
}
use the_ozolith.Daemon.Kept.Spec.{Steady-current_drivers_hash}
use the_ozolith.Daemon.Beat.{
  rows_of, unobserved, stack_status, stack_statuses, unlisted, status_payload, adopt, received,
  exchange_heartbeat,
}

module _ {H : Type 0} (R : Preorder (Machine H)) (facts : Ground R) (host : Host H) where
  Steady-others : (f : Daemon → Daemon) → ((d : Daemon) → IsApart d (f d)) → Steady R (change f)
  Steady-others = facts.others

  ruleset beat_rules = (
    steady_rules, Steady-look, Steady-observe, Steady-lift, Steady-call, Steady-ask, Steady-skip,
    Steady-emit_event, Steady-report, Steady-each, Steady-others, Steady-atomic_json, refl,
  )

  Steady-unobserved : (s : WireStack) (e : Fault) → Steady R (unobserved host s e)
  Steady-unobserved s (Fault.docker_error m) = search beat_rules
  Steady-unobserved s (Fault.control_unreachable m) = search beat_rules
  Steady-unobserved s (Fault.control_error m) = search beat_rules
  Steady-unobserved s (Fault.secret_name_error m) = search beat_rules
  Steady-unobserved s (Fault.os_error m) = search beat_rules
  Steady-unobserved s (Fault.value_error m) = search beat_rules
  Steady-unobserved s (Fault.launcher_missing m) = search beat_rules
  Steady-unobserved s (Fault.runtime_error m) = search beat_rules

  Steady-unlisted : (e : Fault) → Steady R (unlisted host e)
  Steady-unlisted (Fault.docker_error m) = search beat_rules
  Steady-unlisted (Fault.control_unreachable m) = search beat_rules
  Steady-unlisted (Fault.control_error m) = search beat_rules
  Steady-unlisted (Fault.secret_name_error m) = search beat_rules
  Steady-unlisted (Fault.os_error m) = search beat_rules
  Steady-unlisted (Fault.value_error m) = search beat_rules
  Steady-unlisted (Fault.launcher_missing m) = search beat_rules
  Steady-unlisted (Fault.runtime_error m) = search beat_rules

  Steady-rows_of :
      (s : WireStack) (files : List (String × String)) → Steady R (rows_of host s files)
  Steady-rows_of s [] = search beat_rules
  Steady-rows_of s (file ∷ files) = search beat_rules

  Steady-stack_status : (s : WireStack) → Steady R (stack_status host s)
  unfolding stack_status
  Steady-stack_status s = search (beat_rules, Steady-rows_of, Steady-unobserved) depth 12

  Steady-stack_statuses : (stacks : List WireStack) → Steady R (stack_statuses host stacks)
  unfolding stack_statuses
  Steady-stack_statuses [] = search beat_rules
  Steady-stack_statuses (s ∷ stacks) =
      Steady-bind _ _ (Steady-stack_status s)
        (λ row. Steady-bind _ _ (Steady-stack_statuses stacks) (λ rest. Steady-pure _))

  Steady-status_payload : Steady R (status_payload host)
  unfolding status_payload
  Steady-status_payload =
      search (beat_rules, Steady-stack_statuses, Steady-unlisted, Steady-current_drivers_hash) depth
        16

  Steady-adopt : (o : Option Desired) → Steady R (adopt host o)
  Steady-adopt none = search beat_rules
  Steady-adopt (some config) = search beat_rules depth 8

  Steady-received : (r : Result Fault Answer) → Steady R (received host r)
  Steady-received (ok a) = search (beat_rules, Steady-adopt) depth 12
  Steady-received (err (Fault.control_unreachable m)) = search beat_rules depth 8
  Steady-received (err (Fault.docker_error m)) = search beat_rules
  Steady-received (err (Fault.control_error m)) = search beat_rules
  Steady-received (err (Fault.secret_name_error m)) = search beat_rules
  Steady-received (err (Fault.os_error m)) = search beat_rules
  Steady-received (err (Fault.value_error m)) = search beat_rules
  Steady-received (err (Fault.launcher_missing m)) = search beat_rules
  Steady-received (err (Fault.runtime_error m)) = search beat_rules

  pub Steady-exchange_heartbeat : Steady R (exchange_heartbeat host)
  unfolding exchange_heartbeat
  Steady-exchange_heartbeat = search (beat_rules, Steady-status_payload, Steady-received) depth 12
