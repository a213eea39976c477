-- ===== src/Daemon/Beat.antt =====
-- daemon.py: the body of a heartbeat, the exchange with the Control Node, and the pause between passes.
use the_ozolith.Common.{
  ℕ, ◌+◌, ◌-◌, ◌*◌, min, String, Option, none, some, List, [], ◌∷◌, ◌++◌, leb, if◌then◌else◌, any,
  ◌==◌, nat_eq, string_eq, pair_eq, triple_eq, list_eq,
}
use the_ozolith.Common.Message.{Message, lit}
use the_ozolith.Common.Exec.{Result, ok, err, pure, raise, ◌>>=◌, ◌>>◌, catch, tried}
use Prim.Native.Nat.{◌^◌}
use the_ozolith.Daemon.{
  Fault, WireStack, Desired, Daemon, Container, StackStatus, Evidence, Payload, Command, Answer,
  StateFile, Host,
}
use the_ozolith.Daemon.Base.{
  Act, call, look, observe, change, skip, atomic_json, emit_error, wire_setting,
  default_heartbeat_seconds,
}
use the_ozolith.Daemon.Supervisor.{status}
use the_ozolith.Daemon.Runs.{inflight_blocker}
use the_ozolith.Daemon.Compose.{project, is_running}
use the_ozolith.Daemon.Spec.{current_drivers_hash}

abbrev pub docker_observation_failed : String
docker_observation_failed = "docker-observation-failed"

-- BACKOFF_CAP_SECONDS
abbrev pub backoff_cap_seconds : ℕ
backoff_cap_seconds = 300

abbrev pub or_else : Option Message → Option Message → Message
or_else (some m) other = m
or_else none (some m) = m
or_else none none = []

-- a Stack's row and its container rows
abbrev pub Reported : Type 0
Reported = StackStatus × List Evidence

abbrev pub reported : WireStack → String → List Evidence → Reported
reported s state rows = (record { name = s.name; kind = s.kind; state = state }, rows)

unfoldable pub evidence_of : String → List Container → List Evidence
evidence_of stack [] = []
evidence_of stack (c ∷ cs) =
    let rest = evidence_of stack cs in
    if c.name == "" then rest else record { name = c.name; stack = stack; state = c.state } ∷ rest

abbrev pub observed : WireStack → List Container → Reported
observed s rows =
    reported s (if any is_running rows then "running" else "stopped") (evidence_of s.name rows)

-- the blocker of this beat, else the one that the last pass retained
abbrev pub payload_of :
    List StackStatus × List Evidence → Option Message → List Container → String → Daemon → Payload
payload_of rows blocker run_containers hash d = record {
  stacks = rows.0;
  stack_containers = rows.1;
  run_containers = run_containers;
  drivers_hash = hash;
  completed_commands = d.completed;
  deferred_commands = d.deferrals;
  update_deferred = or_else blocker d.update_blocker;
  drivers_deferred = or_else blocker d.drivers_blocker;
}

module _ {H : Type 0} (host : Host H) where
  abbrev pub rows_of : WireStack → List (String × String) → Act H (List Container)
  rows_of s [] = call (host.stack_containers (some s.name))
  rows_of s (file ∷ files) = call (host.compose_ps (project s.name))

  abbrev pub container_rows : WireStack → Act H (List Container)
  container_rows s = rows_of s s.compose_files

  -- a failed read is never evidence of absence: the rows are withheld
  abbrev pub unobserved : WireStack → Fault → Act H Reported
  unobserved s (Fault.docker_error m) = do
    emit_error host docker_observation_failed
        (lit "stack " ∷ lit s.name ∷ lit ": container observation failed: " ∷ m)
    pure (reported s "unknown" [])
  unobserved s e = raise e

  abbrev pub observe_containers : WireStack → Act H Reported
  observe_containers s = catch (do rows ← container_rows s; pure (observed s rows)) (unobserved s)

  unfoldable pub stack_status : WireStack → Act H Reported
  unfolding evidence_of
  stack_status s =
      if s.kind == "process"
      then (do state ← observe (status host s.name); pure (reported s state []))
      else observe_containers s

  unfoldable pub stack_statuses : List WireStack → Act H (List StackStatus × List Evidence)
  unfolding stack_status
  stack_statuses [] = pure ([], [])
  stack_statuses (s ∷ stacks) = do
    row ← stack_status s
    rest ← stack_statuses stacks
    pure (row.0 ∷ rest.0, row.1 ++ rest.1)

  abbrev pub unlisted : Fault → Act H (List Container)
  unlisted (Fault.docker_error m) = do
    emit_error host docker_observation_failed (lit "run-container listing failed: " ∷ m)
    pure []
  unlisted e = raise e

  -- `_status_payload`
  unfoldable pub status_payload : Act H Payload
  unfolding stack_statuses
  status_payload = do
    stacks ← look (λ d. d.desired.stacks)
    rows ← stack_statuses stacks
    blocker ← observe (inflight_blocker host none)
    run_containers ← catch (call host.run_containers) unlisted
    hash ← current_drivers_hash host
    look (payload_of rows blocker run_containers hash)

  abbrev pub adopt : Option Desired → Act H (Unit {0})
  adopt none = skip
  adopt (some config) = do
    change (λ d. record d { desired = config })
    atomic_json host StateFile.cache_path (λ d f. record f { cache = config })

  -- the acks landed: they are not sent again
  abbrev pub answered : Answer → Act H (List Command)
  answered a = do
    change (λ d. record d { unreachable_streak = 0; completed = [] })
    atomic_json host StateFile.acks_path (λ d f. record f { acks = d.completed })
    adopt a.config
    pure a.commands

  abbrev pub received : Result Fault Answer → Act H (List Command)
  received (ok a) = answered a
  received (err (Fault.control_unreachable m)) = do
    change (λ d. record d { unreachable_streak = d.unreachable_streak + 1 })
    pure []
  received (err (Fault.control_error m)) = pure []
  received (err e) = raise e

  abbrev pub send : Act H Answer
  send = do payload ← status_payload; call (host.heartbeat payload)

  -- `_exchange_heartbeat`
  unfoldable pub exchange_heartbeat : Act H (List Command)
  unfolding status_payload
  exchange_heartbeat =
      if host.has_client then (do answer ← tried send; received answer) else pure []

  abbrev pub heartbeat_seconds : Daemon → ℕ
  heartbeat_seconds d =
      wire_setting d.desired.heartbeat_seconds host.config.heartbeat_seconds
        default_heartbeat_seconds

  -- `_next_delay`: none is the OverflowError of `base * 2 ** (streak - 1)`, whose factor becomes a
  -- float, for which 2 ** 1024 is too large
  unfoldable pub next_delay : Daemon → Option ℕ
  next_delay d =
      if leb d.unreachable_streak 1
      then some (heartbeat_seconds d)
      else if leb 1024 (d.unreachable_streak - 1)
      then none
      else some (min backoff_cap_seconds (heartbeat_seconds d * 2 ^ (d.unreachable_streak - 1)))
