-- ===== src/Store/Tests.antt =====
-- Runs of the store's operations, and instances of the theorems on them.
use the_ozolith.Common.{
  ℕ, ◌+◌, ◌≤◌, max, String, ◌≡◌, refl, true, false, none, some, List, [], ◌∷◌, ◌++◌, arith, ltb,
  length, nat_eq, string_eq, pair_eq, triple_eq, list_eq,
}
use mathlib.Core.List.{Perm}
use mathlib.Core.List.Perm
use the_ozolith.Common.Table.{find, put, delete, update}
use the_ozolith.Common.Message.{Message, lit, num, say}
use the_ozolith.Store.{Store, fresh, Payload, text, int}
use the_ozolith.Store.Sessions.{
  create_session, session_active, create_join_token, redeem_join_token,
}
use the_ozolith.Store.Sessions.Uses.{redeemed, redeemed-le-uses}
use the_ozolith.Store.Sessions.Expiry.{checked, session_active-create_session}
use the_ozolith.Store.Quarantine.{node_quarantine, bump_failures, bumped, quarantine_reason}
use the_ozolith.Store.Events.{
  event_run, event_row, record_event, apply_run, activate, str_of, int_of, live_claims,
  claims_among, LiveClaim,
}
use the_ozolith.Store.Events.Failures.{recorded, node_quarantine-recorded}
use the_ozolith.Store.Events.Standing.{
  HealthOp, event, operated, standing, counted_ops, standing-operated,
}
use the_ozolith.Store.Events.Claims.{
  row_for, untouched, claim_made, live_claims-record_event, record_event-AreNumbered,
}
use the_ozolith.Store.Sightings.{unregistered_cap, record_unregistered}
use the_ozolith.Store.Sightings.Cap.{record_unregistered-cap}
use the_ozolith.Store.Commands.{pending_commands}
use the_ozolith.Store.Commands.Redelivery.{
  queue, report, stepped, queue_after, pending_commands-stepped,
}
use the_ozolith.Store.Convergence.{version_health, drivers_health, observe_convergence, health}
use the_ozolith.Store.Convergence.Patience.{watch, watch-answers, answers, row_after, has_restart}
use the_ozolith.Store.Convergence.Lever.{pending_restarts, pending_restarts-observe_convergence}

unreported_row : find "n1" (health version_health fresh) ≡ none
unfolding health find
unreported_row = refl

watch-answers_example :
    ((watch version_health "n1" (some "v1") "v2" 2 (10 ∷ 20 ∷ 30 ∷ 40 ∷ 50 ∷ []) fresh).0
      ≡ answers 2 0 (10 ∷ 20 ∷ 30 ∷ 40 ∷ 50 ∷ []))
    × (find "n1" (
          health version_health
            (watch version_health "n1" (some "v1") "v2" 2 (10 ∷ 20 ∷ 30 ∷ 40 ∷ 50 ∷ []) fresh).1)
        ≡ row_after 2 5)
    × (has_restart "n1"
          (watch version_health "n1" (some "v1") "v2" 2 (10 ∷ 20 ∷ 30 ∷ 40 ∷ 50 ∷ []) fresh).1
        ≡ true)
watch-answers_example =
    watch-answers version_health "n1" (some "v1") "v2" 2 refl (omega arith) 0
      (10 ∷ 20 ∷ 30 ∷ 40 ∷ 50 ∷ []) fresh unreported_row

pending_restarts-observe_convergence_example :
    pending_restarts "n1"
      (observe_convergence drivers_health "n1"
        (some "")
        "h"
        1
        false
        30
        (observe_convergence version_health "n1" (some "v1") "v2" 1 false 10 fresh).1).1
    ≤ 1
pending_restarts-observe_convergence_example =
    pending_restarts-observe_convergence drivers_health "n1" "n1" (some "") "h" 1 false 30
      (observe_convergence version_health "n1" (some "v1") "v2" 1 false 10 fresh).1
      (pending_restarts-observe_convergence version_health "n1" "n1" (some "v1") "v2" 1 false 10
        fresh (omega arith))

-- sessions and join tokens, with the digest that is the text itself

abbrev plain : String → String
plain raw = raw

redeemed-le-uses_example :
    (redeemed plain "k"
      (("k", 5) ∷ ("x", 6) ∷ ("k", 7) ∷ ("k", 8) ∷ [])
      (create_join_token plain "k" "id" 60 2 0 fresh).1).0
    ≤ max 1 2
redeemed-le-uses_example =
    redeemed-le-uses plain "k" "id" 60 2 0 fresh (("k", 5) ∷ ("x", 6) ∷ ("k", 7) ∷ ("k", 8) ∷ [])
      refl

redeemed_twice :
    (redeemed plain "k"
      (("k", 5) ∷ ("x", 6) ∷ ("k", 7) ∷ ("k", 8) ∷ [])
      (create_join_token plain "k" "id" 60 2 0 fresh).1).0
    ≡ 2
unfolding redeemed create_join_token redeem_join_token put update delete
redeemed_twice = refl

session_active-create_session_example :
    (session_active plain "k" 40
      (checked plain (("k", 10) ∷ ("j", 20) ∷ []) (create_session plain "k" 60 0 fresh).1)).0
    ≡ ltb 40 (0 + 60)
session_active-create_session_example =
    session_active-create_session plain "k" 60 0 40 (("k", 10) ∷ ("j", 20) ∷ []) fresh refl
      (omega arith, (omega arith, tt))

-- Run events

abbrev run_event : String → ℕ → Payload
run_event phase n =
    ("type", text event_run)
    ∷ ("repo", text "o/r")
    ∷ ("issue", int n)
    ∷ ("node", text "n1")
    ∷ ("run_id", text "r1")
    ∷ ("phase", text phase)
    ∷ []

abbrev two_failures : List (Payload × ℕ)
two_failures = (run_event "failed" 1, 10) ∷ (run_event "failed" 2, 20) ∷ []

abbrev failed_twice : Message
failed_twice =
    num 2
    ∷ lit " consecutive failed Runs (latest run "
    ∷ lit "r1"
    ∷ lit ", issue #"
    ∷ num 2
    ∷ say ")"

quarantined : node_quarantine "n1" (recorded two_failures fresh) ≡ some failed_twice
unfolding recorded record_event apply_run activate event_row node_quarantine bump_failures bumped
    quarantine_reason find put str_of int_of
quarantined = refl

node_quarantine-recorded_example :
    node_quarantine "n1" (recorded ((run_event "pr-open" 3, 30) ∷ []) (recorded two_failures fresh))
    ≡ some failed_twice
node_quarantine-recorded_example =
    node_quarantine-recorded "n1" ((run_event "pr-open" 3, 30) ∷ []) (recorded two_failures fresh)
      failed_twice quarantined

abbrev two_and_success : List HealthOp
two_and_success =
    event (run_event "failed" 1) 10
    ∷ event (run_event "gate" 1) 15
    ∷ event (run_event "failed" 2) 20
    ∷ event (run_event "pr-open" 3) 30
    ∷ []

standing-operated_example :
    standing "n1" (operated two_and_success fresh)
    ≡ counted_ops "n1" two_and_success (standing "n1" fresh)
standing-operated_example = standing-operated "n1" two_and_success fresh

-- the quarantine outlives the streak that brought it
standing_run : counted_ops "n1" two_and_success (0, false) ≡ (0, true)
unfolding str_of find
standing_run = refl

-- issues 2 and 3 are live, read in the other order, and issue 1 is claimed
abbrev two_live : Store
two_live = record_event (run_event "gate" 3) 8 (record_event (run_event "gate" 2) 5 fresh)

abbrev claim_at : ℕ → ℕ → LiveClaim
claim_at n at = record {
  repo = "o/r";
  issue = n;
  driver = "";
  node = "n1";
  run_id = "r1";
  last_event_at = at;
}

two_live_claims : live_claims two_live ≡ claim_at 2 5 ∷ claim_at 3 8 ∷ []
unfolding live_claims claims_among record_event apply_run activate event_row str_of int_of find
two_live_claims = refl

live_claims-record_event_example :
    Perm (live_claims (record_event (run_event "claimed" 1) 10 two_live)) (
      untouched (row_for (run_event "claimed" 1) 10 two_live) (claim_at 3 8 ∷ claim_at 2 5 ∷ [])
      ++ claim_made (row_for (run_event "claimed" 1) 10 two_live))
live_claims-record_event_example =
    live_claims-record_event (run_event "claimed" 1) 10 two_live (claim_at 3 8 ∷ claim_at 2 5 ∷ [])
      (live_claims (record_event (run_event "claimed" 1) 10 two_live))
      (record_event-AreNumbered (run_event "gate" 3) 8 (record_event (run_event "gate" 2) 5 fresh)
        (record_event-AreNumbered (run_event "gate" 2) 5 fresh tt))
      (rw two_live_claims (Perm.swap (claim_at 2 5) (claim_at 3 8) [])) Perm.rfl

-- commands

abbrev one_drain : Store
one_drain = stepped (queue "n1" "drain" none false 5) fresh

pending_commands-stepped_example :
    (pending_commands "n1" 9 (stepped (report "n2" (1 ∷ []) 8) one_drain)).0
    ≡ queue_after "n1" one_drain.next_command
        (report "n2" (1 ∷ []) 8)
        (pending_commands "n1" 9 one_drain).0
pending_commands-stepped_example =
    pending_commands-stepped "n1" (report "n2" (1 ∷ []) 8) 9 one_drain

record_unregistered-cap_example :
    length (record_unregistered "n9" "10.0.0.9" 5 fresh).unregistered_nodes ≤ unregistered_cap
record_unregistered-cap_example = record_unregistered-cap "n9" "10.0.0.9" 5 fresh (omega arith)
