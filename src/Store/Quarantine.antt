-- ===== src/Store/Quarantine.antt =====
-- store.py: node health, the quarantine gate of ADR-0016.
use the_ozolith.Common.{
  ℕ, ◌+◌, String, Bool, true, false, not, ◌&&◌, Option, none, some, [], ◌∷◌, ◌++◌, leb,
  if◌then◌else◌, nat_eq, string_eq, pair_eq, triple_eq,
}
use the_ozolith.Common.Table.{find, put, update}
use the_ozolith.Common.Message.{Message, lit, num, say}
use the_ozolith.Store.{Store, NodeHealth}

-- QUARANTINE_AFTER_FAILURES
abbrev pub quarantine_after_failures : ℕ
quarantine_after_failures = 2

abbrev pub or_quarantined : Message → Message
or_quarantined [] = say "quarantined"
or_quarantined (p ∷ m) = p ∷ m

abbrev pub quarantine_of : Option NodeHealth → Option Message
quarantine_of none = none
quarantine_of (some h) = if h.quarantined then some (or_quarantined h.reason) else none

unfoldable pub node_quarantine : String → Store → Option Message
node_quarantine node s = quarantine_of (find node s.node_health)

abbrev pub released : NodeHealth
released = record { consecutive_failures = 0; quarantined = false; reason = []; since = none }

abbrev pub is_quarantined : Option NodeHealth → Bool
is_quarantined none = false
is_quarantined (some h) = h.quarantined

-- UPDATE … WHERE node = ? AND quarantined = 1; the result is `rowcount > 0`
unfoldable pub release_quarantine : String → Store → Bool × Store
release_quarantine node s = (
  is_quarantined (find node s.node_health),
  record s {
    node_health =
        update node (λ (h : NodeHealth). if h.quarantined then released else h) s.node_health;
  },
)

abbrev or_unknown : Option String → String
or_unknown none = "unknown"
or_unknown (some s) = s

abbrev issue_part : Option ℕ → Message
issue_part none = []
issue_part (some n) = lit ", issue #" ∷ num n ∷ []

unfoldable pub quarantine_reason : ℕ → Option ℕ → Option String → Message
quarantine_reason failures issue run_id =
    num failures
      ∷ lit " consecutive failed Runs (latest run "
      ∷ lit (or_unknown run_id)
      ∷ issue_part issue
    ++ say ")"

abbrev pub health_or_new : Option NodeHealth → NodeHealth
health_or_new none = released
health_or_new (some h) = h

-- the row after one more failure: the counter, and the quarantine when it is due
unfoldable pub bumped : Option ℕ → Option String → ℕ → NodeHealth → NodeHealth
unfolding quarantine_reason
bumped issue run_id now h =
    let failures = h.consecutive_failures + 1 in
    let counted : NodeHealth = record h { consecutive_failures = failures } in
    if leb quarantine_after_failures failures && not h.quarantined
    then record counted {
      quarantined = true;
      reason = quarantine_reason failures issue run_id;
      since = some now;
    }
    else counted

unfoldable pub bump_failures : String → Option ℕ → Option String → ℕ → Store → Store
unfolding bumped
bump_failures node issue run_id now s = record s {
  node_health =
      put node (bumped issue run_id now (health_or_new (find node s.node_health))) s.node_health;
}

-- a completed Run resets the counter and releases nothing
unfoldable pub reset_failures : String → Store → Store
reset_failures node s = record s {
  node_health =
      update node (λ (h : NodeHealth). record h { consecutive_failures = 0 }) s.node_health;
}
