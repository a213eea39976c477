-- ===== src/Store/Events/Standing.antt =====
-- store.py: the failure streak and the quarantine of a node, against a count of its own events.
use the_ozolith.Common.{
  ℕ, ◌+◌, String, ◌≡◌, refl, ◌∙◌, inl, inr, Bool, true, false, ◌&&◌, ◌||◌, Option, none, some, List,
  [], ◌∷◌, arith, leb, if◌then◌else◌, Bool-cases, ◌==◌, nat_eq, string_eq, pair_eq, triple_eq,
  list_eq, ==_true, is_value,
}
use the_ozolith.Common.Table.{find, map_option, find-put, find-update}
use the_ozolith.Store.{Store, Payload, EventRow, NodeHealth}
use the_ozolith.Store.Quarantine.{
  bumped, bump_failures, reset_failures, health_or_new, release_quarantine, released,
}
use the_ozolith.Store.Events.{
  event_run, event_row, str_of, is_phase, activate, type_text, count_failure, apply_run,
  append_event, record_event,
}
use the_ozolith.Store.Events.Failures.{node_health-activate}

-- what moves the health of nodes: an event recorded at a time, or a human's release of a node
pub data HealthOp : Type 0 where
  event : (e : Payload) (now : ℕ) → HealthOp
  release : (node : String) → HealthOp

-- the operations, one after the other
unfoldable pub operated : List HealthOp → Store → Store
operated [] s = s
operated (event e now ∷ ops) s = operated ops (record_event e now s)
operated (release node ∷ ops) s = operated ops (release_quarantine node s).1

-- the failed Runs in a row, and whether the node is under quarantine
abbrev standing_of : Option NodeHealth → ℕ × Bool
standing_of none = (0, false)
standing_of (some h) = (h.consecutive_failures, h.quarantined)

abbrev pub standing : String → Store → ℕ × Bool
standing node s = standing_of (find node s.node_health)

-- the count: one more for a failed Run, with the quarantine from the second on; a Run that opened its
-- pull request starts the count anew and lifts nothing
abbrev ended : (of_node failed opened : Bool) → ℕ × Bool → ℕ × Bool
ended of_node failed opened x =
    if of_node
    then (if failed then (x.0 + 1, x.1 || leb 2 (x.0 + 1)) else if opened then (0, x.1) else x)
    else x

abbrev is_run_event : Payload → Bool
is_run_event e = type_text (find "type" e) == event_run

-- what the operation makes of the standing of the node
abbrev pub counted_op : String → HealthOp → ℕ × Bool → ℕ × Bool
counted_op node (event e now) x =
    ended (is_run_event e && is_value (str_of "node" e) node) (is_value (str_of "phase" e) "failed")
      (is_value (str_of "phase" e) "pr-open") x
counted_op node (release other) x = if other == node && x.1 then (0, false) else x

abbrev pub counted_ops : String → List HealthOp → ℕ × Bool → ℕ × Bool
counted_ops node [] x = x
counted_ops node (op ∷ ops) x = counted_ops node ops (counted_op node op x)

bumped_lem :
    (issue : Option ℕ) (run_id : Option String) (now : ℕ) (h : Option NodeHealth)
    → standing_of (some (bumped issue run_id now (health_or_new h)))
      ≡ ((standing_of h).0 + 1, (standing_of h).1 || leb 2 ((standing_of h).0 + 1))
unfolding bumped
bumped_lem issue run_id now none = ground arith
bumped_lem issue run_id now (some h) = ground arith

reset_lem :
    (h : Option NodeHealth)
    → standing_of (map_option (λ (r : NodeHealth). record r { consecutive_failures = 0 }) h)
      ≡ (0, (standing_of h).1)
reset_lem none = refl
reset_lem (some h) = refl

released_lem :
    (h : Option NodeHealth)
    → standing_of (map_option (λ (r : NodeHealth). if r.quarantined then released else r) h)
      ≡ (if (standing_of h).1 then (0, false) else standing_of h)
released_lem none = refl
released_lem (some h) = ground arith

module _ (node : String) where
  bump_lem :
      (n : String) (issue : Option ℕ) (run_id : Option String) (now : ℕ) (s : Store)
      → standing node (bump_failures n issue run_id now s)
        ≡ ended (n == node) true false (standing node s)
  unfolding bump_failures
  bump_lem n issue run_id now s = elim (Bool-cases (n == node)) [
    | inl same ↦
        rw (find-put, same, ==_true n node same)
          (bumped_lem issue run_id now (find node s.node_health))
    | inr other ↦ rw (find-put, other) refl
  ]

  reset_failures_lem :
      (n : String) (s : Store)
      → standing node (reset_failures n s) ≡ ended (n == node) false true (standing node s)
  unfolding reset_failures
  reset_failures_lem n s = elim (Bool-cases (n == node)) [
    | inl same ↦ rw (find-update, same) (reset_lem (find node s.node_health))
    | inr other ↦ rw (find-update, other) refl
  ]

  count_lem :
      (row : EventRow) (n : Option String) (now : ℕ) (s : Store)
      → standing node (count_failure row n now s)
        ≡ ended (is_value n node) (is_phase "failed" row) (is_phase "pr-open" row) (standing node s)
  count_lem row none now s = refl
  count_lem row (some n) now s = elim (Bool-cases (is_phase "failed" row)) [
    | inl e ↦ rw e (bump_lem n row.issue row.run_id now s)
    | inr e ↦ elim (Bool-cases (is_phase "pr-open" row)) [
      | inl f ↦ rw (e, f) (reset_failures_lem n s)
      | inr f ↦ rw (e, f) (ground arith)
    ]
  ]

  record_event_lem :
      (e : Payload) (now : ℕ) (s : Store)
      → standing node (record_event e now s) ≡ counted_op node (event e now) (standing node s)
  unfolding record_event apply_run event_row
  record_event_lem e now s =
      let row : EventRow = event_row s.next_event now e in
      elim (Bool-cases (is_run_event e)) [
        | inl run ↦ rw run (
            count_lem row row.node now (activate row (append_event row s))
            ∙ rw node_health-activate refl)
        | inr not_run ↦ rw not_run refl
      ]

  release_lem :
      (other : String) (s : Store)
      → standing node (release_quarantine other s).1
        ≡ counted_op node (release other) (standing node s)
  unfolding release_quarantine
  release_lem other s = elim (Bool-cases (other == node)) [
    | inl same ↦ rw (find-update, same) (released_lem (find node s.node_health))
    | inr differs ↦ rw (find-update, differs) refl
  ]

  -- The store counts failures as a reader of the events would: after any sequence of events and of
  -- releases by a human, the streak and the quarantine of a node are those that its own events and
  -- releases give, one by one, from the standing before. A failed Run of the node adds one, and from
  -- two on it is under quarantine; a Run that opened its pull request starts the streak anew and
  -- lifts no quarantine; a release of the node, if it is under quarantine, clears both; nothing else
  -- counts.
  pub standing-operated :
      (ops : List HealthOp) (s : Store)
      → standing node (operated ops s) ≡ counted_ops node ops (standing node s)
  unfolding operated
  standing-operated [] s = refl
  standing-operated (event e now ∷ ops) s =
      standing-operated ops (record_event e now s) ∙ rw (record_event_lem e now s) refl
  standing-operated (release other ∷ ops) s =
      standing-operated ops (release_quarantine other s).1 ∙ rw (release_lem other s) refl
