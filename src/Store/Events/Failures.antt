-- ===== src/Store/Events/Failures.antt =====
-- store.py: what Run events do to the quarantine of a node.
use the_ozolith.Common.{
  ℕ, String, ◌≡◌, refl, inl, inr, Option, none, some, List, [], ◌∷◌, arith, Bool-cases, ◌==◌,
  nat_eq, string_eq, pair_eq, triple_eq, list_eq, ==_true,
}
use the_ozolith.Common.Table.{find, map_option, find-put, find-update}
use the_ozolith.Common.Message.{Message}
use the_ozolith.Store.{Store, Payload, EventRow, NodeHealth}
use the_ozolith.Store.Quarantine.{
  node_quarantine, quarantine_of, bumped, bump_failures, reset_failures, health_or_new,
}
use the_ozolith.Store.Events.{
  event_run, event_row, is_phase, activate, retire, count_failure, apply_run, append_event,
  record_event,
}

-- events recorded at given times, one after the other
unfoldable pub recorded : List (Payload × ℕ) → Store → Store
recorded [] s = s
recorded ((event, now) ∷ events) s = recorded events (record_event event now s)

pub node_health-activate :
    (row : EventRow) (s : Store) → (activate row s).node_health ≡ s.node_health
unfolding activate
node_health-activate row s = elim (Bool-cases (is_phase "claimed" row)) [
  | inl e ↦ rw e (retire_lem row.repo row.issue)
  | inr e ↦ rw e refl
]
  where
    retire_lem : (r : Option String) (i : Option ℕ) → (retire r i s).node_health ≡ s.node_health
    retire_lem none i = refl
    retire_lem (some r) none = refl
    retire_lem (some r) (some i) = refl

module _ (P : Option NodeHealth → Type 0) (node : String) where
  -- a property of the node's row that the two steps on it keep
  abbrev Kept : Type 0
  Kept =
      ((issue : Option ℕ) (run_id : Option String) (now : ℕ) (h : Option NodeHealth)
        → P h
        → P (some (bumped issue run_id now (health_or_new h))))
      × ((h : NodeHealth) → P (some h) → P (some (record h { consecutive_failures = 0 })))

  abbrev Holds : Store → Type 0
  Holds s = P (find node s.node_health)

  Holds-bump_failures :
      Kept
      → (n : String) (issue : Option ℕ) (run_id : Option String) (now : ℕ) (s : Store) → Holds s
      → Holds (bump_failures n issue run_id now s)
  unfolding bump_failures
  Holds-bump_failures k n issue run_id now s p = elim (Bool-cases (n == node)) [
    | inl same ↦
        rw (find-put, same, ==_true n node same) (k.0 issue run_id now (find node s.node_health) p)
    | inr other ↦ rw (find-put, other) p
  ]

  reset_row :
      Kept
      → (h : Option NodeHealth) → P h
      → P (map_option (λ (r : NodeHealth). record r { consecutive_failures = 0 }) h)
  reset_row k none p = p
  reset_row k (some h) p = k.1 h p

  Holds-reset_failures : Kept → (n : String) (s : Store) → Holds s → Holds (reset_failures n s)
  unfolding reset_failures
  Holds-reset_failures k n s p = elim (Bool-cases (n == node)) [
    | inl same ↦ rw (find-update, same) (reset_row k (find node s.node_health) p)
    | inr other ↦ rw (find-update, other) p
  ]

  Holds-count_failure :
      Kept
      → (row : EventRow) (n : Option String) (now : ℕ) (s : Store) → Holds s
      → Holds (count_failure row n now s)
  Holds-count_failure k row none now s p = p
  Holds-count_failure k row (some n) now s p = elim (Bool-cases (is_phase "failed" row)) [
    | inl e ↦ rw e (Holds-bump_failures k n row.issue row.run_id now s p)
    | inr e ↦ elim (Bool-cases (is_phase "pr-open" row)) [
      | inl f ↦ rw (e, f) (Holds-reset_failures k n s p)
      | inr f ↦ rw (e, f) p
    ]
  ]

  Holds-record_event :
      Kept → (event : Payload) (now : ℕ) (s : Store) → Holds s → Holds (record_event event now s)
  unfolding record_event apply_run
  Holds-record_event k event now s p =
      let row : EventRow = event_row s.next_event now event in
      elim (Bool-cases (row.type == event_run)) [
        | inl e ↦ rw e (
            Holds-count_failure k row row.node now (activate row (append_event row s))
              (rw node_health-activate p))
        | inr e ↦ rw e p
      ]

  pub Holds-recorded :
      Kept → (events : List (Payload × ℕ)) (s : Store) → Holds s → Holds (recorded events s)
  unfolding recorded
  Holds-recorded k [] s p = p
  Holds-recorded k ((event, now) ∷ events) s p =
      Holds-recorded k events (record_event event now s) (Holds-record_event k event now s p)

bumped-quarantine_of :
    (reason : Message) (issue : Option ℕ) (run_id : Option String) (now : ℕ) (h : Option NodeHealth)
    → quarantine_of h ≡ some reason
    → quarantine_of (some (bumped issue run_id now (health_or_new h))) ≡ some reason
unfolding bumped
bumped-quarantine_of reason issue run_id now none e = cc
bumped-quarantine_of reason issue run_id now (some h) e = ground arith

-- Only a human releases a node: whatever events are recorded, a node under quarantine stays under
-- it, for the same reason.
pub node_quarantine-recorded :
    (node : String) (events : List (Payload × ℕ)) (s : Store) (reason : Message)
    → node_quarantine node s ≡ some reason
    → node_quarantine node (recorded events s) ≡ some reason
unfolding node_quarantine
node_quarantine-recorded node events s reason h =
    Holds-recorded (λ (r : Option NodeHealth). quarantine_of r ≡ some reason) node
      (bumped-quarantine_of reason, λ r p. p) events s h
