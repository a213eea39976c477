-- ===== src/Store/Convergence/Lever.antt =====
-- store.py: the one restart lever that both ladders pull.
use the_ozolith.Common.{
  ℕ, ◌+◌, ◌*◌, ◌≤◌, String, ◌≡◌, refl, sym, inl, inr, Bool, false, not, ◌&&◌, Option, none, List,
  [], ◌∷◌, ◌++◌, arith, leb, if◌then◌else◌, Bool-cases, length, length-append, any, select, ◌==◌,
  nat_eq, string_eq, pair_eq, triple_eq, list_eq, ==_true,
}
use the_ozolith.Common.Table.{Table, find, put}
use the_ozolith.Store.{Store, HealthRow}
use the_ozolith.Store.Commands.{queue_command}
use the_ozolith.Store.Convergence.{
  Ladder, version_health, drivers_health, health, with_health, row_or_new, is_settled,
  is_pending_restart, queue_restart, climb, observe_convergence,
}

abbrev counted : HealthRow → HealthRow
counted row = record row { offpin_beats = row.offpin_beats + 1 }

-- the restarts that a node has pending
abbrev pub pending_restarts : String → Store → ℕ
pending_restarts node s = length (select (is_pending_restart node) s.commands)

abbrev OfHealth : Ladder → Table String HealthRow → (node : String) (s : Store) → Type 0
OfHealth l t node s = pending_restarts node (with_health l t s) ≡ pending_restarts node s

pending_restarts-with_health :
    (l : Ladder) (t : Table String HealthRow) (node : String) (s : Store) → OfHealth l t node s
unfolding with_health
pending_restarts-with_health version_health t node s = refl
pending_restarts-with_health drivers_health t node s = refl

module _ {A : Type 0} (test : A → Bool) where
  select-append : (xs ys : List A) → select test (xs ++ ys) ≡ select test xs ++ select test ys
  select-append [] ys = refl
  select-append (x ∷ xs) ys = ground (arith, select-append xs ys)

  length-select-none : (xs : List A) → any test xs ≡ false → length (select test xs) ≡ 0
  length-select-none [] h = refl
  length-select-none (x ∷ xs) h = ground (arith, length-select-none xs)

  length-select-append :
      (xs ys : List A)
      → length (select test (xs ++ ys)) ≡ length (select test xs) + length (select test ys)
  length-select-append xs ys =
      rw (select-append xs ys, length-append (select test xs) (select test ys))

pending_restarts-queue_command :
    (node other : String) (now : ℕ) (s : Store)
    → pending_restarts node (queue_command other "restart" none false now s).1
      ≡ pending_restarts node s + (if other == node then 1 else 0)
unfolding queue_command
pending_restarts-queue_command node other now s =
    rw (length-select-append (is_pending_restart node) s.commands) (ground arith)

pending_restarts-queue_restart :
    (node other : String) (now : ℕ) (s : Store)
    → pending_restarts node s ≤ 1
    → pending_restarts node (queue_restart other now s) ≤ 1
unfolding queue_restart
pending_restarts-queue_restart node other now s h =
    elim (Bool-cases (any (is_pending_restart other) s.commands)) [
      | inl e ↦ rw e h
      | inr e ↦ elim (Bool-cases (other == node)) [
        | inl same ↦
            let none_yet : pending_restarts other s ≡ 0 =
              length-select-none (is_pending_restart other) s.commands e in
            let this : other ≡ node = ==_true other node same in
            rw (e, pending_restarts-queue_command node other now s, same, sym this, none_yet)
              (omega arith)
        | inr differs ↦
            rw (e, pending_restarts-queue_command node other now s, differs) (omega arith)
      ]
    ]

module _ (l : Ladder) (node other : String) where
  pending_restarts-climb :
      (threshold now : ℕ) (row : HealthRow) (s : Store)
      → pending_restarts node s ≤ 1
      → pending_restarts node (climb l other threshold now row s).1 ≤ 1
  unfolding climb
  pending_restarts-climb threshold now row s h =
      elim (Bool-cases (not row.restart_queued && leb threshold row.offpin_beats)) [
        | inl e ↦
            rw (e, pending_restarts-with_health) (pending_restarts-queue_restart node other now s h)
        | inr e ↦
            elim (Bool-cases
              (row.restart_queued && not row.escalated && leb (2 * threshold) row.offpin_beats)) [
                | inl f ↦ rw (e, f, pending_restarts-with_health) h
                | inr f ↦ rw (e, f) h
              ]
      ]

  -- The ladders share one lever: a node with at most one restart pending has at most one after any
  -- beat of any node on either ladder.
  pub pending_restarts-observe_convergence :
      (reported : Option String) (desired : String) (threshold : ℕ) (deferred : Bool) (now : ℕ)
      (s : Store)
      → pending_restarts node s ≤ 1
      → pending_restarts node
          (observe_convergence l other reported desired threshold deferred now s).1
        ≤ 1
  unfolding observe_convergence
  pending_restarts-observe_convergence reported desired threshold deferred now s h =
      elim (Bool-cases (is_settled reported desired deferred)) [
        | inl e ↦ rw (e, pending_restarts-with_health) h
        | inr e ↦
            let row : HealthRow = counted (row_or_new (find other (health l s))) in
            let base : Store = with_health l (put other row (health l s)) s in
            rw e (pending_restarts-climb threshold now row base (rw pending_restarts-with_health h))
      ]
