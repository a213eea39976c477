-- ===== src/Store/Convergence/Patience.antt =====
-- store.py: what a run of off-pin beats does to the health row and to the commands.
use the_ozolith.Common.{
  ℕ, zero, suc, ◌+◌, ◌*◌, ◌≤◌, String, ◌≡◌, refl, ap, ◌∙◌, inl, inr, true, false, not, Bool, ◌&&◌,
  ◌||◌, any, any-append, ltb, ==_refl, Option, none, some, List, [], ◌∷◌, arith, leb, nat_beq,
  if◌then◌else◌, Bool-cases, length, nat_eq, string_eq, pair_eq, triple_eq, list_eq,
}
use the_ozolith.Common.Table.{Table, find, put, find-put_self}
use the_ozolith.Store.{Store, HealthRow}
use the_ozolith.Store.Commands.{queue_command}
use the_ozolith.Store.Convergence.{
  Ladder, version_health, drivers_health, Rung, restart_queued, escalated, health, with_health,
  row_or_new, is_settled, is_pending_restart, queue_restart, climb, observe_convergence,
}

health-with_health :
    (l : Ladder) (t : Table String HealthRow) (s : Store) → health l (with_health l t s) ≡ t
unfolding health with_health
health-with_health version_health t s = refl
health-with_health drivers_health t s = refl

health-queue_restart :
    (l : Ladder) (node : String) (now : ℕ) (s : Store)
    → health l (queue_restart node now s) ≡ health l s
unfolding health queue_restart queue_command
health-queue_restart version_health node now s = ground arith
health-queue_restart drivers_health node now s = ground arith

commands-with_health :
    (l : Ladder) (t : Table String HealthRow) (s : Store)
    → (with_health l t s).commands ≡ s.commands
unfolding with_health
commands-with_health version_health t s = refl
commands-with_health drivers_health t s = refl

-- whether the node has a restart pending
abbrev pub has_restart : String → Store → Bool
has_restart node s = any (is_pending_restart node) s.commands

has_restart-queue_restart :
    (node : String) (now : ℕ) (s : Store) → has_restart node (queue_restart node now s) ≡ true
unfolding queue_restart queue_command
has_restart-queue_restart node now s = elim (Bool-cases (has_restart node s)) [
  | inl there ↦ rw (there, there) refl
  | inr idle ↦ rw (idle, any-append, ==_refl node, idle) refl
]

-- the row after `n` beats off the pin
abbrev pub row_after : ℕ → ℕ → Option HealthRow
row_after threshold zero = none
row_after threshold (suc n) = some (record {
  offpin_beats = suc n;
  restart_queued = leb threshold (suc n);
  escalated = leb (2 * threshold) (suc n);
})

-- what the `n`-th beat off the pin answers
abbrev pub answer_at : ℕ → ℕ → Option Rung
answer_at threshold n =
    if nat_beq n threshold
    then some restart_queued
    else if nat_beq n (2 * threshold)
    then some escalated
    else none

abbrev climbed : ℕ → HealthRow → HealthRow
climbed threshold row =
    if not row.restart_queued && leb threshold row.offpin_beats
    then record row { restart_queued = true }
    else if row.restart_queued && not row.escalated && leb (2 * threshold) row.offpin_beats
    then record row { escalated = true }
    else row

abbrev counted : HealthRow → HealthRow
counted row = record row { offpin_beats = row.offpin_beats + 1 }

-- Counting a beat and climbing give the next row.
climbed-counted :
    (threshold n : ℕ)
    → 1 ≤ threshold
    → some (climbed threshold (counted (row_or_new (row_after threshold n))))
      ≡ row_after threshold (suc n)
climbed-counted threshold zero pos = ground arith
climbed-counted threshold (suc n) pos = ground arith

module _ (l : Ladder) (node : String) (threshold : ℕ) where
  climb-row :
      (now : ℕ) (row : HealthRow) (s : Store)
      → find node (health l s) ≡ some row
      → find node (health l (climb l node threshold now row s).1) ≡ some (climbed threshold row)
  unfolding climb
  climb-row now row s h =
      elim (Bool-cases (not row.restart_queued && leb threshold row.offpin_beats)) [
        | inl e ↦ rw (e, health-with_health, find-put_self)
        | inr e ↦
            elim (Bool-cases
              (row.restart_queued && not row.escalated && leb (2 * threshold) row.offpin_beats)) [
                | inl f ↦ rw (e, f, health-with_health, find-put_self)
                | inr f ↦ rw (e, f, h)
              ]
      ]

  has_restart-climb :
      (now : ℕ) (row : HealthRow) (s : Store)
      → has_restart node (climb l node threshold now row s).1
        ≡ (has_restart node s || (not row.restart_queued && leb threshold row.offpin_beats))
  unfolding climb
  has_restart-climb now row s =
      elim (Bool-cases (not row.restart_queued && leb threshold row.offpin_beats)) [
        | inl e ↦ rw (e, commands-with_health, has_restart-queue_restart node now s) (ground arith)
        | inr e ↦
            elim (Bool-cases
              (row.restart_queued && not row.escalated && leb (2 * threshold) row.offpin_beats)) [
                | inl f ↦ rw (e, f, commands-with_health) (ground arith)
                | inr f ↦ rw (e, f) (ground arith)
              ]
      ]

  -- the condition of the restart, after `n` beats, is that the next is the one at the threshold
  due_lem :
      (n : ℕ)
      → 1 ≤ threshold
      → (not (counted (row_or_new (row_after threshold n))).restart_queued
          && leb threshold (counted (row_or_new (row_after threshold n))).offpin_beats)
        ≡ nat_beq (suc n) threshold
  due_lem zero pos = ground arith
  due_lem (suc n) pos = ground arith

  climb-answer :
      (now : ℕ) (s : Store) (n : ℕ)
      → 1 ≤ threshold
      → (climb l node threshold now (counted (row_or_new (row_after threshold n))) s).0
        ≡ answer_at threshold (suc n)
  unfolding climb
  climb-answer now s zero pos = ground arith
  climb-answer now s (suc n) pos = ground arith

-- beats of one node at the given times, and what they answered
pub watch :
    Ladder → String → Option String → String → ℕ → List ℕ → Store → List (Option Rung) × Store
watch l node reported desired threshold [] s = ([], s)
watch l node reported desired threshold (now ∷ times) s =
    let (rung, s') = observe_convergence l node reported desired threshold false now s in
    let (rungs, u) = watch l node reported desired threshold times s' in (rung ∷ rungs, u)

abbrev pub answers : ℕ → ℕ → List ℕ → List (Option Rung)
answers threshold n [] = []
answers threshold n (now ∷ times) = answer_at threshold (suc n) ∷ answers threshold (suc n) times

module _ (l : Ladder) (node : String) (reported : Option String) (desired : String)
    (threshold : ℕ) where
  beat_lem :
      is_settled reported desired false ≡ false
      → 1 ≤ threshold
      → (n now : ℕ) (s : Store) → find node (health l s) ≡ row_after threshold n
      → ((observe_convergence l node reported desired threshold false now s).0
          ≡ answer_at threshold (suc n))
        × (find node
              (health l (observe_convergence l node reported desired threshold false now s).1)
            ≡ row_after threshold (suc n))
        × (has_restart node (observe_convergence l node reported desired threshold false now s).1
            ≡ (has_restart node s || nat_beq (suc n) threshold))
  unfolding observe_convergence
  beat_lem off pos n now s h =
      let row : HealthRow = counted (row_or_new (row_after threshold n)) in
      let base : Store = with_health l (put node row (health l s)) s in
      let here : find node (health l base) ≡ some row = rw (health-with_health, find-put_self) in
      rw (off, h)
        (
          climb-answer l node threshold now base n pos,
          climb-row l node threshold now row base here ∙ climbed-counted threshold n pos,
          has_restart-climb l node threshold now row base
              ∙ rw (due_lem l node threshold n pos, commands-with_health) refl,
        )

  later_lem :
      (n k : ℕ) (b : Bool)
      → ((b || nat_beq (suc n) threshold) || (ltb (suc n) threshold && leb threshold (suc n + k)))
        ≡ (b || (ltb n threshold && leb threshold (n + suc k)))
  later_lem n k b = ground arith

  -- A node that stays off its pin, and is free to converge, climbs the ladder: of its beats from the
  -- reset on, the one at the threshold alone answers that it queued the restart, the one at twice
  -- the threshold alone that it escalated, and the health row counts them all. The node has a restart
  -- pending at the end exactly if it had one before, or the beat at the threshold was among them.
  pub watch-answers :
      is_settled reported desired false ≡ false
      → 1 ≤ threshold
      → (n : ℕ) (times : List ℕ) (s : Store) → find node (health l s) ≡ row_after threshold n
      → ((watch l node reported desired threshold times s).0 ≡ answers threshold n times)
        × (find node (health l (watch l node reported desired threshold times s).1)
            ≡ row_after threshold (n + length times))
        × (has_restart node (watch l node reported desired threshold times s).1
            ≡ (has_restart node s || (ltb n threshold && leb threshold (n + length times))))
  unfolding watch
  watch-answers off pos n [] s h = (refl, h ∙ ap (row_after threshold) (omega arith), ground arith)
  watch-answers off pos n (now ∷ times) s h =
      let (a, e, b) = beat_lem off pos n now s h in
      let (bs, es, rest) =
        watch-answers off pos (suc n) times
          (observe_convergence l node reported desired threshold false now s).1 e in
      (
        rw (a, bs),
        es ∙ ap (row_after threshold) (omega arith),
        rest ∙ rw b (later_lem n (length times) (has_restart node s)),
      )
