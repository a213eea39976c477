-- ===== src/Store/Events/Claims.antt =====
-- store.py: the live claims are a map from (repo, issue) that each Run event updates at its key.
use the_ozolith.Common.{
  ℕ, ◌+◌, ◌<◌, String, ◌≡◌, refl, ap, subst, ◌∙◌, inl, inr, Bool, true, false, not, ◌&&◌, ◌||◌,
  Option, none, some, List, [], ◌∷◌, ◌++◌, arith, ltb, if◌then◌else◌, Bool-cases, any, select,
  any-append, All, All-append, All-mono, Eq, ◌==◌, nat_eq, string_eq, pair_eq, triple_eq, list_eq,
  is_value, same_option,
}
use mathlib.Core.Bool.{Bool-discrete}
use mathlib.Core.List.{Perm, filter}
use mathlib.Core.List.Perm
use the_ozolith.Store.{Store, Payload, EventRow}
use the_ozolith.Store.Quarantine.{bump_failures, reset_failures}
use the_ozolith.Store.Events.{
  event_run, event_row, activate, retire, count_failure, apply_run, append_event, record_event,
  LiveClaim, is_run, same_claim, is_latest, claim_of, claim_at, cons_option, claims_among,
  live_claims,
}

-- the ids of the events are below the counter
abbrev pub AreNumbered : Store → Type 0
AreNumbered s = All (λ (e : EventRow). e.id < s.next_event) s.events

-- the row that an event is stored as
abbrev pub row_for : Payload → ℕ → Store → EventRow
row_for event now s = event_row s.next_event now event

events-retire : (r : Option String) (i : Option ℕ) (s : Store) → (retire r i s).events ≡ s.events
events-retire none i s = refl
events-retire (some r) none s = refl
events-retire (some r) (some i) s = refl

events-activate : (row : EventRow) (s : Store) → (activate row s).events ≡ s.events
unfolding activate
events-activate row s = ground (arith, events-retire row.repo row.issue s)

events-count_failure :
    (row : EventRow) (n : Option String) (now : ℕ) (s : Store)
    → (count_failure row n now s).events ≡ s.events
unfolding bump_failures reset_failures
events-count_failure row none now s = refl
events-count_failure row (some n) now s = ground arith

events-apply_run : (row : EventRow) (now : ℕ) (s : Store) → (apply_run row now s).events ≡ s.events
unfolding apply_run
events-apply_run row now s =
    events-count_failure row row.node now (activate row s) ∙ events-activate row s

events-record_event :
    (event : Payload) (now : ℕ) (s : Store)
    → (record_event event now s).events ≡ s.events ++ row_for event now s ∷ []
unfolding record_event
events-record_event event now s =
    let row : EventRow = row_for event now s in
    elim (Bool-cases (row.type == event_run)) [
      | inl e ↦ rw e (events-apply_run row now (append_event row s))
      | inr e ↦ rw e refl
    ]

-- the claim that a row of the same key replaces
abbrev pub is_claim : EventRow → LiveClaim → Bool
is_claim row c = is_value row.repo c.repo && is_value row.issue c.issue

abbrev IsOf : EventRow → LiveClaim → Type 0
IsOf e c = (e.repo ≡ some c.repo) × (e.issue ≡ some c.issue)

claim_of-IsOf :
    (e : EventRow) (r : Option String) (i : Option ℕ) (p : Option String) (c : LiveClaim)
    → claim_of e r i p ≡ some c
    → (r ≡ some c.repo) × (i ≡ some c.issue)
claim_of-IsOf e (some r) (some i) (some p) c h = ground arith
claim_of-IsOf e (some r) (some i) none c h = cc
claim_of-IsOf e (some r) none p c h = cc
claim_of-IsOf e none i p c h = cc

==_comm {ℓ} : {A : Type ℓ} ⦃e : Eq A⦄ (a b : A) → (a == b) ≡ (b == a)
==_comm ⦃e⦄ a b = ground (arith, e.equal_iff a b, e.equal_iff b a)

same_option_value {ℓ} :
    {A : Type ℓ} ⦃e : Eq A⦄ (a : A) (o : Option A) → same_option (some a) o ≡ is_value o a
same_option_value a none = refl
same_option_value a (some b) = ==_comm a b

same_claim_lem : (e row : EventRow) (c : LiveClaim) → IsOf e c → same_claim e row ≡ is_claim row c
same_claim_lem e row c h =
    rw (h.0, h.1, same_option_value c.repo row.repo, same_option_value c.issue row.issue) refl

claim_at-append :
    (events : List EventRow) (row e : EventRow)
    → e.id < row.id
    → claim_at (events ++ row ∷ []) e
      ≡ (if is_run row && same_claim e row then none else claim_at events e)
claim_at-append events row e h =
    let before : EventRow → Bool = λ (f : EventRow). is_run f && same_claim e f && ltb e.id f.id in
    rw (any-append before events (row ∷ []))
      (later_lem (is_run e) (any before events) (claim_of e e.repo e.issue e.phase))
  where
    later_lem :
        (r b : Bool) (c : Option LiveClaim)
        → (if r && not (b || (is_run row && same_claim e row && ltb e.id row.id || false))
            then c
            else none)
          ≡ (if is_run row && same_claim e row then none else if r && not b then c else none)
    later_lem r b c = ground (arith, h)

is_latest-append :
    (events : List EventRow) (row : EventRow)
    → All (λ (e : EventRow). e.id < row.id) events
    → any (λ (f : EventRow). is_run f && same_claim row f && ltb row.id f.id) (events ++ row ∷ [])
      ≡ false
is_latest-append [] row h = ground arith
is_latest-append (e ∷ events) row h = ground (arith, is_latest-append events row h.1, h.0)

abbrev pub untouched : EventRow → List LiveClaim → List LiveClaim
untouched row = select (λ (c : LiveClaim). not (is_run row && is_claim row c))

cons_option_lem :
    (row e : EventRow) (o : Option LiveClaim) (l : List LiveClaim)
    → ((c : LiveClaim) → o ≡ some c → IsOf e c)
    → cons_option (if is_run row && same_claim e row then none else o) (untouched row l)
      ≡ untouched row (cons_option o l)
cons_option_lem row e none l h = ground arith
cons_option_lem row e (some c) l h = rw (same_claim_lem e row c (h c refl)) (ground arith)

cons_option-append :
    (o : Option LiveClaim) (l m : List LiveClaim) → cons_option o (l ++ m) ≡ cons_option o l ++ m
cons_option-append none l m = refl
cons_option-append (some c) l m = refl

claim_at-IsOf :
    (events : List EventRow) (e : EventRow) (c : LiveClaim) → claim_at events e ≡ some c → IsOf e c
claim_at-IsOf events e c h = elim (Bool-cases (is_run e && is_latest events e)) [
  | inl latest ↦ claim_of-IsOf e e.repo e.issue e.phase c (rw latest at h)
  | inr stale ↦ let none_there : none ≡ some c = rw stale at h in absurd (cc none_there)
]

claims_among-append :
    (events : List EventRow) (row : EventRow) (rest : List EventRow)
    → All (λ (e : EventRow). e.id < row.id) rest
    → claims_among (events ++ row ∷ []) (rest ++ row ∷ [])
      ≡ untouched row (claims_among events rest)
        ++ cons_option (claim_at (events ++ row ∷ []) row) []
unfolding claims_among
claims_among-append events row [] h = refl
claims_among-append events row (e ∷ rest) h =
    rw (claim_at-append events row e h.0, claims_among-append events row rest h.1)
      (cons_option-append (if is_run row && same_claim e row then none else claim_at events e)
          (untouched row (claims_among events rest))
          (cons_option (claim_at (events ++ row ∷ []) row) [])
        ∙ ap (λ (l : List LiveClaim). l ++ cons_option (claim_at (events ++ row ∷ []) row) [])
            (cons_option_lem row e (claim_at events e) (claims_among events rest)
              (claim_at-IsOf events e)))

-- the claim that a Run event makes, if it is one and its phase is live
abbrev pub claim_made : EventRow → List LiveClaim
claim_made row =
    if is_run row then cons_option (claim_of row row.repo row.issue row.phase) [] else []

claim_at-made :
    (events : List EventRow) (row : EventRow)
    → All (λ (e : EventRow). e.id < row.id) events
    → cons_option (claim_at (events ++ row ∷ []) row) [] ≡ claim_made row
claim_at-made events row h = rw (is_latest-append events row h) (ground arith)

live_claims_lem :
    (event : Payload) (now : ℕ) (s : Store)
    → AreNumbered s
    → live_claims (record_event event now s)
      ≡ untouched (row_for event now s) (live_claims s) ++ claim_made (row_for event now s)
unfolding live_claims event_row
live_claims_lem event now s h = rw (events-record_event event now s) (
    claims_among-append s.events (row_for event now s) s.events h
    ∙ ap
        (λ (l : List LiveClaim).
          untouched (row_for event now s) (claims_among s.events s.events) ++ l)
        (claim_at-made s.events (row_for event now s) h))

module _ {A : Type 0} (test : A → Bool) where
  select-filter : (xs : List A) → select test xs ≡ filter (λ a. Bool-discrete (test a) true) xs
  select-filter [] = refl
  select-filter (x ∷ xs) = elim (Bool-cases (test x)) [
    | inl e ↦ rw e (ap (λ (l : List A). x ∷ l) (select-filter xs))
    | inr e ↦ rw e (select-filter xs)
  ]

  select-Perm : {xs ys : List A} → Perm xs ys → Perm (select test xs) (select test ys)
  select-Perm {xs} {ys} p =
      rw (select-filter xs, select-filter ys) (Perm.filter (λ a. Bool-discrete (test a) true) p)

-- Recording an event takes the claim of its (repo, issue) out of the live claims and puts in the
-- event's own, when it is a Run event of an issue and its phase is live; no other claim changes. It
-- holds in whatever orders the claims are read before and after. The ids of the events recorded so
-- far are below the counter.
pub live_claims-record_event :
    (event : Payload) (now : ℕ) (s : Store) (before after : List LiveClaim)
    → AreNumbered s
    → Perm before (live_claims s)
    → Perm after (live_claims (record_event event now s))
    → Perm after (untouched (row_for event now s) before ++ claim_made (row_for event now s))
unfolding event_row
live_claims-record_event event now s before after h p q =
    let row : EventRow = row_for event now s in
    Perm.trans {l₂ = untouched row (live_claims s) ++ claim_made row}
      (subst (λ (l : List LiveClaim). Perm after l) (live_claims_lem event now s h) q)
      (Perm.append_right (claim_made row)
        (Perm.symm (select-Perm (λ (c : LiveClaim). not (is_run row && is_claim row c)) p)))

next_event-retire :
    (r : Option String) (i : Option ℕ) (s : Store) → (retire r i s).next_event ≡ s.next_event
next_event-retire none i s = refl
next_event-retire (some r) none s = refl
next_event-retire (some r) (some i) s = refl

next_event-count_failure :
    (row : EventRow) (n : Option String) (now : ℕ) (s : Store)
    → (count_failure row n now s).next_event ≡ s.next_event
unfolding bump_failures reset_failures
next_event-count_failure row none now s = refl
next_event-count_failure row (some n) now s = ground arith

next_event-apply_run :
    (row : EventRow) (now : ℕ) (s : Store) → (apply_run row now s).next_event ≡ s.next_event
unfolding apply_run activate
next_event-apply_run row now s =
    next_event-count_failure row row.node now (activate row s)
    ∙ ground (arith, next_event-retire row.repo row.issue s)

next_event-record_event :
    (event : Payload) (now : ℕ) (s : Store)
    → (record_event event now s).next_event ≡ s.next_event + 1
unfolding record_event
next_event-record_event event now s =
    let row : EventRow = row_for event now s in
    elim (Bool-cases (row.type == event_run)) [
      | inl e ↦ rw e (next_event-apply_run row now (append_event row s))
      | inr e ↦ rw e refl
    ]

-- The ids stay below the counter, whatever event is recorded.
pub record_event-AreNumbered :
    (event : Payload) (now : ℕ) (s : Store) → AreNumbered s → AreNumbered (record_event event now s)
unfolding event_row
record_event-AreNumbered event now s h =
    rw (events-record_event event now s, next_event-record_event event now s)
      (All-append (λ (e : EventRow). e.id < s.next_event + 1) s.events (row_for event now s ∷ [])
        (All-mono (λ (e : EventRow). e.id < s.next_event)
          (λ (e : EventRow). e.id < s.next_event + 1) (λ e l. omega (arith, l)) s.events h)
        (omega arith, tt))
