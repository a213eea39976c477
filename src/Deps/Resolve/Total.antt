-- ===== src/Deps/Resolve/Total.antt =====
-- deps.py: the walk down the chain ends, and its lookups succeed.
use the_ozolith.Common.{
  ℕ, zero, suc, ◌+◌, ◌≤◌, ◌≡◌, refl, ap, subst, ◌≢◌, inl, inr, true, false, not, ◌&&◌, none, some,
  List, [], ◌∷◌, ◌++◌, map, arith, Bool-cases, Option-cases, is_some, length, length-append, All,
  All-append, ◌==◌, nat_eq, string_eq, pair_eq, triple_eq, list_eq, ==_refl, contains,
  contains-append,
}
use the_ozolith.Common.Table.{Table, find}
use the_ozolith.Common.Pigeonhole.{Unique, Unique-append, length-Unique-le, append_one}
use the_ozolith.Common.Exec.{ok}
use the_ozolith.Deps.{Ref, PullRequest, Error, ChainDecision, refusal, wait}
use the_ozolith.Deps.Branch.{branch_for}
use the_ozolith.Deps.Resolve.{
  branch_of, outside, base_of, tips, Descent, down, looped, descend, chained_on, of_descent,
  of_tips, chain_decision, outside_reason, parallel,
}

abbrev numbers : Table ℕ PullRequest → List ℕ
numbers [] = []
numbers ((n, pr) ∷ prs) = n ∷ numbers prs

length-numbers : (prs : Table ℕ PullRequest) → length (numbers prs) ≡ length prs
length-numbers [] = refl
length-numbers ((n, pr) ∷ prs) = ap suc (length-numbers prs)

-- A number of the table is found.
find-numbers :
    (prs : Table ℕ PullRequest) (n : ℕ)
    → contains (numbers prs) n ≡ true
    → is_some (find n prs) ≡ true
unfolding find
find-numbers [] n h = h
find-numbers ((m, pr) ∷ prs) n h = ground (arith, find-numbers prs n)

branch_of-numbers :
    (prs : Table ℕ PullRequest) (ref : Ref) (n : ℕ)
    → branch_of prs ref ≡ some n
    → contains (numbers prs) n ≡ true
unfolding branch_of
branch_of-numbers [] ref n h = absurd (cc h)
branch_of-numbers ((m, pr) ∷ prs) ref n h = elim (Bool-cases (branch_for m == ref)) [
  | inl same ↦
      let this : some m ≡ some n = rw same at h in
      let number : m ≡ n = cc in rw (number, ==_refl n) refl
  | inr other ↦ ground (arith, branch_of-numbers prs ref n (rw other at h))
]

-- the base is the default branch or a blocker's
abbrev IsInside : Ref → Table ℕ PullRequest → PullRequest → Type 0
IsInside default prs pr =
    (pr.base_ref == default) ≡ false → is_some (branch_of prs pr.base_ref) ≡ true

inside_lem :
    (default : Ref) (all prs : Table ℕ PullRequest) (n : ℕ) (pr : PullRequest)
    → outside default all prs ≡ none
    → find n prs ≡ some pr
    → IsInside default all pr
unfolding outside find
inside_lem default all [] n pr h e = absurd (cc e)
inside_lem default all ((m, p) ∷ prs) n pr h e =
    elim (Bool-cases (not (p.base_ref == default) && not (is_some (branch_of all p.base_ref)))) [
      | inl out ↦ (let found = rw out at h in absurd (cc found))
      | inr inside ↦ elim (Bool-cases (m == n)) [
        | inl same ↦
            let this : some p ≡ some pr = rw same at e in
            let pull : p ≡ pr = cc in
            subst (IsInside default all) pull (λ away. ground (arith, inside, away))
        | inr other ↦ inside_lem default all prs n pr (rw inside at h) (rw other at e)
      ]
    ]

module _ (prs : Table ℕ PullRequest) (default : Ref)
    (none_outside : outside default prs prs ≡ none) where
  descend_total :
      (fuel : ℕ) (chain : List ℕ) (last : ℕ)
      → Unique chain
      → All (λ (n : ℕ). contains (numbers prs) n ≡ true) chain
      → contains (numbers prs) last ≡ true
      → suc (length prs) ≤ fuel + length chain
      → (e : Error) → descend fuel prs default chain last ≢ Descent.failed e
  unfolding descend
  descend_total zero chain last u known here enough e h =
      omega (arith, length-Unique-le chain (numbers prs) u known, length-numbers prs, enough)
  descend_total (suc fuel) chain last u known here enough e h =
      elim (Option-cases (find last prs)) [
        | inl missing ↦
            (let found = rw missing at (find-numbers prs last here) in absurd (cc found))
        | inr (pr, found) ↦ elim (Bool-cases (pr.base_ref == default)) [
          | inl rooted ↦ (let stuck = rw (found, rooted, descend) at h in absurd (cc stuck))
          | inr above ↦ elim (Option-cases (branch_of prs pr.base_ref)) [
            | inl none_there ↦
                (let some_there =
                    rw none_there at
                      (inside_lem default prs prs last pr none_outside found above) in
                  absurd (cc some_there))
            | inr (nxt, next_found) ↦ elim (Bool-cases (contains chain nxt)) [
              | inl loop ↦
                  (let stuck = rw (found, above, next_found, loop, descend) at h in
                    absurd (cc stuck))
              | inr new ↦
                  descend_total fuel (chain ++ nxt ∷ []) nxt (Unique-append chain nxt u new)
                    (All-append (λ (n : ℕ). contains (numbers prs) n ≡ true) chain (nxt ∷ []) known
                      (branch_of-numbers prs pr.base_ref nxt next_found, tt))
                    (branch_of-numbers prs pr.base_ref nxt next_found)
                    (omega (arith, enough, length-append chain (nxt ∷ []))) e
                    (rw (found, above, next_found, new, descend) at h)
            ]
          ]
        ]
      ]

  of_descent_total :
      (tip : ℕ) (d : Descent)
      → ((e : Error) → d ≢ Descent.failed e)
      → (r : ChainDecision) × (of_descent prs tip d ≡ ok r)
  of_descent_total tip (down chain) k = elim (Bool-cases (length chain == length prs)) [
    | inl covers ↦ (chained_on tip, rw covers refl)
    | inr short ↦ (parallel, rw short refl)
  ]
  of_descent_total tip looped k = (parallel, refl)
  of_descent_total tip (Descent.failed e) k = absurd (k e refl)

  of_tips_total :
      (ts : List ℕ)
      → All (λ (n : ℕ). contains (numbers prs) n ≡ true) ts
      → (r : ChainDecision) × (of_tips prs default ts ≡ ok r)
  of_tips_total [] known = (parallel, refl)
  of_tips_total (tip ∷ []) known =
      of_descent_total tip (descend (suc (length prs)) prs default (tip ∷ []) tip)
        (descend_total (suc (length prs)) (tip ∷ []) tip (refl, tt) known known.0 (omega arith))
  of_tips_total (t ∷ u ∷ ts) known = (parallel, refl)

-- the tips are numbers of the table
tips-numbers :
    (all prs : Table ℕ PullRequest) (ms : List ℕ)
    → All (λ (n : ℕ). contains ms n ≡ true) (numbers prs)
    → All (λ (n : ℕ). contains ms n ≡ true) (tips all prs)
unfolding tips
tips-numbers all [] ms h = tt
tips-numbers all ((n, pr) ∷ prs) ms h =
    elim (Bool-cases (contains (map base_of all) (branch_for n))) [
      | inl based ↦ rw based (tips-numbers all prs ms h.1)
      | inr tip ↦ rw tip (h.0, tips-numbers all prs ms h.1)
    ]

contains-itself : (before ns : List ℕ) → All (λ (n : ℕ). contains (before ++ ns) n ≡ true) ns
contains-itself before [] = tt
contains-itself before (n ∷ ns) = (
  rw (contains-append before (n ∷ ns) n, ==_refl n) (ground arith),
  subst (λ (l : List ℕ). All (λ (m : ℕ). contains l m ≡ true) ns) (append_one before n ns)
      (contains-itself (before ++ n ∷ []) ns),
)

-- The check of the chain always comes to a decision: the loop down the bases ends within the fuel, and
-- no lookup in it misses, whatever pull requests the open blockers have and whatever they target.
pub chain_decision-total :
    (default : Ref) (prs : Table ℕ PullRequest)
    → (r : ChainDecision) × (chain_decision default prs ≡ ok r)
unfolding chain_decision
chain_decision-total default prs = elim (Option-cases (outside default prs prs)) [
  | inl inside ↦
      let made =
        of_tips_total prs default inside (tips prs prs)
          (tips-numbers prs prs (numbers prs) (contains-itself [] (numbers prs))) in
      (made.0, rw (inside, chain_decision) made.1)
  | inr (at, out) ↦ (refusal wait (outside_reason at), rw (out, chain_decision) refl)
]
