-- ===== src/Deps/Resolve/Chain.antt =====
-- deps.py: what a CHAINED decision rests on.
use the_ozolith.Common.{
  ℕ, zero, suc, ◌≡◌, refl, sym, ap, subst, ◌∙◌, inl, inr, some, List, [], ◌∷◌, ◌++◌, Bool-cases,
  Option-cases, length, append_nil, ◌==◌, nat_eq, string_eq, pair_eq, triple_eq, list_eq, ==_true,
  contains,
}
use the_ozolith.Common.Table.{Table, find}
use the_ozolith.Common.Message.{Message}
use the_ozolith.Common.Pigeonhole.{Unique, Unique-append, append_one}
use the_ozolith.Common.Exec.{Result, ok}
use the_ozolith.Deps.{Ref, PullRequest, Error, chained, wait, ChainDecision, refusal}
use the_ozolith.Deps.Branch.{branch_for}
use the_ozolith.Deps.Resolve.{
  branch_of, outside, tips, Descent, down, looped, descend, chained_on, of_descent, of_tips,
  chain_decision, outside_reason, parallel,
}

branch_of-branch_for :
    (prs : Table ℕ PullRequest) (ref : Ref) (n : ℕ)
    → branch_of prs ref ≡ some n
    → ref ≡ branch_for n
unfolding branch_of
branch_of-branch_for [] ref n h = absurd (cc h)
branch_of-branch_for ((m, pr) ∷ prs) ref n h = elim (Bool-cases (branch_for m == ref)) [
  | inl same ↦
      let this : some m ≡ some n = rw same at h in
      let number : m ≡ n = cc in sym (==_true (branch_for m) ref same) ∙ ap branch_for number
  | inr other ↦ branch_of-branch_for prs ref n (rw other at h)
]

module _ (prs : Table ℕ PullRequest) (default : Ref) where
  -- the PR of each issue targets the branch of the next, and that of the last the default branch
  abbrev pub Linked : ℕ → List ℕ → Type 0
  Linked n [] = (pr : PullRequest) × (find n prs ≡ some pr) × (pr.base_ref ≡ default)
  Linked n (m ∷ ms) =
      ((pr : PullRequest) × (find n prs ≡ some pr) × (pr.base_ref ≡ branch_for m)) × Linked m ms

  abbrev pub Descended : List ℕ → ℕ → List ℕ → Type 0
  Descended chain last out = (rest : List ℕ) × (out ≡ chain ++ rest) × Linked last rest × Unique out

  extend_lem :
      (chain : List ℕ) (last nxt : ℕ) (out : List ℕ) (pr : PullRequest)
      → find last prs ≡ some pr
      → pr.base_ref ≡ branch_for nxt
      → Descended (chain ++ nxt ∷ []) nxt out
      → Descended chain last out
  extend_lem chain last nxt out pr found next (rest, e, linked, unique) =
      (nxt ∷ rest, e ∙ append_one chain nxt rest, ((pr, found, next), linked), unique)

  descend_lem :
      (fuel : ℕ) (chain : List ℕ) (last : ℕ) (out : List ℕ)
      → Unique chain
      → descend fuel prs default chain last ≡ down out
      → Descended chain last out
  unfolding descend
  descend_lem zero chain last out u h = absurd (cc h)
  descend_lem (suc fuel) chain last out u h = elim (Option-cases (find last prs)) [
    | inl missing ↦ (let stuck = rw (missing, descend) at h in absurd (cc stuck))
    | inr (pr, found) ↦ elim (Bool-cases (pr.base_ref == default)) [
      | inl rooted ↦
          (let done : down chain ≡ down out = rw (found, rooted, descend) at h in
            let same : chain ≡ out = cc in
            (
              [],
              sym same ∙ sym (append_nil chain),
              (pr, found, ==_true pr.base_ref default rooted),
              subst Unique same u,
            ))
      | inr above ↦ elim (Option-cases (branch_of prs pr.base_ref)) [
        | inl none_there ↦
            (let stuck = rw (found, above, none_there, descend) at h in absurd (cc stuck))
        | inr (nxt, next_found) ↦ elim (Bool-cases (contains chain nxt)) [
          | inl loop ↦
              (let stuck = rw (found, above, next_found, loop, descend) at h in absurd (cc stuck))
          | inr new ↦
              (let deeper : descend fuel prs default (chain ++ nxt ∷ []) nxt ≡ down out =
                  rw (found, above, next_found, new, descend) at h in
                extend_lem chain last nxt out pr found
                  (branch_of-branch_for prs pr.base_ref nxt next_found)
                  (descend_lem fuel (chain ++ nxt ∷ []) nxt out (Unique-append chain nxt u new)
                    deeper))
        ]
      ]
    ]
  ]

  -- one chain, from the tip down to the default branch, of as many issues as have a pull request
  abbrev pub IsChain : ℕ → Type 0
  IsChain tip =
      (rest : List ℕ) × Linked tip rest × Unique (tip ∷ rest) × (length (tip ∷ rest) ≡ length prs)

  waits_lem :
      {A : Type 0} {m : Message} (r : ChainDecision)
      → ◌≡◌ {A = Result Error ChainDecision} (ok (refusal wait m)) (ok r)
      → r.kind ≡ chained
      → A
  waits_lem {m = m} r h c =
      let same : refusal wait m ≡ r = cc in
      let waiting : wait ≡ chained = ap (λ (d : ChainDecision). d.kind) same ∙ c in
      absurd (cc waiting)

  covered_lem :
      (tip : ℕ) (out : List ℕ) (r : ChainDecision)
      → ◌≡◌ {A = Result Error ChainDecision} (ok (chained_on tip)) (ok r)
      → length out ≡ length prs
      → Descended (tip ∷ []) tip out
      → (r ≡ chained_on tip) × IsChain tip
  covered_lem tip out r made covers (rest, e, linked, unique) =
      let same : chained_on tip ≡ r = cc in
      (sym same, (rest, linked, subst Unique e unique, ap length (sym e) ∙ covers))

  of_descent_lem :
      (tip : ℕ) (d : Descent) (r : ChainDecision)
      → ((out : List ℕ) → d ≡ down out → Descended (tip ∷ []) tip out)
      → of_descent prs tip d ≡ ok r
      → r.kind ≡ chained
      → (r ≡ chained_on tip) × IsChain tip
  of_descent_lem tip (down out) r k h c = elim (Bool-cases (length out == length prs)) [
    | inl covers ↦
        let made : ok (chained_on tip) ≡ ok r = rw covers at h in
        covered_lem tip out r made (==_true (length out) (length prs) covers) (k out refl)
    | inr short ↦ (let waits : ok parallel ≡ ok r = rw short at h in waits_lem r waits c)
  ]
  of_descent_lem tip looped r k h c = waits_lem r h c
  of_descent_lem tip (Descent.failed e) r k h c = absurd (cc h)

  of_tips_lem :
      (ts : List ℕ) (r : ChainDecision)
      → of_tips prs default ts ≡ ok r
      → r.kind ≡ chained
      → (tip : ℕ) × (ts ≡ tip ∷ []) × (r ≡ chained_on tip) × IsChain tip
  of_tips_lem [] r h c = waits_lem r h c
  of_tips_lem (tip ∷ []) r h c =
      let found =
        of_descent_lem tip (descend (suc (length prs)) prs default (tip ∷ []) tip) r
          (λ out e. descend_lem (suc (length prs)) (tip ∷ []) tip out (refl, tt) e) h c in
      (tip, refl, found.0, found.1)
  of_tips_lem (t ∷ u ∷ ts) r h c = waits_lem r h c

  -- A dependent is chained only on the tip of one chain: the pull requests of the open blockers, linked
  -- by their base branches, lead from the tip down to the default branch, no blocker stands in the
  -- chain twice, it is as long as there are open blockers, and no other blocker is a tip.
  pub chain_decision-IsChain :
      (r : ChainDecision)
      → chain_decision default prs ≡ ok r
      → r.kind ≡ chained
      → (tip : ℕ) × (tips prs prs ≡ tip ∷ []) × (r ≡ chained_on tip) × IsChain tip
  unfolding chain_decision
  chain_decision-IsChain r h c = elim (Option-cases (outside default prs prs)) [
    | inl inside ↦ of_tips_lem (tips prs prs) r (rw (inside, chain_decision) at h) c
    | inr (at, out) ↦
        (let waits : ok (refusal wait (outside_reason at)) ≡ ok r = rw (out, chain_decision) at h in
          waits_lem r waits c)
  ]
