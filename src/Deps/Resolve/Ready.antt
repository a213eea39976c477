-- ===== src/Deps/Resolve/Ready.antt =====
-- deps.py: what a READY decision rests on.
use the_ozolith.Common.{
  ℕ, suc, ◌≡◌, refl, sym, ap, ◌∙◌, ◌≢◌, ◌⊎◌, inl, inr, true, Option, none, some, List, [], ◌∷◌,
  Bool-cases, Option-cases, length, All, ◌==◌, nat_eq, string_eq, pair_eq, triple_eq, list_eq,
}
use the_ozolith.Common.Table.{Table, find}
use the_ozolith.Common.Exec.{Result, ok, err, Exec, pure, raise, bind-elim}
use the_ozolith.Deps.{
  Ref, Issue, PullRequest, Error, ready, wait, malformed, DependencyClosure, ChainDecision, refusal,
}
use the_ozolith.Deps.Resolve.{
  Scan, opens, also_open, scan_found, scan_blockers, not_completed, Approvals, approved, ready_on,
  of_approvals, chained_on, parallel, outside, outside_reason, tips, Descent, down, looped, descend,
  of_descent, of_tips, chain_decision, dependent_of, resolve_scan, resolve,
}

-- the blocker is closed as completed
abbrev pub IsCompleted : Table ℕ Issue → ℕ → Type 0
IsCompleted issues n =
    (b : Issue) × (find n issues ≡ some b)
    × ((b.state == "closed") ≡ true)
    × ((b.state_reason == "completed") ≡ true)

abbrev pub IsSatisfied : ℕ → Table ℕ Issue → ℕ → Type 0
IsSatisfied dependent issues n = ((n == dependent) ≡ true) ⊎ IsCompleted issues n

module _ (dependent : ℕ) (issues : Table ℕ Issue) where
  also_lem : {A : Type 0} (b : Issue) (r : Result Error Scan) → also_open b r ≡ ok (opens []) → A
  also_lem b (ok (opens bs)) h = absurd (cc h)
  also_lem b (ok (Scan.refused d)) h = absurd (cc h)
  also_lem b (err e) h = absurd (cc h)

  found_lem :
      (n : ℕ) (o : Option Issue) (r : Result Error Scan)
      → find n issues ≡ o
      → scan_found n o r ≡ ok (opens [])
      → IsCompleted issues n × (r ≡ ok (opens []))
  found_lem n none r e h = absurd (cc h)
  found_lem n (some b) r e h = elim (Bool-cases (b.state == "closed")) [
    | inl closed ↦ elim (Bool-cases (b.state_reason == "completed")) [
      | inl done ↦ ((b, e, closed, done), rw (closed, done) at h)
      | inr other ↦ (let stopped = rw (closed, other) at h in absurd (cc stopped))
    ]
    | inr open_still ↦ also_lem b r (rw open_still at h)
  ]

  scan_lem :
      (ns : List ℕ)
      → scan_blockers dependent issues ns ≡ ok (opens [])
      → All (IsSatisfied dependent issues) ns
  unfolding scan_blockers
  scan_lem [] h = tt
  scan_lem (n ∷ ns) h = elim (Bool-cases (n == dependent)) [
    | inl itself ↦ (inl itself, scan_lem ns (rw itself at h))
    | inr other ↦
        let found =
          found_lem n (find n issues) (scan_blockers dependent issues ns) refl (rw other at h) in
        (inr found.0, scan_lem ns found.1)
  ]

-- a decision that bases nothing on the default branch
abbrev IsHeld : Result Error ChainDecision → Type 0
IsHeld r = (d : ChainDecision) → r ≡ ok d → d.kind ≢ ready

held_lem : (c : ChainDecision) → c.kind ≢ ready → IsHeld (ok c)
held_lem c k d e r = let same : c ≡ d = cc in k (ap (λ (x : ChainDecision). x.kind) same ∙ r)

of_descent-IsHeld :
    (prs : Table ℕ PullRequest) (tip : ℕ) (d : Descent) → IsHeld (of_descent prs tip d)
of_descent-IsHeld prs tip (down chain) = elim (Bool-cases (length chain == length prs)) [
  | inl covers ↦ rw covers (held_lem (chained_on tip) (λ e. absurd (cc e)))
  | inr short ↦ rw short (held_lem parallel (λ e. absurd (cc e)))
]
of_descent-IsHeld prs tip looped = held_lem parallel (λ e. absurd (cc e))
of_descent-IsHeld prs tip (Descent.failed e) = λ d h. absurd (cc h)

of_tips-IsHeld :
    (prs : Table ℕ PullRequest) (default : Ref) (ts : List ℕ) → IsHeld (of_tips prs default ts)
of_tips-IsHeld prs default [] = held_lem parallel (λ e. absurd (cc e))
of_tips-IsHeld prs default (tip ∷ []) =
    of_descent-IsHeld prs tip (descend (suc (length prs)) prs default (tip ∷ []) tip)
of_tips-IsHeld prs default (t ∷ u ∷ ts) = held_lem parallel (λ e. absurd (cc e))

of_approvals-IsHeld : (default : Ref) (a : Approvals) → IsHeld (of_approvals default a)
unfolding chain_decision
of_approvals-IsHeld default (Approvals.waiting m) = held_lem (refusal wait m) (λ e. absurd (cc e))
of_approvals-IsHeld default (approved prs) = elim (Option-cases (outside default prs prs)) [
  | inl inside ↦ rw (inside, chain_decision) (of_tips-IsHeld prs default (tips prs prs))
  | inr (at, out) ↦
      rw (out, chain_decision) (held_lem (refusal wait (outside_reason at)) (λ e. absurd (cc e)))
]

module _ (dependent : ℕ) (issues : Table ℕ Issue) where
  also_refused :
      (b : Issue) (r : Result Error Scan) (d : ChainDecision)
      → also_open b r ≡ ok (Scan.refused d)
      → r ≡ ok (Scan.refused d)
  also_refused b (ok (opens bs)) d h = absurd (cc h)
  also_refused b (ok (Scan.refused c)) d h = h
  also_refused b (err e) d h = absurd (cc h)

  found_refused :
      (n : ℕ) (o : Option Issue) (r : Result Error Scan) (d : ChainDecision)
      → scan_found n o r ≡ ok (Scan.refused d)
      → (d.kind ≡ malformed) ⊎ (r ≡ ok (Scan.refused d))
  found_refused n none r d h = absurd (cc h)
  found_refused n (some b) r d h = elim (Bool-cases (b.state == "closed")) [
    | inl closed ↦ elim (Bool-cases (b.state_reason == "completed")) [
      | inl done ↦ inr (rw (closed, done) at h)
      | inr other ↦
          let stopped : ◌≡◌ {A = Result Error Scan}
              (ok (Scan.refused (refusal malformed (not_completed b)))) (ok (Scan.refused d)) =
            rw (closed, other) at h in
          let same : refusal malformed (not_completed b) ≡ d = cc in
          inl (sym (ap (λ (x : ChainDecision). x.kind) same))
    ]
    | inr open_still ↦ inr (also_refused b r d (rw open_still at h))
  ]

  refused_lem :
      (ns : List ℕ) (d : ChainDecision)
      → scan_blockers dependent issues ns ≡ ok (Scan.refused d)
      → d.kind ≡ malformed
  unfolding scan_blockers
  refused_lem [] d h = absurd (cc h)
  refused_lem (n ∷ ns) d h = elim (Bool-cases (n == dependent)) [
    | inl itself ↦ refused_lem ns d (rw itself at h)
    | inr other ↦
        elim (found_refused n (find n issues) (scan_blockers dependent issues ns) d
          (rw other at h)) [ inl here ↦ here | inr deeper ↦ refused_lem ns d deeper ]
  ]

module _ {S : Type 0} (find_pr : Ref → Exec Error S (Option PullRequest))
    (closure : DependencyClosure) (default : Ref) where
  abbrev dependent : ℕ
  dependent = dependent_of closure

  made_lem :
      (c d : ChainDecision) (s s' : S)
      → ◌≡◌ {A = Result Error ChainDecision × S} (ok c, s) (ok d, s')
      → c ≡ d
  made_lem c d s s' h = cc

  scanned_lem :
      (r : Result Error Scan) (d : ChainDecision) (s s' : S)
      → scan_blockers dependent closure.issues closure.order ≡ r
      → resolve_scan find_pr default r s ≡ (ok d, s')
      → d.kind ≡ ready
      → (d ≡ ready_on default) × All (IsSatisfied dependent closure.issues) closure.order
  unfolding pure raise
  scanned_lem (err e) d s s' scan h k =
      absurd (cc (ap (λ (r : Result Error ChainDecision × S). r.0) h))
  scanned_lem (ok (Scan.refused c)) d s s' scan h k =
      let same : c ≡ d = made_lem c d s s' h in
      let bad : malformed ≡ ready =
        sym (refused_lem dependent closure.issues closure.order c scan)
        ∙ ap (λ (x : ChainDecision). x.kind) same
        ∙ k in
      absurd (cc bad)
  scanned_lem (ok (opens [])) d s s' scan h k = (
    sym (made_lem (ready_on default) d s s' h),
    scan_lem dependent closure.issues closure.order scan,
  )
  scanned_lem (ok (opens (b ∷ bs))) d s s' scan h k = bind-elim _ _ s h (λ a u e g.
      absurd
        (of_approvals-IsHeld default a d (ap (λ (r : Result Error ChainDecision × S). r.0) g) k))

  -- A dependent is READY only when every other issue of its closure was closed as completed; it is then
  -- based on the default branch.
  pub resolve-IsSatisfied :
      (d : ChainDecision) (s s' : S)
      → resolve find_pr closure default s ≡ (ok d, s')
      → d.kind ≡ ready
      → (d ≡ ready_on default) × All (IsSatisfied dependent closure.issues) closure.order
  unfolding resolve
  resolve-IsSatisfied d s s' h k =
      scanned_lem (scan_blockers dependent closure.issues closure.order) d s s' refl h k
