-- ===== src/Deps/Resolve/Kept.antt =====
-- deps.py: `resolve` does to the state of its reads what the reads do.
use the_ozolith.Common.{
  ℕ, inl, inr, Option, none, some, List, [], ◌∷◌, Bool-cases, nat_eq, string_eq, pair_eq, triple_eq,
  list_eq,
}
use the_ozolith.Common.Table.{Table, put}
use the_ozolith.Common.Exec.{Result, ok, err, Exec, pure, raise}
use the_ozolith.Common.Keeps.{Preorder, Keeps, Keeps-bind}
use the_ozolith.Deps.{Ref, Issue, PullRequest, Error, DependencyClosure}
use the_ozolith.Deps.Branch.{branch_for}
use the_ozolith.Deps.Resolve.{
  Scan, refused, opens, scan_blockers, is_approved, Approvals, approve, approvals, dependent_of,
  resolve_scan, resolve,
}

module _ {S : Type 0} (R : Preorder S) (find_pr : Ref → Exec Error S (Option PullRequest))
    (reads : (head : Ref) → Keeps R (find_pr head)) where
  Keeps-approve :
      (n : ℕ) (pr : Option PullRequest) (next : Table ℕ PullRequest → Exec Error S Approvals)
      (prs : Table ℕ PullRequest)
      → ((t : Table ℕ PullRequest) → Keeps R (next t))
      → Keeps R (approve find_pr n pr next prs)
  Keeps-approve n none next prs k s = R.same s
  Keeps-approve n (some pr) next prs k s = elim (Bool-cases (is_approved pr)) [
    | inl e ↦ rw e (k (put n pr prs) s)
    | inr e ↦ rw e (R.same s)
  ]

  Keeps-approvals :
      (bs : List Issue) (prs : Table ℕ PullRequest) → Keeps R (approvals find_pr bs prs)
  unfolding approvals pure
  Keeps-approvals [] prs = λ s. R.same s
  Keeps-approvals (b ∷ bs) prs =
      Keeps-bind R (find_pr (branch_for b.number)) _ (reads (branch_for b.number))
        (λ pr. Keeps-approve b.number pr (approvals find_pr bs) prs (Keeps-approvals bs))

  Keeps-resolve_scan :
      (default : Ref) (r : Result Error Scan) → Keeps R (resolve_scan find_pr default r)
  unfolding pure raise
  Keeps-resolve_scan default (err e) = λ s. R.same s
  Keeps-resolve_scan default (ok (refused d)) = λ s. R.same s
  Keeps-resolve_scan default (ok (opens [])) = λ s. R.same s
  Keeps-resolve_scan default (ok (opens (b ∷ bs))) =
      Keeps-bind R (approvals find_pr (b ∷ bs) []) _ (Keeps-approvals (b ∷ bs) []) (λ a s. R.same s)

  pub Keeps-resolve :
      (closure : DependencyClosure) (default : Ref) → Keeps R (resolve find_pr closure default)
  unfolding resolve
  Keeps-resolve closure default =
      Keeps-resolve_scan default (scan_blockers (dependent_of closure) closure.issues closure.order)
