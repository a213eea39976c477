-- ===== src/Deps/Tests.antt =====
-- The walk and the resolution at concrete graphs.
use the_ozolith.Common.{
  ℕ, ◌≡◌, refl, ◌↔◌, true, false, ◌||◌, Option, none, some, List, [], ◌∷◌, arith, if◌then◌else◌,
  last?, All, ◌==◌, nat_eq, string_eq, pair_eq, triple_eq, list_eq,
}
use the_ozolith.Common.Table.{Table, find, put}
use the_ozolith.Common.Exec.{ok, err, Exec, pure, ◌>>=◌}
use the_ozolith.Common.Order.{order_by}
use the_ozolith.Common.Decimal.{decimal}
use the_ozolith.Deps.Resolve.{chain_decision, chained_on, tips}
use the_ozolith.Deps.Resolve.Chain.{IsChain, chain_decision-IsChain}
use the_ozolith.Deps.{Ref, Issue, PullRequest, Error, cycle, cross_repo, DependencyClosure}
use the_ozolith.Deps.Walk.{from_current, note_blockers, pop, visit_all, expand, visit, walk_closure}
use the_ozolith.Deps.Walk.Visited.{Topological}
use the_ozolith.Deps.Branch.{branch_for, issue_for_branch, issue_for_branch-branch_for}
use the_ozolith.Deps.{ChainDecision}
use the_ozolith.Deps.Resolve.Total.{chain_decision-total}
use the_ozolith.Deps.{RepoMergeSettings}
use the_ozolith.Deps.Preconditions.{chain_preconditions, chain_preconditions_iff}
use the_ozolith.Deps.Resolve.{resolve, ready_on, scan_blockers}
use the_ozolith.Deps.Resolve.Ready.{IsSatisfied, resolve-IsSatisfied}
use the_ozolith.Deps.Walk.Ends.{Answered, IsFueled, walk_closure-IsFueled}
use the_ozolith.Deps.Walk.Order.{walk_closure-Topological}

abbrev open_issue : ℕ → Issue
open_issue n = record {
  number = n;
  title = "";
  body = "";
  labels = [];
  assignees = [];
  is_pr = false;
  state = "open";
  state_reason = "";
  repo = "o/r";
}

-- a diamond: 4 is blocked by 3 and 2, and both by 1
abbrev diamond : ℕ → Exec Error (Unit {0}) (List Issue)
diamond n s =
    if n == 4
    then (ok (open_issue 3 ∷ open_issue 2 ∷ []), s)
    else if n == 3 || n == 2
    then (ok (open_issue 1 ∷ []), s)
    else (ok [], s)

abbrev diamond_closure : DependencyClosure
diamond_closure = record {
  order = 1 ∷ 2 ∷ 3 ∷ 4 ∷ [];
  edges = (4, 2 ∷ 3 ∷ []) ∷ (2, 1 ∷ []) ∷ (1, []) ∷ (3, 1 ∷ []) ∷ [];
  issues = (2, open_issue 2) ∷ (3, open_issue 3) ∷ (1, open_issue 1) ∷ [];
}

diamond_walk : walk_closure "o/r" diamond 5 4 tt ≡ (ok diamond_closure, tt)
unfolding ◌>>=◌ walk_closure visit visit_all expand note_blockers pop order_by put find
diamond_walk = refl

walk_closure-Topological_example :
    Topological diamond_closure.edges [] diamond_closure.order
    × (last? diamond_closure.order ≡ some 4)
walk_closure-Topological_example =
    walk_closure-Topological "o/r" diamond 5 4 tt tt diamond_closure diamond_walk

-- 1 and 2 block one another
abbrev knot : ℕ → Exec Error (Unit {0}) (List Issue)
knot n s = (ok (open_issue (if n == 1 then 2 else 1) ∷ []), s)

knot_cycle : (walk_closure "o/r" knot 5 3 tt).0 ≡ err (cycle (1 ∷ 2 ∷ 1 ∷ []))
unfolding ◌>>=◌ walk_closure visit visit_all expand note_blockers order_by put find from_current
knot_cycle = refl

foreign_edge : (walk_closure "o/other" knot 5 3 tt).0 ≡ err (cross_repo 3 "o/r")
unfolding ◌>>=◌ walk_closure visit visit_all expand note_blockers order_by put find
foreign_edge = refl

issue_for_branch_example : issue_for_branch (branch_for 42) ≡ some 42
issue_for_branch_example = issue_for_branch-branch_for 42

-- 3 is based on 2, and 2 on the default branch
abbrev main : Ref
main = 109 ∷ []

abbrev pull : ℕ → Ref → PullRequest
pull n base = record {
  number = n;
  title = "";
  body = "";
  head_ref = [];
  head_sha = "";
  base_ref = base;
  labels = [];
  state = "open";
  merged = false;
  merge_commit_sha = "";
}

abbrev two_linked : Table ℕ PullRequest
two_linked = (2, pull 20 main) ∷ (3, pull 30 (branch_for 2)) ∷ []

two_chained : chain_decision main two_linked ≡ ok (chained_on 3)
unfolding chain_decision find branch_for decimal
two_chained = refl

chain_decision-IsChain_example :
    (tip : ℕ) × (tips two_linked two_linked ≡ tip ∷ [])
    × (chained_on 3 ≡ chained_on tip)
    × IsChain two_linked main tip
chain_decision-IsChain_example =
    chain_decision-IsChain two_linked main (chained_on 3) two_chained refl

-- whatever is asked, the answers are the issues 1 and 2
knot_answers : (n : ℕ) (s : Unit {0}) → Answered "o/r" knot (1 ∷ 2 ∷ []) (knot n s).0
knot_answers n s = ground arith

walk_closure-IsFueled_example : IsFueled (walk_closure "o/r" knot 3 1 tt).0
walk_closure-IsFueled_example = walk_closure-IsFueled "o/r" knot (1 ∷ 2 ∷ []) knot_answers 1 tt refl

chain_decision-total_example : (r : ChainDecision) × (chain_decision main two_linked ≡ ok r)
chain_decision-total_example = chain_decision-total main two_linked

abbrev squashing : RepoMergeSettings
squashing = record {
  merge_commit_allowed = true;
  squash_allowed = true;
  rebase_allowed = false;
  delete_branch_on_merge = true;
  complete = true;
}

chain_preconditions_iff_example : (chain_preconditions squashing ≡ none) ↔ (false ≡ true)
chain_preconditions_iff_example = chain_preconditions_iff squashing

-- 3 waited for 1, which was completed
abbrev completed_closure : DependencyClosure
completed_closure = record {
  order = 1 ∷ 3 ∷ [];
  edges = (3, 1 ∷ []) ∷ (1, []) ∷ [];
  issues = (1, record (open_issue 1) { state = "closed"; state_reason = "completed" }) ∷ [];
}

abbrev no_pr : Ref → Exec Error (Unit {0}) (Option PullRequest)
no_pr head s = (ok none, s)

ready_run : resolve no_pr completed_closure main tt ≡ (ok (ready_on main), tt)
unfolding resolve scan_blockers find pure
ready_run = refl

resolve-IsSatisfied_example :
    (ready_on main ≡ ready_on main)
    × All (IsSatisfied 3 completed_closure.issues) completed_closure.order
resolve-IsSatisfied_example =
    resolve-IsSatisfied no_pr completed_closure main (ready_on main) tt tt ready_run refl
