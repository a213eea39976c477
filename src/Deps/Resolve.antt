-- ===== src/Deps/Resolve.antt =====
-- deps.py: what a closure resolves to, the Chained Base go-ahead, and its preconditions.
pub mod Kept
pub mod Chain
pub mod Total
pub mod Ready
use the_ozolith.Common.Exec.{Result, ok, err, Exec, pure, raise, ◌>>=◌}
use the_ozolith.Common.{
  ℕ, zero, suc, String, Bool, true, false, not, ◌&&◌, Option, none, some, List, [], ◌∷◌, ◌++◌, map,
  if◌then◌else◌, is_some, length, last?, ◌==◌, nat_eq, string_eq, pair_eq, triple_eq, list_eq,
  contains,
}
use the_ozolith.Common.Table.{Table, find, put}
use the_ozolith.Common.Message.{Message, Piece, lit, num, say}
use the_ozolith.Deps.{
  Ref, Issue, PullRequest, Error, key_error, DependencyClosure, ready, chained, wait, malformed,
  ChainDecision, refusal,
}
use the_ozolith.Deps.Branch.{branch_for}
use the_ozolith.Vocabulary.{pr_ready, needs_human, blocked}

-- the first loop: a decision of its own, or the open blockers
pub data Scan : Type 0 where
  refused : ChainDecision → Scan
  opens : List Issue → Scan

abbrev or_no_reason : String → String
or_no_reason s = if s == "" then "(no reason)" else s

abbrev not_completed : Issue → Message
not_completed b =
    lit "blocker #"
    ∷ num b.number
    ∷ lit " is closed as "
    ∷ lit (or_no_reason b.state_reason)
    ∷ say
        " — only a completed close satisfies a Dependency Edge (ADR-0053); re-edge or abandon the dependent"

abbrev also_open : Issue → Result Error Scan → Result Error Scan
also_open b (ok (opens bs)) = ok (opens (b ∷ bs))
also_open b (ok (refused d)) = ok (refused d)
also_open b (err e) = err e

abbrev pub scan_one : Issue → Result Error Scan → Result Error Scan
scan_one b rest =
    if b.state == "closed"
    then (if b.state_reason == "completed"
        then rest
        else ok (refused (refusal malformed (not_completed b))))
    else also_open b rest

abbrev pub scan_found : ℕ → Option Issue → Result Error Scan → Result Error Scan
scan_found n none rest = err (key_error n)
scan_found n (some b) rest = scan_one b rest

unfoldable pub scan_blockers : ℕ → Table ℕ Issue → List ℕ → Result Error Scan
scan_blockers dependent issues [] = ok (opens [])
scan_blockers dependent issues (n ∷ ns) =
    let rest = scan_blockers dependent issues ns in
    if n == dependent then rest else scan_found n (find n issues) rest

abbrev pub is_approved : PullRequest → Bool
is_approved pr =
    contains pr.labels pr_ready
    && contains pr.labels needs_human
    && not (contains pr.labels blocked)

-- the second loop: a wait of its own, or the PR of each open blocker
pub data Approvals : Type 0 where
  waiting : Message → Approvals
  approved : Table ℕ PullRequest → Approvals

abbrev no_pr_yet : ℕ → Message
no_pr_yet n = lit "open blocker #" ∷ num n ∷ say " has no PR yet"

abbrev not_approved : ℕ → PullRequest → Message
not_approved n pr =
    lit "blocker #"
    ∷ num n
    ∷ lit " PR #"
    ∷ num pr.number
    ∷ say " is not approved-and-awaiting-merge"

module _ {S : Type 0} (find_open_pr_by_head : Ref → Exec Error S (Option PullRequest)) where
  abbrev pub approve :
      ℕ
      → Option PullRequest
      → (Table ℕ PullRequest → Exec Error S Approvals)
      → Table ℕ PullRequest
      → Exec Error S Approvals
  approve n none next prs s = (ok (waiting (no_pr_yet n)), s)
  approve n (some pr) next prs s =
      let rest = next (put n pr prs) s in
      if is_approved pr then rest else (ok (waiting (not_approved n pr)), s)

  unfoldable pub approvals : List Issue → Table ℕ PullRequest → Exec Error S Approvals
  approvals [] prs = pure (approved prs)
  approvals (b ∷ bs) prs = do
    pr ← find_open_pr_by_head (branch_for b.number)
    approve b.number pr (approvals bs) prs

-- the single chain, by base_ref linkage

-- `branch_of[ref]`
unfoldable pub branch_of : Table ℕ PullRequest → Ref → Option ℕ
branch_of [] ref = none
branch_of ((n, pr) ∷ prs) ref =
    let rest = branch_of prs ref in if branch_for n == ref then some n else rest

-- the first PR that targets neither the default branch nor a blocker's branch
unfoldable pub outside : Ref → Table ℕ PullRequest → Table ℕ PullRequest → Option (ℕ × PullRequest)
outside default all [] = none
outside default all ((n, pr) ∷ prs) =
    let rest = outside default all prs in
    if not (pr.base_ref == default) && not (is_some (branch_of all pr.base_ref))
    then some (n, pr)
    else rest

abbrev pub base_of : ℕ × PullRequest → Ref
base_of (n, pr) = pr.base_ref

unfoldable pub tips : Table ℕ PullRequest → Table ℕ PullRequest → List ℕ
tips all [] = []
tips all ((n, pr) ∷ prs) =
    let rest = tips all prs in if contains (map base_of all) (branch_for n) then rest else n ∷ rest

-- how the walk down the bases ends: with the chain, in a loop, or (never) out of fuel
pub data Descent : Type 0 where
  down : List ℕ → Descent
  looped : Descent
  failed : Error → Descent

abbrev next_of : Option PullRequest → Option Ref
next_of none = none
next_of (some pr) = some pr.base_ref

-- `while prs[chain[-1]].base_ref != default_branch`
unfoldable pub descend : ℕ → Table ℕ PullRequest → Ref → List ℕ → ℕ → Descent
descend zero prs default chain last = failed Error.out_of_fuel
descend (suc fuel) prs default chain last = elim (find last prs) [
  | none ↦ failed (key_error last)
  | some pr ↦ elim (pr.base_ref == default) [
    | true ↦ down chain
    | false ↦ elim (branch_of prs pr.base_ref) [
      | none ↦ failed (key_error last)
      | some nxt ↦ elim (contains chain nxt) [
        | true ↦ looped
        | false ↦ descend fuel prs default (chain ++ nxt ∷ []) nxt
      ]
    ]
  ]
]

abbrev pub parallel : ChainDecision
parallel = refusal wait (say "parallel open blocker lines; waiting for merges")

abbrev pub outside_reason : ℕ × PullRequest → Message
outside_reason (n, pr) =
    lit "blocker #"
    ∷ num n
    ∷ lit " PR #"
    ∷ num pr.number
    ∷ lit " targets "
    ∷ Piece.ref pr.base_ref
    ∷ say ", outside the blocker chain; waiting for merges"

abbrev pub chained_on : ℕ → ChainDecision
chained_on tip = record {
  kind = chained;
  reason = [];
  base_branch = branch_for tip;
  base_is_chained = true;
  tip_issue = tip;
}

abbrev pub of_descent : Table ℕ PullRequest → ℕ → Descent → Result Error ChainDecision
of_descent prs tip (down chain) =
    if length chain == length prs then ok (chained_on tip) else ok parallel
of_descent prs tip looped = ok parallel
of_descent prs tip (failed e) = err e

abbrev pub of_tips : Table ℕ PullRequest → Ref → List ℕ → Result Error ChainDecision
of_tips prs default [] = ok parallel
of_tips prs default (tip ∷ []) =
    of_descent prs tip (descend (suc (length prs)) prs default (tip ∷ []) tip)
of_tips prs default (t ∷ u ∷ ts) = ok parallel

unfoldable pub chain_decision : Ref → Table ℕ PullRequest → Result Error ChainDecision
unfolding outside tips descend branch_of
chain_decision default prs = elim (outside default prs prs) [
  | some at ↦ ok (refusal wait (outside_reason at))
  | none ↦ of_tips prs default (tips prs prs)
]

abbrev pub ready_on : Ref → ChainDecision
ready_on default = record {
  kind = ready;
  reason = [];
  base_branch = default;
  base_is_chained = false;
  tip_issue = 0;
}

abbrev pub of_approvals : Ref → Approvals → Result Error ChainDecision
of_approvals default (waiting reason) = ok (refusal wait reason)
of_approvals default (approved prs) = chain_decision default prs

abbrev or_zero : Option ℕ → ℕ
or_zero none = 0
or_zero (some n) = n

-- `closure.order[-1]`
abbrev pub dependent_of : DependencyClosure → ℕ
dependent_of closure = or_zero (last? closure.order)

module _ {S : Type 0} (find_open_pr_by_head : Ref → Exec Error S (Option PullRequest)) where
  abbrev lift : Result Error ChainDecision → Exec Error S ChainDecision
  lift r s = (r, s)

  abbrev pub resolve_scan : Ref → Result Error Scan → Exec Error S ChainDecision
  resolve_scan default (err e) = raise e
  resolve_scan default (ok (refused d)) = pure d
  resolve_scan default (ok (opens [])) = pure (ready_on default)
  resolve_scan default (ok (opens (b ∷ bs))) = do
    a ← approvals find_open_pr_by_head (b ∷ bs) []
    lift (of_approvals default a)

  unfoldable pub resolve : DependencyClosure → Ref → Exec Error S ChainDecision
  resolve closure default =
      resolve_scan default (scan_blockers (dependent_of closure) closure.issues closure.order)
