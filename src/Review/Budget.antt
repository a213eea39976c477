-- ===== src/Review/Budget.antt =====
-- reviewer.py: a pull request whose round budget is spent.
use the_ozolith.Common.{
  ℕ, ◌≤◌, String, ◌≡◌, refl, true, Option, none, some, List, arith, leb, nat_eq, string_eq, pair_eq,
  triple_eq, list_eq,
}
use the_ozolith.Common.Message.{Message}
use the_ozolith.Common.Exec.{Exec}
use the_ozolith.Common.Keeps.{Preorder, Keeps}
use the_ozolith.Common.Steady.{Steady, steady_rules}
use the_ozolith.Deps.{PullRequest}
use the_ozolith.Deps.Branch.{issue_for_branch}
use the_ozolith.Review.{escalate, Verdict, File, Event, Desk}
use the_ozolith.Review.Base.{github, ask, push_evidence_files}
use the_ozolith.Review.Outcome.{Holds, Ends, Ends-pure, Ends-bind}
use the_ozolith.Review.Publish.{round_budget, publish, apply}
use the_ozolith.Review.Round.{rounds_spent, exhausted, review_pr}

-- a branch of the pipeline, whose review gives a human the decision
abbrev pub IsEscalation : Option Verdict → Type 0
IsEscalation none = ⊥
IsEscalation (some v) = v.verdict ≡ escalate

module _ {H : Type 0} (desk : Desk H) where
  -- the calls that escalate keep a relation
  pub record Escalates (R : Preorder H) : Type 1 where
    pub commented : (n : ℕ) (m : Message) → Keeps R (desk.client.add_comment n m)
    pub labelled : (n : ℕ) (labels : List String) → Keeps R (desk.client.add_labels n labels)
    pub unlabelled : (n : ℕ) (label : String) → Keeps R (desk.client.remove_label n label)
    pub pushed : (prefix : Message) (files : List File) → Keeps R (desk.push_bundle prefix files)
    pub emitted : (e : Event) (h : H) → R.Rel h (desk.emit e h).1

  module _ (R : Preorder H) (calls : Escalates R) where
    Steady-github : {A : Type 0} (m : Exec Message H A) → Keeps R m → Steady R (github m)
    unfolding github
    Steady-github m k = record { at = k }

    Steady-emit : (e : Event) → Steady R (ask (desk.emit e))
    unfolding ask
    Steady-emit e = record { at = calls.emitted e }

    Steady-push :
        (prefix : Message) (files : List File) → Steady R (push_evidence_files desk prefix files)
    unfolding push_evidence_files
    Steady-push prefix files = search (steady_rules, Steady-emit, steady_push) depth 12
      where
        steady_push : Steady R (desk.push_bundle prefix files)
        steady_push = record { at = calls.pushed prefix files }

    Steady-exhausted : (pr : PullRequest) (n : ℕ) → Steady R (exhausted desk pr n)
    unfolding apply publish
    Steady-exhausted pr n =
        search
          (
            steady_rules, Steady-github, calls.commented, calls.labelled, calls.unlabelled,
            Steady-emit, Steady-push,
          )
          depth 24

    -- A spent budget cannot be argued with: once the labels count as many rounds as the budget, the
    -- review of a pipeline branch comments, labels, pushes its evidence and posts an event at most,
    -- so that no session and no checkout is started; and its verdict, unless GitHub fails, is to
    -- escalate.
    pub review_pr-IsEscalation :
        (fuel n : ℕ) (pr : PullRequest) (h : H)
        → issue_for_branch pr.head_ref ≡ some n
        → round_budget ≤ rounds_spent pr
        → R.Rel h (review_pr desk fuel pr h).1 × Holds IsEscalation (review_pr desk fuel pr h).0
    unfolding review_pr
    review_pr-IsEscalation fuel n pr h named spent =
        rw (named, spent_lem) ((Steady-exhausted pr n).at h, (Ends-exhausted pr n).ends h)
      where
        spent_lem : leb round_budget (rounds_spent pr) ≡ true
        spent_lem = ground arith

        Ends-exhausted : (pr : PullRequest) (n : ℕ) → Ends IsEscalation (exhausted desk pr n)
        Ends-exhausted pr n = Ends-bind _ _ (λ _. Ends-bind _ _ (λ _. Ends-pure _ refl))
