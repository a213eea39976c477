-- ===== src/Review/Labelled/Last.antt =====
-- reviewer.py: the paths of a round that give no revision.
use the_ozolith.Common.{
  ℕ, suc, String, Option, none, some, List, nat_eq, string_eq, pair_eq, triple_eq, list_eq,
}
use the_ozolith.Common.Message.{Message}
use the_ozolith.Common.Exec.{ok, err}
use the_ozolith.Deps.{PullRequest}
use the_ozolith.Review.{Fault, VerdictKind, approve, revise, escalate, Verdict, Desk}
use the_ozolith.Review.Outcome.{
  Ends, Ends-pure, Ends-raise, Ends-catch, Ends-finally, Ends-then, Ends-bind,
}
use the_ozolith.Review.Publish.{escalate_invalid_verdict, escalate_identity_failure}
use the_ozolith.Review.Round.{rounds_spent, of_detail, session_failed, wait, conclude}

abbrev pub IsOther : VerdictKind → Type 0
IsOther approve = Unit
IsOther revise = ⊥
IsOther escalate = Unit

-- no verdict, or one that is no revision
abbrev pub IsLast : Option Verdict → Type 0
IsLast none = Unit
IsLast (some v) = IsOther v.verdict

module _ {H : Type 0} (desk : Desk H) (pr : PullRequest) where
  -- the verdicts of the two one-strike lanes and of a spent budget are no revisions
  Ends-of_detail :
      (n round : ℕ) (trusted : List (String × String)) (m : Message) (o : Option Message)
      → Ends IsLast (of_detail desk pr n round trusted m o)
  unfolding escalate_identity_failure
  Ends-of_detail n round trusted m none = Ends-bind _ _ (λ _. Ends-raise _)
  Ends-of_detail n round trusted m (some detail) = Ends-bind _ _ (λ transcript.
      Ends-then {Q = λ v. IsOther v.verdict} _ _
        (Ends-bind _ _ (λ _. Ends-bind _ _ (λ _. Ends-pure _ tt)))
        (λ v h. Ends-bind _ _ (λ _. Ends-pure (some v) h)))

  Ends-session_failed :
      (n round : ℕ) (trusted : List (String × String)) (e : Fault)
      → Ends IsLast (session_failed desk pr n round trusted e)
  Ends-session_failed n round trusted (Fault.session_error m) = Ends-of_detail n round trusted m _
  Ends-session_failed n round trusted (Fault.git_error m) = Ends-raise _
  Ends-session_failed n round trusted (Fault.github_error m) = Ends-raise _
  Ends-session_failed n round trusted (Fault.judge_isolation_error m) = Ends-raise _
  Ends-session_failed n round trusted (Fault.os_error m) = Ends-raise _
  Ends-session_failed n round trusted (Fault.cycle_error path) = Ends-raise _
  Ends-session_failed n round trusted (Fault.cross_repo_error k repo) = Ends-raise _
  Ends-session_failed n round trusted (Fault.other name m) = Ends-raise _

  pub Ends-wait :
      (n round : ℕ) (trusted : List (String × String)) (id : ℕ)
      → Ends IsLast (wait desk pr n round trusted id)
  Ends-wait n round trusted id = Ends-finally _ _ (
      Ends-catch _ _ (Ends-bind _ _ (λ _. Ends-pure none tt)) (Ends-session_failed n round trusted))

  pub Ends-invalid :
      (n round : ℕ) (transcript : String) (why : Message)
      → Ends IsLast (conclude desk pr n round transcript (err why))
  unfolding escalate_invalid_verdict
  Ends-invalid n round transcript why =
      Ends-then {Q = λ v. IsOther v.verdict} _ _
        (Ends-bind _ _ (λ raw. Ends-bind _ _ (λ _. Ends-bind _ _ (λ _. Ends-pure _ tt))))
        (λ v h. Ends-bind _ _ (λ _. Ends-pure (some v) h))

  pub Ends-other :
      (n : ℕ) (transcript : String) (v : Verdict)
      → IsOther v.verdict
      → Ends IsLast (conclude desk pr n (suc (rounds_spent pr)) transcript (ok v))
  Ends-other n transcript v h =
      Ends-bind _ _ (λ raw. Ends-bind _ _ (λ _. Ends-bind _ _ (λ _. Ends-pure (some v) h)))
