-- ===== src/Review/Sound.antt =====
-- reviewer.py and proposal.py: what the verdict of a round is good for.
use the_ozolith.Common.{
  ℕ, suc, ◌≤◌, ◌<◌, String, ◌≡◌, refl, sym, ap, subst, ◌∙◌, ◌≢◌, inl, inr, Bool, true, false, not,
  Option, none, some, List, arith, leb, if◌then◌else◌, Bool-cases, ◌==◌, nat_eq, string_eq, pair_eq,
  triple_eq, list_eq,
}
use the_ozolith.Common.Message.{Message}
use the_ozolith.Common.Exec.{Result, ok, err}
use the_ozolith.Deps.{PullRequest}
use the_ozolith.Deps.Branch.{issue_for_branch}
use the_ozolith.Review.{
  Fault, VerdictKind, approve, revise, escalate, Verdict, Fields, ReviewInputs, Desk,
}
use the_ozolith.Review.Outcome.{
  Holds, Ends, Ends-pure, Ends-raise, Ends-catch, Ends-finally, Ends-then, Ends-bind,
}
use the_ozolith.Review.Proposal.{
  is_grade, strip, kept_grade, kind_errors, verdict_of, judged, validate_review,
}
use the_ozolith.Review.Publish.{round_budget, escalate_invalid_verdict, escalate_identity_failure}
use the_ozolith.Review.Round.{
  rounds_spent, bundle_url, of_detail, session_failed, wait, conclude, validated, after_wait,
  session, review_issue, review_pr,
}

-- an approval is graded; a revision closes a round before the last, and has a plan
abbrev pub IsSoundFor : ℕ → Verdict → VerdictKind → Type 0
IsSoundFor spent v approve = (is_grade v.deviation ≡ true) × (is_grade v.risk ≡ true)
IsSoundFor spent v revise =
    (v.round ≡ suc spent) × (v.round < round_budget) × (strip v.revised_plan ≢ "")
IsSoundFor spent v escalate = v.round ≤ round_budget

abbrev pub IsSound : ℕ → Verdict → Type 0
IsSound spent v = IsSoundFor spent v v.verdict

abbrev OptionSound : ℕ → Option Verdict → Type 0
OptionSound spent none = Unit
OptionSound spent (some v) = IsSound spent v

kept_lem : (g : Option String) → is_grade g ≡ true → is_grade (kept_grade g) ≡ true
kept_lem g e = rw e e

approve_lem :
    (d r : Bool) (m n : Message)
    → (if not d then some m else if not r then some n else none) ≡ none
    → (d ≡ true) × (r ≡ true)
approve_lem true true m n e = (refl, refl)
approve_lem true false m n e = absurd (cc e)
approve_lem false r m n e = absurd (cc e)

revise_lem :
    (final blank : Bool) (m n : Message)
    → (if final then some m else if blank then some n else none) ≡ none
    → (final ≡ false) × (blank ≡ false)
revise_lem true blank m n e = absurd (cc e)
revise_lem false true m n e = absurd (cc e)
revise_lem false false m n e = (refl, refl)

-- a proposal without errors of its kind is sound, when the budget is not spent
sound_lem :
    (spent : ℕ) (resume : String) (url : Message) (f : Fields) (k : VerdictKind)
    → leb round_budget spent ≡ false
    → kind_errors (leb round_budget (suc spent)) f k ≡ none
    → IsSoundFor spent (verdict_of (suc spent) resume url f) k
sound_lem spent resume url f approve left e =
    let (d, r) = approve_lem (is_grade f.deviation) (is_grade f.risk) _ _ e in
    (kept_lem f.deviation d, kept_lem f.risk r)
sound_lem spent resume url f revise left e =
    let (last, blank) =
      revise_lem (leb round_budget (suc spent)) (strip f.revised_plan == "") _ _ e in
    (refl, ground (arith, last), λ same. absurd (cc (sym blank ∙ ap (λ s. s == "") same)))
sound_lem spent resume url f escalate left e = ground (arith, left)

holds_lem :
    (P : Verdict → Type 0) (v : Verdict) (o : Option Message)
    → (o ≡ none → P v)
    → Holds P (judged v o)
holds_lem P v none h = h refl
holds_lem P v (some m) h = tt

module _ {H : Type 0} (desk : Desk H) where
  pub validated_lem :
      (pr : PullRequest) (n : ℕ) (r : Result Message Fields)
      → leb round_budget (rounds_spent pr) ≡ false
      → Holds (IsSound (rounds_spent pr)) (validated desk pr n (suc (rounds_spent pr)) r)
  unfolding validate_review
  validated_lem pr n (err problem) left = tt
  validated_lem pr n (ok f) left =
      holds_lem (IsSound (rounds_spent pr)) _ _
        (sound_lem (rounds_spent pr) pr.head_sha (bundle_url desk n) f f.verdict left)

  module _ (spent : ℕ) (left : leb round_budget spent ≡ false) where
    Ends-invalid :
        (pr : PullRequest) (n : ℕ) (why url : Message) (transcript : String)
        → Ends (IsSound spent) (escalate_invalid_verdict desk pr n (suc spent) why url transcript)
    unfolding escalate_invalid_verdict
    Ends-invalid pr n why url transcript =
        Ends-bind _ _
          (λ raw. Ends-bind _ _ (λ _. Ends-bind _ _ (λ _. Ends-pure _ (ground (arith, left)))))

    Ends-identity :
        (pr : PullRequest) (n : ℕ) (why url : Message) (transcript : String)
        → Ends (IsSound spent) (escalate_identity_failure desk pr n (suc spent) why url transcript)
    unfolding escalate_identity_failure
    Ends-identity pr n why url transcript =
        Ends-bind _ _ (λ _. Ends-bind _ _ (λ _. Ends-pure _ (ground (arith, left))))

    Ends-of_detail :
        (pr : PullRequest) (n : ℕ) (trusted : List (String × String)) (m : Message)
        (o : Option Message)
        → Ends (OptionSound spent) (of_detail desk pr n (suc spent) trusted m o)
    Ends-of_detail pr n trusted m none = Ends-bind _ _ (λ _. Ends-raise _)
    Ends-of_detail pr n trusted m (some detail) = Ends-bind _ _ (λ transcript.
        Ends-then _ _ (Ends-identity pr n detail _ transcript)
          (λ v sound. Ends-bind _ _ (λ _. Ends-pure (some v) sound)))

    Ends-session_failed :
        (pr : PullRequest) (n : ℕ) (trusted : List (String × String)) (e : Fault)
        → Ends (OptionSound spent) (session_failed desk pr n (suc spent) trusted e)
    Ends-session_failed pr n trusted (Fault.session_error m) = Ends-of_detail pr n trusted m _
    Ends-session_failed pr n trusted (Fault.git_error m) = Ends-raise _
    Ends-session_failed pr n trusted (Fault.github_error m) = Ends-raise _
    Ends-session_failed pr n trusted (Fault.judge_isolation_error m) = Ends-raise _
    Ends-session_failed pr n trusted (Fault.os_error m) = Ends-raise _
    Ends-session_failed pr n trusted (Fault.cycle_error path) = Ends-raise _
    Ends-session_failed pr n trusted (Fault.cross_repo_error k repo) = Ends-raise _
    Ends-session_failed pr n trusted (Fault.other name m) = Ends-raise _

    Ends-wait :
        (pr : PullRequest) (n : ℕ) (trusted : List (String × String)) (id : ℕ)
        → Ends (OptionSound spent) (wait desk pr n (suc spent) trusted id)
    Ends-wait pr n trusted id =
        Ends-finally _ _ (
          Ends-catch _ _ (Ends-bind _ _ (λ _. Ends-pure none tt))
            (Ends-session_failed pr n trusted))

    Ends-conclude :
        (pr : PullRequest) (n : ℕ) (transcript : String) (r : Result Message Verdict)
        → Holds (IsSound spent) r
        → Ends (OptionSound spent) (conclude desk pr n (suc spent) transcript r)
    Ends-conclude pr n transcript (ok v) sound =
        Ends-bind _ _ (λ raw. Ends-bind _ _ (λ _. Ends-bind _ _ (λ _. Ends-pure (some v) sound)))
    Ends-conclude pr n transcript (err reason) h =
        Ends-then _ _ (Ends-invalid pr n reason _ transcript)
          (λ v sound. Ends-bind _ _ (λ _. Ends-pure (some v) sound))

  Ends-after_wait :
      (pr : PullRequest) (n : ℕ) (early : Option Verdict)
      → leb round_budget (rounds_spent pr) ≡ false
      → OptionSound (rounds_spent pr) early
      → Ends (OptionSound (rounds_spent pr)) (after_wait desk pr n (suc (rounds_spent pr)) early)
  Ends-after_wait pr n (some v) left sound = Ends-pure (some v) sound
  Ends-after_wait pr n none left sound = Ends-bind _ _ (λ fields. Ends-bind _ _ (λ transcript.
      Ends-conclude (rounds_spent pr) left pr n transcript _ (validated_lem pr n fields left)))

  Ends-session :
      (pr : PullRequest) (n : ℕ) (inputs : Option ReviewInputs)
      → leb round_budget (rounds_spent pr) ≡ false
      → Ends (OptionSound (rounds_spent pr)) (session desk pr n (suc (rounds_spent pr)) inputs)
  Ends-session pr n none left = Ends-pure none tt
  Ends-session pr n (some inputs) left = Ends-bind _ _ (λ _. Ends-bind _ _ (λ _.
      Ends-bind _ _ (λ trusted. Ends-bind _ _ (λ id. Ends-bind _ _ (λ _.
        Ends-then _ _ (Ends-wait (rounds_spent pr) left pr n trusted id)
          (λ early. Ends-after_wait pr n early left))))))

  Ends-issue :
      (fuel : ℕ) (pr : PullRequest) (issue : Option ℕ)
      → Ends (OptionSound (rounds_spent pr)) (review_issue desk fuel pr issue)
  Ends-issue fuel pr none = Ends-pure none tt
  Ends-issue fuel pr (some n) = elim (Bool-cases (leb round_budget (rounds_spent pr))) [
    | inl spent ↦ rw spent (Ends-bind _ _ (λ _. Ends-bind _ _ (λ _. Ends-pure _ (omega arith))))
    | inr left ↦ rw left (
        Ends-bind _ _
          (λ _. Ends-finally _ _ (Ends-bind _ _ (λ inputs. Ends-session pr n inputs left))))
  ]

  -- The verdict of a round is sound, whatever the session proposed: an approval has both grades; a
  -- revision closes the round after the ones that the labels count, which is not the last, and has a
  -- plan; an escalation closes a round within the budget.
  pub review_pr-IsSound :
      (fuel : ℕ) (pr : PullRequest) (v : Verdict) (h u : H)
      → review_pr desk fuel pr h ≡ (ok (some v), u)
      → IsSound (rounds_spent pr) v
  unfolding review_pr
  review_pr-IsSound fuel pr v h u e =
      subst (Holds (OptionSound (rounds_spent pr)))
        (ap (λ (p : Result Fault (Option Verdict) × H). p.0) e)
        ((Ends-issue fuel pr (issue_for_branch pr.head_ref)).ends h)
