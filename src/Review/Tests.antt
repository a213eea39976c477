-- ===== src/Review/Tests.antt =====
-- Rounds of review on a small desk, and instances of the theorems on them.
use the_ozolith.Common.{
  suc, ◌≤◌, ◌<◌, ◌≡◌, refl, sym, ap, ◌∙◌, ◌||◌, inl, inr, String, Bool-cases, ◌==◌, contains, true,
  none, some, [], ◌∷◌, arith, nat_eq, string_eq, pair_eq, triple_eq, list_eq,
}
use the_ozolith.Common.Message.{Message}
use the_ozolith.Common.Exec.{Result, ok, pure, gets, ◌>>=◌, catch}
use the_ozolith.Common.Keeps.{Preorder}
use the_ozolith.Common.Decimal.{decimal, value, all_digits}
use the_ozolith.Common.Order.{order_by, insert_by}
use the_ozolith.Deps.Branch.{branch_for, issue_for_branch, issue_for_branch-branch_for}
use the_ozolith.Deps.Walk.{walk_closure, visit, visit_all, expand, pop, note_blockers, from_current}
use the_ozolith.Vocabulary.{attempts_on, strip_prefix}
use the_ozolith.Review.Base.{finally, github, ask, each, push_evidence_files}
use the_ozolith.Review.Proposal.{lstrip, rstrip, non_empty, validate_review}
use the_ozolith.Review.Inputs.{checkout_pr, neutralize_agent_config, materialize_inputs}
use the_ozolith.Review.Publish.{
  round_budget, publish, apply, strip_claim_and_requeue, attempt_label, digits_text, nth,
}
use the_ozolith.Review.Outcome.{Holds}
use the_ozolith.Review.Round.{rounds_spent, review_pr}
use the_ozolith.Review.Sound.{IsSound, review_pr-IsSound}
use the_ozolith.Review.Labelled.Calls.{Labels}
use the_ozolith.Review.Progress.{review_pr-progress}
use the_ozolith.Review.Unwritten.{Reads, review_pr-Unwritten}
use the_ozolith.Review.Budget.{IsEscalation, Escalates, review_pr-IsEscalation}
use the_ozolith.Review.Sample.{Small, small, broken, after_one, after_three, revised}

abbrev revised_state : Small
revised_state =
    ("plan_ready" ∷ "unlabel" ∷ "unassign" ∷ "unlabel" ∷ "attempt-2" ∷ "comment" ∷ [], 27)

-- a whole round, from the checkout to the labels
revised_run : review_pr small 5 after_one ([], 0) ≡ (ok (some revised), revised_state)
unfolding review_pr issue_for_branch strip_prefix value all_digits attempts_on branch_for decimal
    walk_closure visit visit_all expand pop note_blockers from_current insert_by order_by ◌>>=◌
    catch finally github ask each pure gets checkout_pr neutralize_agent_config materialize_inputs
    validate_review lstrip rstrip non_empty publish apply strip_claim_and_requeue attempt_label
    digits_text nth push_evidence_files
revised_run = refl

review_pr-IsSound_example : IsSound (rounds_spent after_one) revised
review_pr-IsSound_example =
    review_pr-IsSound small 5 after_one revised ([], 0) revised_state revised_run

-- the label of the second round is among what was written
abbrev IsLabelled : Small → Type 0
IsLabelled s = contains s.0 "attempt-2" ≡ true

written_before :
    (line : String) (s : Small)
    → contains s.0 "attempt-2" ≡ true
    → (line == "attempt-2" || contains s.0 "attempt-2") ≡ true
written_before line s h = elim (Bool-cases (line == "attempt-2")) [
  | inl same ↦ rw same refl
  | inr other ↦ rw other h
]

small-Labels : Labels small after_one IsLabelled
unfolding attempt_label digits_text nth attempts_on strip_prefix value all_digits decimal
small-Labels = record {
  labelled =
      λ s u e. ap (λ (p : Result Message (Unit {0}) × Small). contains p.1.0 "attempt-2") (sym e);
  reviewed = λ s h. written_before "unlabel" s h;
  read = λ n s h. h;
  unassigned = λ n login s h. written_before "unassign" s h;
  unclaimed = λ n s h. written_before "unlabel" s h;
  requeued = λ n s h. written_before "plan_ready" s h;
  pushed = λ prefix files s h. h;
  emitted = λ e s h. h;
  removed_job = λ id s h. h;
  discarded = λ id s h. h;
}

review_pr-progress_example :
    IsLabelled revised_state
    × (rounds_spent (record after_one {
      labels = attempt_label (suc (rounds_spent after_one)) ∷ after_one.labels;
    })
        ≡ suc (rounds_spent after_one))
    × (suc (rounds_spent after_one) < round_budget)
review_pr-progress_example =
    review_pr-progress small after_one IsLabelled small-Labels 5 revised ([], 0) revised_state
      revised_run refl

-- nothing more is written to GitHub
abbrev same_lines : Preorder Small
same_lines = record { Rel = λ s t. s.0 ≡ t.0; same = λ s. refl; along = λ s t u g h. g ∙ h }

broken-Reads : Reads broken same_lines
broken-Reads = record {
  listed = λ n s. refl;
  emitted = λ e s. refl;
  created = λ id s. refl;
  removed_job = λ id s. refl;
  discarded = λ id s. refl;
  cloned = λ head s. refl;
  sanitized = λ s. refl;
  reset = λ sha s. refl;
  fetched = λ base s. refl;
  merged = λ base s. refl;
  diffed = λ option commit s. refl;
  artifacts = λ s. refl;
  unlinked = λ path s. refl;
  removed = λ path s. refl;
  snapshot = λ n pr s. refl;
  commits = λ base s. refl;
  tree = λ i lines s. refl;
  deps = λ c n s. refl;
  deps_tree = λ lines c s. refl;
  fact = λ f s. refl;
}

broken_run : (review_pr broken 5 after_one ([], 0)).0 ≡ ok none
unfolding review_pr issue_for_branch strip_prefix value all_digits attempts_on branch_for decimal
    ◌>>=◌ catch finally ask pure gets checkout_pr
broken_run = refl

review_pr-Unwritten_example : [] ≡ (review_pr broken 5 after_one ([], 0)).1.0
review_pr-Unwritten_example =
    review_pr-Unwritten broken same_lines broken-Reads 5 after_one ([], 0) broken_run

-- nothing but GitHub, the evidence and the events is called
abbrev same_work : Preorder Small
same_work = record { Rel = λ s t. s.1 ≡ t.1; same = λ s. refl; along = λ s t u g h. g ∙ h }

small-Escalates : Escalates small same_work
small-Escalates = record {
  commented = λ n m s. refl;
  labelled = λ n labels s. refl;
  unlabelled = λ n label s. refl;
  pushed = λ prefix files s. refl;
  emitted = λ e s. refl;
}

spent_three : round_budget ≤ rounds_spent after_three
unfolding attempts_on strip_prefix value all_digits
spent_three = omega arith

review_pr-IsEscalation_example :
    (0 ≡ (review_pr small 5 after_three ([], 0)).1.1)
    × Holds IsEscalation (review_pr small 5 after_three ([], 0)).0
review_pr-IsEscalation_example =
    review_pr-IsEscalation small same_work small-Escalates 5 7 after_three ([], 0)
      (issue_for_branch-branch_for 7) spent_three
