-- ===== src/Review/Round.antt =====
-- reviewer.py: one review round of a pull request, and the Reviewer's pass.
use the_ozolith.Common.{
  ℕ, suc, String, Bool, true, false, not, Option, none, some, List, [], ◌∷◌, map, leb,
  if◌then◌else◌, nat_eq, string_eq, pair_eq, triple_eq, list_eq,
}
use the_ozolith.Common.Message.{Message, lit, num, say}
use the_ozolith.Common.Exec.{Result, ok, err, Exec, pure, raise, gets, ◌>>=◌, ◌>>◌, catch}
use the_ozolith.Deps.{PullRequest}
use the_ozolith.Deps.Branch.{issue_for_branch}
use the_ozolith.Vocabulary.{codes, attempts_on, reviewable}
use the_ozolith.Review.{Fault, Verdict, Fields, ReviewInputs, Manifest, Event, Desk}
use the_ozolith.Review.Base.{finally, github, ask, skip, text_of, class_of}
use the_ozolith.Review.Proposal.{validate_review}
use the_ozolith.Review.Inputs.{checkout_pr, neutralize_agent_config, materialize_inputs}
use the_ozolith.Review.Publish.{
  round_budget, escalated, apply, emit_review, escalate_invalid_verdict, escalate_identity_failure,
  record_schema_skew,
}

-- the rounds that the labels of a pull request count
abbrev pub rounds_spent : PullRequest → ℕ
rounds_spent pr = attempts_on (map codes pr.labels)

abbrev pub review_id : PullRequest → ℕ → Message
review_id pr round_number = lit "review-" ∷ num pr.number ∷ lit "-round-" ∷ num round_number ∷ []

abbrev pub manifest_of : PullRequest → ℕ → Manifest
manifest_of pr round_number = record {
  run_id = review_id pr round_number;
  round = round_number;
  round_budget = round_budget;
}

module _ {H : Type 0} (desk : Desk H) where
  -- `evidence.issue_evidence_url`
  abbrev pub bundle_url : ℕ → Message
  bundle_url issue_number =
      lit "https://github.com/"
      ∷ lit desk.client.repo
      ∷ lit "/tree/theozolith/evidence/runs/issue-"
      ∷ num issue_number
      ∷ []

  -- the verdict of a spent budget, for which no session is started
  abbrev pub exhausted : PullRequest → ℕ → Exec Fault H (Option Verdict)
  exhausted pr issue_number = do
    let v = escalated round_budget (say "Round budget exhausted") (bundle_url issue_number)
    apply desk pr issue_number v "" none
    emit_review desk pr issue_number v
    pure (some v)

  -- the inputs, or the error of the lane that leaves the pull request reviewable
  abbrev pub try_inputs : ℕ → PullRequest → ℕ → Exec Fault H ReviewInputs
  try_inputs fuel pr issue_number = do
    base_commit ← checkout_pr desk pr
    neutralize_agent_config desk
    materialize_inputs desk fuel pr issue_number base_commit

  -- the exceptions of that lane
  abbrev pub is_input_failure : Fault → Bool
  is_input_failure (Fault.git_error m) = true
  is_input_failure (Fault.github_error m) = true
  is_input_failure (Fault.judge_isolation_error m) = true
  is_input_failure (Fault.cycle_error path) = true
  is_input_failure (Fault.cross_repo_error n repo) = true
  is_input_failure (Fault.session_error m) = false
  is_input_failure (Fault.os_error m) = false
  is_input_failure (Fault.other name m) = false

  abbrev pub unavailable : PullRequest → Fault → Exec Fault H (Option ReviewInputs)
  unavailable pr e =
      if is_input_failure e
      then (do
        ask (
            desk.emit (
              Event.error (class_of e)
                (lit "review inputs for PR #" ∷ num pr.number ∷ lit " failed: " ∷ text_of e)))
        pure none)
      else raise e

  abbrev pub inputs_or_none : ℕ → PullRequest → ℕ → Exec Fault H (Option ReviewInputs)
  inputs_or_none fuel pr issue_number =
      catch (do inputs ← try_inputs fuel pr issue_number; pure (some inputs)) (unavailable pr)

  -- `except SessionError`: the verdict of a failed identity gate, or the error again
  abbrev pub of_detail :
      PullRequest
      → ℕ
      → ℕ
      → List (String × String)
      → Message
      → Option Message
      → Exec Fault H (Option Verdict)
  of_detail pr issue_number round_number trusted_input error (some detail) = do
    transcript ← gets desk.read_transcript
    v ←
        escalate_identity_failure desk pr issue_number round_number detail (bundle_url issue_number)
          transcript
    emit_review desk pr issue_number v
    pure (some v)
  of_detail pr issue_number round_number trusted_input error none = do
    elim (desk.schema_error_detail error) [
      | none ↦ skip
      | some detail ↦ record_schema_skew desk pr issue_number round_number error trusted_input
    ]
    raise (Fault.session_error error)

  abbrev pub session_failed :
      PullRequest → ℕ → ℕ → List (String × String) → Fault → Exec Fault H (Option Verdict)
  session_failed pr issue_number round_number trusted_input (Fault.session_error m) =
      of_detail pr issue_number round_number trusted_input m (desk.identity_error_detail m)
  session_failed pr issue_number round_number trusted_input e = raise e

  -- `session.wait_for_agent` with its handler and its two `finally` blocks: a verdict only when the
  -- identity gate failed
  abbrev pub wait : PullRequest → ℕ → ℕ → List (String × String) → ℕ → Exec Fault H (Option Verdict)
  wait pr issue_number round_number trusted_input session =
      finally
        (catch (do desk.wait_for_agent session; pure none)
          (session_failed pr issue_number round_number trusted_input))
        (finally (desk.finish session) desk.sanitize_checkout)

  abbrev pub conclude :
      PullRequest → ℕ → ℕ → String → Result Message Verdict → Exec Fault H (Option Verdict)
  conclude pr issue_number round_number transcript (err reason) = do
    v ←
        escalate_invalid_verdict desk pr issue_number round_number reason (bundle_url issue_number)
          transcript
    emit_review desk pr issue_number v
    pure (some v)
  conclude pr issue_number round_number transcript (ok v) = do
    raw ← gets desk.raw_proposal
    apply desk pr issue_number v transcript raw
    emit_review desk pr issue_number v
    pure (some v)

  -- the proposal is validated again, whatever the session reported
  abbrev pub validated : PullRequest → ℕ → ℕ → Result Message Fields → Result Message Verdict
  validated pr issue_number round_number fields =
      validate_review round_number (leb round_budget round_number) pr.head_sha
        (bundle_url issue_number) fields

  abbrev pub after_wait : PullRequest → ℕ → ℕ → Option Verdict → Exec Fault H (Option Verdict)
  after_wait pr issue_number round_number (some v) = pure (some v)
  after_wait pr issue_number round_number none = do
    fields ← gets (desk.read_fields round_number)
    transcript ← gets desk.read_transcript
    conclude pr issue_number round_number transcript (validated pr issue_number round_number fields)

  abbrev pub session : PullRequest → ℕ → ℕ → Option ReviewInputs → Exec Fault H (Option Verdict)
  session pr issue_number round_number none = pure none
  session pr issue_number round_number (some inputs) = do
    desk.write_prompt inputs pr.head_sha round_number round_budget
    desk.write_manifest (manifest_of pr round_number)
    trusted_input ← desk.capture_input_snapshot (review_id pr round_number)
    id ← desk.session_factory (manifest_of pr round_number)
    desk.launch id
    early ← wait pr issue_number round_number trusted_input id
    after_wait pr issue_number round_number early

  abbrev pub discard : PullRequest → ℕ → Exec Fault H (Unit {0})
  discard pr round_number = do
    ask (desk.remove_job_dir (review_id pr round_number))
    remains ← gets (desk.job_exists (review_id pr round_number))
    if remains then skip else desk.discard_input_snapshot (review_id pr round_number)

  abbrev pub round : ℕ → PullRequest → ℕ → ℕ → Exec Fault H (Option Verdict)
  round fuel pr issue_number round_number = do
    desk.create_job_dir (review_id pr round_number)
    finally
        (do
          inputs ← inputs_or_none fuel pr issue_number
          session pr issue_number round_number inputs)
        (discard pr round_number)

  abbrev pub review_issue : ℕ → PullRequest → Option ℕ → Exec Fault H (Option Verdict)
  review_issue fuel pr none = pure none
  review_issue fuel pr (some issue_number) =
      if leb round_budget (rounds_spent pr)
      then exhausted pr issue_number
      else round fuel pr issue_number (suc (rounds_spent pr))

  -- `review_pr`: none when the pull request is skipped; `fuel` is for the walk of its edges
  unfoldable pub review_pr : ℕ → PullRequest → Exec Fault H (Option Verdict)
  unfolding issue_for_branch
  review_pr fuel pr = review_issue fuel pr (issue_for_branch pr.head_ref)

  abbrev pub count : Option Verdict → ℕ
  count none = 0
  count (some v) = 1

  abbrev pub reviewed : ℕ → PullRequest → Exec Fault H ℕ
  reviewed fuel pr = do result ← review_pr fuel pr; pure (count result)

  -- `Reviewer.fetch_work`
  unfoldable pub fetch_work : Exec Fault H (Option (List ℕ))
  fetch_work = ask desk.review_targets

  -- `Reviewer.execute`: discovery is advisory, GitHub decides
  unfoldable pub execute : ℕ → ℕ → Exec Fault H ℕ
  unfolding reviewable
  execute fuel item = do
    pr ← github (desk.get_pull item)
    if not (reviewable pr.labels) then pure 0 else reviewed fuel pr
