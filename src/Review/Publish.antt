-- ===== src/Review/Publish.antt =====
-- reviewer.py: how a verdict is written to GitHub, its evidence, and the two one-strike lanes.
use the_ozolith.Common.{
  ℕ, zero, suc, ◌-◌, String, Option, none, some, List, [], ◌∷◌, ◌++◌, map, if◌then◌else◌, ◌==◌,
  nat_eq, string_eq, pair_eq, triple_eq, list_eq,
}
use the_ozolith.Common.Message.{Message, lit, num}
use the_ozolith.Common.Exec.{Exec, pure, gets, ◌>>=◌, ◌>>◌}
use the_ozolith.Common.Decimal.{decimal}
use the_ozolith.Deps.{PullRequest}
use the_ozolith.Vocabulary.{plan_ready, in_progress, pr_ready, blocked, needs_human}
use the_ozolith.Review.{Fault, VerdictKind, approve, revise, escalate, Verdict, File, Event, Desk}
use the_ozolith.Review.Base.{github, ask, each, push_evidence_files}

-- ROUND_BUDGET
abbrev pub round_budget : ℕ
round_budget = 3

abbrev pub digit_texts : List String
digit_texts = "0" ∷ "1" ∷ "2" ∷ "3" ∷ "4" ∷ "5" ∷ "6" ∷ "7" ∷ "8" ∷ "9" ∷ []

unfoldable pub nth : List String → ℕ → String
nth [] n = ""
nth (s ∷ texts) zero = s
nth (s ∷ texts) (suc n) = nth texts n

-- `s + t`
abbrev pub append_text : String → String → String
append_text String.[] t = t
append_text (String.◌∷◌ c s) t = String.◌∷◌ c (append_text s t)

unfoldable pub digits_text : List ℕ → String
unfolding nth
digits_text [] = ""
digits_text (c ∷ s) = append_text (nth digit_texts (c - 48)) (digits_text s)

unfoldable pub attempt_label : ℕ → String
unfolding digits_text decimal
attempt_label round_number = append_text "attempt-" (digits_text (decimal round_number))

abbrev text_or_none : Option String → String
text_or_none none = "None"
text_or_none (some s) = s

abbrev pub graded : String → Option String → String
graded prefix g = append_text prefix (text_or_none g)

-- `verdict.render_comment`: the kind, the round and the evidence
abbrev pub render_comment : Verdict → Message
render_comment v = lit "Reviewer verdict (round " ∷ num v.round ∷ lit ") " ∷ v.evidence

-- `s[:n]`
abbrev pub first_chars : ℕ → String → String
first_chars zero s = ""
first_chars (suc n) String.[] = ""
first_chars (suc n) (String.◌∷◌ c s) = String.◌∷◌ c (first_chars n s)

abbrev pub prefix_of : ℕ → ℕ → PullRequest → String → Message
prefix_of issue_number round_number pr suffix =
    lit "runs/issue-"
    ∷ num issue_number
    ∷ lit "/reviews/round-"
    ∷ num round_number
    ∷ lit "-"
    ∷ lit (first_chars 12 pr.head_sha)
    ∷ lit suffix
    ∷ []

-- a file that is left out when there is no text for it
abbrev pub if_text : (String → File) → Option String → List File
if_text file none = []
if_text file (some s) = file s ∷ []

abbrev pub if_any : (String → File) → String → List File
if_any file s = if s == "" then [] else file s ∷ []

abbrev input_file : String × String → File
input_file (path, content) = File.input path content

abbrev pub escalated : ℕ → Message → Message → Verdict
escalated round_number evidence bundle_url = record {
  verdict = escalate;
  round = round_number;
  evidence = evidence;
  deviation = none;
  risk = none;
  revised_plan = "";
  resume_commit = "";
  cherry_pick = [];
  bundle_url = bundle_url;
}

module _ {H : Type 0} (desk : Desk H) where
  abbrev remove_assignee : ℕ → String → Exec Fault H (Unit {0})
  remove_assignee issue_number login = github (desk.client.remove_assignee issue_number login)

  -- `_strip_claim_and_requeue`
  unfoldable pub strip_claim_and_requeue : ℕ → Exec Fault H (Unit {0})
  unfolding each
  strip_claim_and_requeue issue_number = do
    issue ← github (desk.client.get_issue issue_number)
    each (remove_assignee issue_number) issue.assignees
    github (desk.client.remove_label issue_number in_progress)
    github (desk.client.add_labels issue_number (plan_ready ∷ []))

  abbrev pub relabel : PullRequest → ℕ → Verdict → VerdictKind → Exec Fault H (Unit {0})
  relabel pr issue_number v approve = github (
      desk.client.add_labels pr.number
        (needs_human ∷ graded "deviation:" v.deviation ∷ graded "risk:" v.risk ∷ []))
  relabel pr issue_number v revise = do
    github (desk.client.add_labels pr.number (attempt_label v.round ∷ []))
    github (desk.client.remove_label pr.number pr_ready)
    strip_claim_and_requeue issue_number
  relabel pr issue_number v escalate = do
    github (desk.client.remove_label pr.number pr_ready)
    github (desk.client.add_labels pr.number (blocked ∷ needs_human ∷ []))

  -- `_publish`: the comment lands first
  unfoldable pub publish : PullRequest → ℕ → Verdict → Exec Fault H (Unit {0})
  unfolding strip_claim_and_requeue attempt_label
  publish pr issue_number v = do
    github (desk.client.add_comment pr.number (render_comment v))
    relabel pr issue_number v v.verdict

  -- `_push_review_evidence`
  abbrev pub push_review_evidence :
      PullRequest → ℕ → Verdict → String → Option String → Exec Fault H (Unit {0})
  push_review_evidence pr issue_number v transcript raw_proposal =
      push_evidence_files desk (prefix_of issue_number v.round pr "") (
        File.recorded (some v.verdict) v.evidence ∷ if_any File.transcript transcript
        ++ if_text File.proposal raw_proposal)

  -- `_apply`
  unfoldable pub apply :
      PullRequest → ℕ → Verdict → String → Option String → Exec Fault H (Unit {0})
  unfolding publish
  apply pr issue_number v transcript raw_proposal = do
    publish pr issue_number v
    push_review_evidence pr issue_number v transcript raw_proposal

  -- `_emit_review`
  abbrev pub emit_review : PullRequest → ℕ → Verdict → Exec Fault H (Unit {0})
  emit_review pr issue_number v =
      ask (desk.emit (Event.review pr.number issue_number v.round v.verdict))

  -- `_escalate_invalid_verdict`: evidence first
  unfoldable pub escalate_invalid_verdict :
      PullRequest → ℕ → ℕ → Message → Message → String → Exec Fault H Verdict
  unfolding publish push_evidence_files
  escalate_invalid_verdict pr issue_number round_number reason bundle_url transcript = do
    raw ← gets desk.raw_proposal
    push_evidence_files desk (prefix_of issue_number round_number pr "-invalid")
        (File.recorded none reason ∷ if_text File.proposal raw ++ if_any File.transcript transcript)
    let v = escalated round_number (lit "invalid verdict: " ∷ reason) bundle_url
    publish pr issue_number v
    pure v

  -- `_escalate_identity_failure`
  unfoldable pub escalate_identity_failure :
      PullRequest → ℕ → ℕ → Message → Message → String → Exec Fault H Verdict
  unfolding publish push_evidence_files
  escalate_identity_failure pr issue_number round_number reason bundle_url transcript = do
    push_evidence_files desk (prefix_of issue_number round_number pr "-identity")
        (File.recorded none reason ∷ if_any File.transcript transcript)
    let v = escalated round_number (lit "identity failure: " ∷ reason) bundle_url
    publish pr issue_number v
    pure v

  -- `_record_schema_skew`: evidence alone, nothing on GitHub
  unfoldable pub record_schema_skew :
      PullRequest → ℕ → ℕ → Message → List (String × String) → Exec Fault H (Unit {0})
  unfolding push_evidence_files
  record_schema_skew pr issue_number round_number error trusted_input = do
    manifest ← gets desk.manifest_text
    status ← gets desk.status_text
    transcript ← gets desk.read_transcript
    push_evidence_files desk (prefix_of issue_number round_number pr "-infra") (
        File.recorded none error ∷ if_text File.manifest manifest
        ++ if_text File.status status
        ++ if_any File.transcript transcript
        ++ map input_file trusted_input)
