-- ===== src/Review/Proposal.antt =====
-- worker/src/theozolith_worker/proposal.py: the checks by which a proposal becomes a verdict.
use the_ozolith.Common.{
  ℕ, String, Bool, false, not, ◌&&◌, ◌||◌, Option, none, some, List, [], ◌∷◌, leb, if◌then◌else◌,
  ◌==◌, nat_eq, string_eq, pair_eq, triple_eq, list_eq, contains,
}
use the_ozolith.Common.Message.{Message, say}
use the_ozolith.Common.Exec.{Result, ok, err}
use Prim.Native.Char.{code}
use the_ozolith.Review.{VerdictKind, approve, revise, escalate, Verdict, Fields}

-- GRADES
abbrev pub grades : List String
grades = "low" ∷ "medium" ∷ "high" ∷ []

abbrev pub is_grade : Option String → Bool
is_grade none = false
is_grade (some grade) = contains grades grade

abbrev between : ℕ → ℕ → ℕ → Bool
between a b c = leb a c && leb c b

-- the characters that `str.strip` takes off
abbrev is_space : ℕ → Bool
is_space c =
    between 9 13 c
    || between 28 32 c
    || c == 133
    || c == 160
    || c == 5760
    || between 8192 8202 c
    || between 8232 8233 c
    || c == 8239
    || c == 8287
    || c == 12288

unfoldable pub lstrip : String → String
lstrip String.[] = ""
lstrip (String.◌∷◌ c s) = let rest = lstrip s in if is_space (code c) then rest else String.◌∷◌ c s

unfoldable pub rstrip : String → String
rstrip String.[] = ""
rstrip (String.◌∷◌ c s) =
    let rest = rstrip s in if is_space (code c) && rest == "" then "" else String.◌∷◌ c rest

abbrev pub strip : String → String
strip s = lstrip (rstrip s)

abbrev pub or_default : String → String → String
or_default s default = if s == "" then default else s

abbrev pub kept_grade : Option String → Option String
kept_grade g = if is_grade g then g else none

unfoldable pub non_empty : List String → List String
non_empty [] = []
non_empty (sha ∷ shas) = let rest = non_empty shas in if sha == "" then rest else sha ∷ rest

abbrev pub kind_errors : Bool → Fields → VerdictKind → Option Message
kind_errors final_round f approve =
    if not (is_grade f.deviation)
    then some (say "approve requires deviation in low, medium, high")
    else if not (is_grade f.risk)
    then some (say "approve requires risk in low, medium, high")
    else none
kind_errors final_round f revise =
    if final_round
    then some
        (say "final-round rule: a revise would commission a Run with no remaining review round")
    else if strip f.revised_plan == ""
    then some (say "revise requires a non-empty revised-plan")
    else none
kind_errors final_round f escalate = none

abbrev pub verdict_of : ℕ → String → Message → Fields → Verdict
verdict_of round_number default_resume bundle_url f = record {
  verdict = f.verdict;
  round = round_number;
  evidence = say (strip f.evidence);
  deviation = kept_grade f.deviation;
  risk = kept_grade f.risk;
  revised_plan = f.revised_plan;
  resume_commit = or_default f.resume_commit default_resume;
  cherry_pick = non_empty f.cherry_pick;
  bundle_url = bundle_url;
}

abbrev pub judged : Verdict → Option Message → Result Message Verdict
judged v none = ok v
judged v (some reason) = err reason

unfoldable pub validate_review :
    ℕ → Bool → String → Message → Result Message Fields → Result Message Verdict
validate_review round_number final_round default_resume bundle_url (err problem) = err problem
validate_review round_number final_round default_resume bundle_url (ok f) =
    judged (verdict_of round_number default_resume bundle_url f)
      (kind_errors final_round f f.verdict)
