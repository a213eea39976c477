-- ===== src/Review.antt =====
-- worker/src/theozolith_worker/reviewer.py: the review of a pull request, one round at a time. The
-- records, and the interface Desk of what the driver calls, over the state `H` of its world: the
-- client of GitHub, git, the job directory, the container session and the sink of events.
pub mod Base
pub mod Proposal
pub mod Inputs
pub mod Publish
pub mod Round
pub mod Outcome
pub mod Sound
pub mod Labelled
pub mod Progress
pub mod Unwritten
pub mod Budget
mod Sample
mod Tests
use the_ozolith.Common.{ℕ, String, Bool, Option, List}
use the_ozolith.Common.Message.{Message}
use the_ozolith.Common.Exec.{Result, Exec}
use the_ozolith.Deps.{Ref, Issue, PullRequest, DependencyClosure}
use the_ozolith.GitHub.{Client}

-- what a routine of the driver may raise, as far as the review tells it apart
pub data Fault : Type 0 where
  git_error github_error judge_isolation_error session_error os_error : Message → Fault
  cycle_error : List ℕ → Fault
  cross_repo_error : ℕ → String → Fault
  -- any other exception, by the name of its class
  other : String → Message → Fault

pub data VerdictKind : Type 0 where
  approve revise escalate : VerdictKind

-- process issues, which no decision consults, are left out
pub record Verdict : Type 0 where
  pub verdict : VerdictKind
  pub round : ℕ
  pub evidence : Message
  pub deviation : Option String
  pub risk : Option String
  pub revised_plan : String
  pub resume_commit : String
  pub cherry_pick : List String
  pub bundle_url : Message

-- the fields of a proposal whose shape was checked
pub record Fields : Type 0 where
  pub verdict : VerdictKind
  pub evidence : String
  pub deviation : Option String
  pub risk : Option String
  pub revised_plan : String
  pub resume_commit : String
  pub cherry_pick : List String

-- the blocker that a pull request is based on, and the tip of its branch at checkout
pub record BasedOn : Type 0 where
  pub issue : ℕ
  pub sha : String

-- a file of the facts that the driver supplies, and what it is rendered from
pub data Fact : Type 0 where
  base : PullRequest → String → Option BasedOn → Fact
  changed_files : String → Fact
  signals : String → String → Fact

-- what the prompt needs of the inputs
pub record ReviewInputs : Type 0 where
  pub issue : Issue
  pub based_on : Option BasedOn
  pub has_deps : Bool

pub record Manifest : Type 0 where
  pub run_id : Message
  pub round : ℕ
  pub round_budget : ℕ

-- a file of the evidence branch: its path under the prefix of the record, and which text it holds
pub data File : Type 0 where
  recorded : Option VerdictKind → Message → File
  proposal transcript manifest status : String → File
  input : String → String → File

pub data Event : Type 0 where
  error : String → Message → Event
  review : ℕ → ℕ → ℕ → VerdictKind → Event

pub record Desk (H : Type 0) : Type 0 where
  pub client : Client H
  pub get_pull : ℕ → Exec Message H PullRequest
  pub review_targets : H → Option (List ℕ) × H
  -- `EventSink.emit`, which never raises
  pub emit : Event → H → Unit {0} × H
  -- `evidence.push_bundle`: the prefix, and the files under it
  pub push_bundle : Message → List File → Exec Fault H (Unit {0})
  -- the job directory of a review, by its id
  pub create_job_dir : Message → Exec Fault H (Unit {0})
  pub remove_job_dir : Message → H → Unit {0} × H
  pub job_exists : Message → H → Bool
  pub capture_input_snapshot : Message → Exec Fault H (List (String × String))
  pub discard_input_snapshot : Message → Exec Fault H (Unit {0})
  pub write_prompt : ReviewInputs → String → ℕ → ℕ → Exec Fault H (Unit {0})
  pub write_manifest : Manifest → Exec Fault H (Unit {0})
  -- a text of the job directory, if it can be read
  pub read_transcript : H → String
  pub raw_proposal : H → Option String
  pub manifest_text : H → Option String
  pub status_text : H → Option String
  -- `proposal.read_document` and the checks of its shape, for a round
  pub read_fields : ℕ → H → Result Message Fields
  -- git, in the checkout
  pub clone_with_mirror : Ref → Exec Fault H (Unit {0})
  pub sanitize_checkout : Exec Fault H (Unit {0})
  pub reset_hard : String → Exec Fault H (Unit {0})
  pub fetch : Ref → Exec Fault H (Unit {0})
  pub merge_base : Ref → Exec Fault H String
  pub diff : String → String → Exec Fault H String
  -- the paths that `_agent_config_artifacts` lists
  pub agent_config_artifacts : Exec Fault H (List String)
  pub is_symlink : String → H → Bool
  pub is_dir : String → H → Bool
  pub unlink : String → Exec Fault H (Unit {0})
  pub rmtree : String → Exec Fault H (Unit {0})
  -- `basedon.parse_zone`
  pub parse_zone : String → Option BasedOn
  -- the context tree of the issue, its pull request and its blockers
  pub fetch_snapshot : ℕ → PullRequest → Exec Fault H Issue
  pub git_pr_commits : Ref → Exec Fault H (List String)
  pub write_tree : Issue → List String → Exec Fault H (Unit {0})
  pub fetch_deps : DependencyClosure → ℕ → Exec Fault H (List String)
  pub write_deps : List String → DependencyClosure → Exec Fault H (Unit {0})
  pub write_fact : Fact → Exec Fault H (Unit {0})
  -- the container session
  pub session_factory : Manifest → Exec Fault H ℕ
  pub launch : ℕ → Exec Fault H (Unit {0})
  pub wait_for_agent : ℕ → Exec Fault H (Unit {0})
  pub finish : ℕ → Exec Fault H (Unit {0})
  -- the anchored markers of a session's error
  pub identity_error_detail : Message → Option Message
  pub schema_error_detail : Message → Option Message
