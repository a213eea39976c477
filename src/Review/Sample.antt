-- ===== src/Review/Sample.antt =====
-- A small desk, on which rounds of review are run.
use the_ozolith.Common.{
  ℕ, suc, String, true, false, none, List, [], ◌∷◌, nat_eq, string_eq, pair_eq, triple_eq, list_eq,
}
use the_ozolith.Common.Message.{Message, lit, num}
use the_ozolith.Common.Exec.{ok, err, Exec}
use the_ozolith.Deps.{Issue, PullRequest}
use the_ozolith.Deps.Branch.{branch_for}
use the_ozolith.GitHub.{Client}
use the_ozolith.Review.{Fault, revise, Verdict, Fields, Desk}

-- what was written to GitHub, and how often anything else was called
abbrev pub Small : Type 0
Small = List String × ℕ

abbrev pub worked : {E A : Type 0} → A → Exec E Small A
worked a (lines, n) = (ok a, (lines, suc n))

abbrev pub wrote : String → Exec Message Small (Unit {0})
wrote line (lines, n) = (ok tt, (line ∷ lines, n))

abbrev pub reviewed_issue : Issue
reviewed_issue = record {
  number = 7;
  title = "t";
  body = "b";
  labels = "in_progress" ∷ [];
  assignees = "worker" ∷ [];
  is_pr = false;
  state = "open";
  state_reason = "";
  repo = "o/r";
}

abbrev pub reviewed_pr : List String → PullRequest
reviewed_pr labels = record {
  number = 70;
  title = "t";
  body = "b";
  head_ref = branch_for 7;
  head_sha = "abc";
  base_ref = [];
  labels = labels;
  state = "open";
  merged = false;
  merge_commit_sha = "";
}

abbrev pub first_of : List String → String
first_of [] = "label"
first_of (label ∷ labels) = label

abbrev pub service : Client Small
service = record {
  repo = "o/r";
  clock = λ s. 0;
  list_open_issues = λ label. worked [];
  list_open_prs_by_label = λ label. worked [];
  list_open_prs = worked [];
  list_blocked_by = λ n. worked [];
  get_issue = λ n. worked reviewed_issue;
  find_open_pr_by_head = λ head. worked none;
  find_pr_by_head = λ head. worked none;
  default_branch = worked [];
  repo_merge_settings = worked (record {
    merge_commit_allowed = true;
    squash_allowed = false;
    rebase_allowed = false;
    delete_branch_on_merge = true;
    complete = true;
  });
  branch_head = λ head. worked none;
  path_exists = λ path. worked true;
  add_assignees = λ n login. wrote "assign";
  remove_assignee = λ n login. wrote "unassign";
  add_labels = λ n labels. wrote (first_of labels);
  remove_label = λ n label. wrote "unlabel";
  add_comment = λ n text. wrote "comment";
}

-- the session proposes a revision
abbrev pub proposed : Fields
proposed = record {
  verdict = revise;
  evidence = "it fails";
  deviation = none;
  risk = none;
  revised_plan = "again";
  resume_commit = "";
  cherry_pick = [];
}

abbrev pub small : Desk Small
small = record {
  client = service;
  get_pull = λ n. worked (reviewed_pr []);
  review_targets = λ s. (none, s);
  emit = λ e s. (tt, s);
  push_bundle = λ prefix files s. (ok tt, s);
  create_job_dir = λ id. worked tt;
  remove_job_dir = λ id s. (tt, s);
  job_exists = λ id s. false;
  capture_input_snapshot = λ id. worked [];
  discard_input_snapshot = λ id. worked tt;
  write_prompt = λ inputs sha round budget. worked tt;
  write_manifest = λ m. worked tt;
  read_transcript = λ s. "said";
  raw_proposal = λ s. none;
  manifest_text = λ s. none;
  status_text = λ s. none;
  read_fields = λ round s. ok proposed;
  clone_with_mirror = λ head. worked tt;
  sanitize_checkout = worked tt;
  reset_hard = λ sha. worked tt;
  fetch = λ base. worked tt;
  merge_base = λ base. worked "base";
  diff = λ option commit. worked "";
  agent_config_artifacts = worked [];
  is_symlink = λ path s. false;
  is_dir = λ path s. false;
  unlink = λ path. worked tt;
  rmtree = λ path. worked tt;
  parse_zone = λ body. none;
  fetch_snapshot = λ n pr. worked reviewed_issue;
  git_pr_commits = λ base. worked [];
  write_tree = λ i lines. worked tt;
  fetch_deps = λ c n. worked [];
  write_deps = λ lines c. worked tt;
  write_fact = λ f. worked tt;
  session_factory = λ m. worked 1;
  launch = λ id. worked tt;
  wait_for_agent = λ id. worked tt;
  finish = λ id. worked tt;
  identity_error_detail = λ m. none;
  schema_error_detail = λ m. none;
}

abbrev pub broken : Desk Small
broken = record small { clone_with_mirror = λ head s. (err (Fault.git_error []), s) }

-- one round is spent, so a revision is left; the budget is spent
abbrev pub after_one : PullRequest
after_one = reviewed_pr ("attempt-1" ∷ "pr_ready" ∷ [])

abbrev pub after_three : PullRequest
after_three = reviewed_pr ("attempt-1" ∷ "attempt-3" ∷ [])

abbrev pub revised : Verdict
revised = record {
  verdict = revise;
  round = 2;
  evidence = lit "it fails" ∷ [];
  deviation = none;
  risk = none;
  revised_plan = "again";
  resume_commit = "abc";
  cherry_pick = [];
  bundle_url =
      lit "https://github.com/"
      ∷ lit "o/r"
      ∷ lit "/tree/theozolith/evidence/runs/issue-"
      ∷ num 7
      ∷ [];
}
