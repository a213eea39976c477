-- ===== src/Janitor/Tests.antt =====
-- Runs of the janitor against a small service, and instances of the theorems on them.
use the_ozolith.Common.{
  ℕ, String, ◌≡◌, refl, Bool, true, false, Option, none, some, List, [], ◌∷◌, if◌then◌else◌, ◌==◌,
  nat_eq, string_eq, pair_eq, triple_eq, list_eq,
}
use the_ozolith.Common.Table.{find, put, delete}
use the_ozolith.Common.Message.{Message, say}
use the_ozolith.Common.Exec.{ok, err, Exec, ◌>>=◌}
use the_ozolith.Deps.{Issue}
use the_ozolith.Store.{fresh}
use the_ozolith.Store.Grants.{GrantRow, record_grant}
use the_ozolith.Store.Events.{LiveClaim, driver_last_seen}
use the_ozolith.Store.Nodes.{node_last_seen}
use the_ozolith.Store.Ledger.{janitor_acted}
use the_ozolith.GitHub.{Client, World, call, query, write}
use the_ozolith.Janitor.Sweep.{sweep_one, last_seen, evidence_landed, any_path, remove_assignees}
use the_ozolith.Janitor.Release.{release_one}
use the_ozolith.Deps.{PullRequest}
use the_ozolith.Store.Flags.{clear_chained_dependent}
use the_ozolith.Janitor.Drift.{BasedOn, drift_one}
use the_ozolith.Janitor.Drifted.{IsOpenDrift, drift_one-IsOpenDrift}
use the_ozolith.Janitor.Evidence.{NotLanded, sweep_one-observed}
use the_ozolith.Janitor.Once.{IsHandled, sweep_one-once}
use the_ozolith.Janitor.Unwound.{Settled, release_one-Settled}

abbrev claimed_seven : Issue
claimed_seven = record {
  number = 7;
  title = "t";
  body = "b";
  labels = "in_progress" ∷ [];
  assignees = "bot" ∷ [];
  is_pr = false;
  state = "open";
  state_reason = "";
  repo = "o/r";
}

abbrev answers_with : {A : Type 0} → A → Exec Message (List ℕ) A
answers_with a g = (ok a, g)

-- a write notes the number that it is for
abbrev noted : ℕ → Exec Message (List ℕ) (Unit {0})
noted n g = (ok tt, n ∷ g)

-- whether the evidence has landed, and whether labels can be added
abbrev service : Bool → Exec Message (List ℕ) (Unit {0}) → Client (List ℕ)
service landed labelling = record {
  repo = "o/r";
  clock = λ g. 100;
  list_open_issues = λ l. answers_with [];
  list_open_prs_by_label = λ l. answers_with [];
  list_open_prs = answers_with [];
  list_blocked_by = λ n. answers_with [];
  get_issue = λ n. answers_with claimed_seven;
  find_open_pr_by_head = λ h. answers_with none;
  find_pr_by_head = λ h. answers_with none;
  default_branch = answers_with [];
  repo_merge_settings = λ g. (err (say "404"), g);
  branch_head = λ h. answers_with none;
  path_exists = λ p. answers_with landed;
  add_assignees = λ n l. noted n;
  remove_assignee = λ n l. noted n;
  add_labels = λ n l. labelling;
  remove_label = λ n l. noted n;
  add_comment = λ n m. noted n;
}

abbrev waiting : Client (List ℕ)
waiting = service false (noted 7)

abbrev arrived : Client (List ℕ)
arrived = service true (noted 7)

abbrev seven : LiveClaim
seven = record {
  repo = "o/r";
  issue = 7;
  driver = "w";
  node = "n1";
  run_id = "r1";
  last_event_at = 10;
}

abbrev begun : World (List ℕ)
begun = record { store = fresh; github = [] }

-- the writes are what is observed
unlanded : NotLanded waiting (λ g. g) seven
unlanded = record {
  issue_read = λ g. refl;
  pr_read = λ g. refl;
  path_read = λ path g. refl;
  no_bundle = (λ g e. absurd (cc e), (λ g e. absurd (cc e), (λ g e. absurd (cc e), tt)));
}

sweep_one-observed_example : [] ≡ (sweep_one waiting 30 seven begun).1.github
sweep_one-observed_example = sweep_one-observed waiting (λ g. g) 30 seven begun unlanded

escalated_run : sweep_one arrived 30 seven begun ≡ (ok true, (sweep_one arrived 30 seven begun).1)
unfolding sweep_one ◌>>=◌ write call query last_seen node_last_seen driver_last_seen find
    janitor_acted evidence_landed any_path remove_assignees
escalated_run = refl

sweep_one-once_example :
    IsHandled arrived seven (sweep_one arrived 30 seven begun).1.store
    × ((later : ℕ)
        → sweep_one arrived later seven (sweep_one arrived 30 seven begun).1
          ≡ (ok false, (sweep_one arrived 30 seven begun).1))
sweep_one-once_example =
    sweep_one-once arrived seven 30 begun (sweep_one arrived 30 seven begun).1 escalated_run

-- labels cannot be added, so the unwind fails at its last call
abbrev broken : Client (List ℕ)
broken = service true (λ g. (err (say "502"), g))

abbrev expired : GrantRow
expired = record {
  repo = "o/r";
  issue = 7;
  grant = record { worker = "w"; node = "n1"; login = "bot"; granted_at = 5 };
}

abbrev granted : World (List ℕ)
granted = record { store = record_grant "o/r" 7 "w" "n1" "bot" 5 fresh; github = [] }

granted_row : find ("o/r", 7) granted.store.grants ≡ some expired.grant
unfolding record_grant find put
granted_row = refl

release_one-Settled_example :
    Settled broken expired granted
      (release_one broken 60 [] expired granted).0
      (release_one broken 60 [] expired granted).1
release_one-Settled_example =
    release_one-Settled broken 60 [] expired expired.grant granted refl refl granted_row

-- the dependent 9 is based on issue 7, whose branch has moved

abbrev dependent : PullRequest
dependent = record {
  number = 9;
  title = "";
  body = "based on 7";
  head_ref = [];
  head_sha = "";
  base_ref = [];
  labels = [];
  state = "open";
  merged = false;
  merge_commit_sha = "";
}

abbrev blocker : PullRequest
blocker = record {
  number = 8;
  title = "";
  body = "";
  head_ref = [];
  head_sha = "";
  base_ref = [];
  labels = [];
  state = "open";
  merged = false;
  merge_commit_sha = "";
}

abbrev zone_of : String → Option BasedOn
zone_of body = if body == "based on 7" then some (record { issue = 7; sha = "aaaa" }) else none

abbrev moved : Client (List ℕ)
moved = record arrived {
  find_pr_by_head = λ h. answers_with (some blocker);
  branch_head = λ h. answers_with (some "bbbb");
}

drift_run :
    drift_one moved zone_of dependent begun ≡ (ok true, (drift_one moved zone_of dependent begun).1)
unfolding drift_one ◌>>=◌ write call janitor_acted clear_chained_dependent delete
drift_run = refl

drift_one-IsOpenDrift_example :
    (based : BasedOn) × (zone_of dependent.body ≡ some based)
    × IsOpenDrift moved dependent based begun.github
        (drift_one moved zone_of dependent begun).1.store
drift_one-IsOpenDrift_example =
    drift_one-IsOpenDrift moved dependent zone_of begun (drift_one moved zone_of dependent begun).1
      drift_run
