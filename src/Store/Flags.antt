-- ===== src/Store/Flags.antt =====
-- store.py: the advisory rows of the dashboard: zombie flags, malformed states, waits, chained
-- dependents and dispatch pauses.
use the_ozolith.Common.{
  ℕ, String, Option, none, some, List, [], ◌∷◌, if◌then◌else◌, ◌==◌, nat_eq, string_eq, pair_eq,
  triple_eq,
}
use the_ozolith.Common.Table.{Table, find, put, delete}
use the_ozolith.Common.Message.{Message}
use the_ozolith.Common.Order.{order_by, key_le}
use the_ozolith.Store.{Store, Advisory, ZombieFlag, ChainedRow}

abbrev flag_or : ZombieFlag → Option ZombieFlag → ZombieFlag
flag_or f none = f
flag_or f (some old) = old

-- INSERT OR IGNORE
unfoldable pub flag_zombie : String → ℕ → String → String → String → ℕ → Store → Store
flag_zombie repo issue run_id worker node now s = record s {
  zombie_flags =
      put (repo, issue, run_id) (flag_or flag (find (repo, issue, run_id) s.zombie_flags))
        s.zombie_flags;
}
  where
    flag : ZombieFlag
    flag = record { worker = worker; node = node; flagged_at = now }

unfoldable pub clear_zombie_flag : String → ℕ → String → Store → Store
clear_zombie_flag repo issue run_id s = record s {
  zombie_flags = delete (repo, issue, run_id) s.zombie_flags;
}

-- the row of an upsert: `first_seen` stays, `detail` and `last_seen` are new
abbrev pub seen_again : Message → ℕ → Option Advisory → Advisory
seen_again detail now none = record { detail = detail; first_seen = now; last_seen = now }
seen_again detail now (some old) = record old { detail = detail; last_seen = now }

-- the issues with a row in one repo, in the order of the key
issues_of : String → Table (String × ℕ) Advisory → List (String × ℕ)
issues_of repo [] = []
issues_of repo (((r, i), a) ∷ t) =
    let rest = issues_of repo t in if r == repo then (r, i) ∷ rest else rest

second : List (String × ℕ) → List ℕ
second [] = []
second ((r, i) ∷ l) = i ∷ second l

unfoldable pub record_malformed : String → ℕ → Message → ℕ → Store → Store
record_malformed repo issue detail now s = record s {
  malformed_states =
      put (repo, issue) (seen_again detail now (find (repo, issue) s.malformed_states))
        s.malformed_states;
}

unfoldable pub clear_malformed : String → ℕ → Store → Store
clear_malformed repo issue s = record s {
  malformed_states = delete (repo, issue) s.malformed_states;
}

-- `[row["issue"] for row in malformed_states(repo)]`
unfoldable pub malformed_issues : String → Store → List ℕ
unfolding issues_of second
malformed_issues repo s = second (order_by key_le (issues_of repo s.malformed_states))

unfoldable pub record_wait : String → ℕ → Message → ℕ → Store → Store
record_wait repo issue reason now s = record s {
  dispatch_waits =
      put (repo, issue) (seen_again reason now (find (repo, issue) s.dispatch_waits))
        s.dispatch_waits;
}

unfoldable pub clear_wait : String → ℕ → Store → Store
clear_wait repo issue s = record s { dispatch_waits = delete (repo, issue) s.dispatch_waits }

-- `[row["issue"] for row in dispatch_waits(repo)]`
unfoldable pub waiting_issues : String → Store → List ℕ
unfolding issues_of second
waiting_issues repo s = second (order_by key_le (issues_of repo s.dispatch_waits))

abbrev first_seen_or : ℕ → Option ChainedRow → ℕ
first_seen_or now none = now
first_seen_or now (some old) = old.first_seen

unfoldable pub record_chained_dependent : String → ℕ → ℕ → ℕ → String → String → ℕ → Store → Store
record_chained_dependent repo dependent_pr blocker_issue blocker_pr state sha now s = record s {
  chained_dependents = put (repo, dependent_pr) row s.chained_dependents;
}
  where
    row : ChainedRow
    row = record {
      blocker_issue = blocker_issue;
      blocker_pr = blocker_pr;
      blocker_state = state;
      recorded_sha = sha;
      first_seen = first_seen_or now (find (repo, dependent_pr) s.chained_dependents);
      last_seen = now;
    }

unfoldable pub clear_chained_dependent : String → ℕ → Store → Store
clear_chained_dependent repo dependent_pr s = record s {
  chained_dependents = delete (repo, dependent_pr) s.chained_dependents;
}

dependents_of : String → Table (String × ℕ) ChainedRow → List (String × ℕ)
dependents_of repo [] = []
dependents_of repo (((r, i), a) ∷ t) =
    let rest = dependents_of repo t in if r == repo then (r, i) ∷ rest else rest

-- `[row["dependent_pr"] for row in chained_dependents(repo)]`
unfoldable pub chained_prs : String → Store → List ℕ
unfolding dependents_of second
chained_prs repo s = second (order_by key_le (dependents_of repo s.chained_dependents))

unfoldable pub record_dispatch_pause : String → Message → ℕ → Store → Store
record_dispatch_pause repo reason now s = record s {
  dispatch_pauses =
      put repo (seen_again reason now (find repo s.dispatch_pauses)) s.dispatch_pauses;
}

unfoldable pub clear_dispatch_pause : String → Store → Store
clear_dispatch_pause repo s = record s { dispatch_pauses = delete repo s.dispatch_pauses }
