-- ===== src/GitHub.antt =====
-- worker/src/theozolith_worker/githubapi.py, as the Control Node calls it. The service behind it is not the
-- program's: its state `G`, and what each call answers and does to it, are parameters. A call may
-- raise GitHubError, whose text is a message; the store's clock is read off the same state.
pub mod Kept
use the_ozolith.Common.Exec.{Result, ok, err, Exec}
use the_ozolith.Common.{
  ℕ, String, Bool, Option, List, nat_eq, string_eq, pair_eq, triple_eq, list_eq,
}
use the_ozolith.Common.Message.{Message}
use the_ozolith.Deps.{Ref, Issue, PullRequest, RepoMergeSettings, Error, github}
use the_ozolith.Store.{Store}

pub record Client (G : Type 0) : Type 0 where
  pub repo : String
  pub clock : G → ℕ
  pub list_open_issues : String → Exec Message G (List Issue)
  pub list_open_prs_by_label : String → Exec Message G (List Issue)
  pub list_open_prs : Exec Message G (List PullRequest)
  pub list_blocked_by : ℕ → Exec Message G (List Issue)
  pub get_issue : ℕ → Exec Message G Issue
  pub find_open_pr_by_head : Ref → Exec Message G (Option PullRequest)
  pub find_pr_by_head : Ref → Exec Message G (Option PullRequest)
  pub default_branch : Exec Message G Ref
  pub repo_merge_settings : Exec Message G RepoMergeSettings
  pub branch_head : Ref → Exec Message G (Option String)
  -- a path of the evidence branch
  pub path_exists : Message → Exec Message G Bool
  pub add_assignees : ℕ → String → Exec Message G (Unit {0})
  pub remove_assignee : ℕ → String → Exec Message G (Unit {0})
  pub add_labels : ℕ → List String → Exec Message G (Unit {0})
  pub remove_label : ℕ → String → Exec Message G (Unit {0})
  pub add_comment : ℕ → Message → Exec Message G (Unit {0})

-- the two states that a routine of the Control Node reads and writes
pub record World (G : Type 0) : Type 0 where
  pub store : Store
  pub github : G

abbrev pub raised {ℓ} : {A : Type ℓ} → Result Message A → Result Error A
raised (ok a) = ok a
raised (err m) = err (github m)

module _ {G A : Type 0} where
  -- a call of the client
  unfoldable pub call : Exec Message G A → Exec Error (World G) A
  call m w = let (r, g) = m w.github in (raised r, record w { github = g })

  -- a read of the store
  unfoldable pub query : (Store → A) → Exec Error (World G) A
  query f w = (ok (f w.store), w)

  -- a store operation that answers, at the clock's reading
  unfoldable pub update_with : (G → ℕ) → (ℕ → Store → A × Store) → Exec Error (World G) A
  update_with clock op w =
      let (a, s) = op (clock w.github) w.store in (ok a, record w { store = s })

module _ {G : Type 0} where
  -- a store operation, at the clock's reading
  unfoldable pub write : (G → ℕ) → (ℕ → Store → Store) → Exec Error (World G) (Unit {0})
  write clock op w = (ok tt, record w { store = op (clock w.github) w.store })
