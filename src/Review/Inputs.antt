-- ===== src/Review/Inputs.antt =====
-- reviewer.py: the checkout of a pull request, its clearing of agent-instruction artifacts, and the
-- inputs of the session.
use the_ozolith.Common.{
  ℕ, String, Bool, true, false, not, ◌||◌, Option, none, some, List, [], ◌∷◌, ltb, if◌then◌else◌,
  length, ◌==◌, nat_eq, string_eq, pair_eq, triple_eq, list_eq,
}
use the_ozolith.Common.Message.{lit, say}
use the_ozolith.Common.Exec.{Exec, pure, raise, gets, ◌>>=◌, ◌>>◌, catch}
use the_ozolith.Deps.{Error, Ref, Issue, PullRequest, DependencyClosure}
use the_ozolith.Deps.Branch.{branch_for}
use the_ozolith.Deps.Walk.{walk_closure}
use the_ozolith.GitHub.{raised}
use the_ozolith.Review.{Fault, BasedOn, Fact, ReviewInputs, Desk}
use the_ozolith.Review.Base.{of_edges, mapped, each, skip}

-- a zone that the retargeting of the pull request left behind is ignored
abbrev pub live_zone : Ref → Option BasedOn → Option BasedOn
live_zone base_ref none = none
live_zone base_ref (some b) = if base_ref == branch_for b.issue then some b else none

module _ {H : Type 0} (desk : Desk H) where
  -- `_checkout_pr`: the base commit
  unfoldable pub checkout_pr : PullRequest → Exec Fault H String
  checkout_pr pr = do
    desk.clone_with_mirror pr.head_ref
    desk.sanitize_checkout
    desk.reset_hard pr.head_sha
    desk.fetch pr.base_ref
    desk.merge_base pr.base_ref

  abbrev pub not_removed : String → Fault → Exec Fault H (Unit {0})
  not_removed path (Fault.os_error m) = raise (
      Fault.judge_isolation_error
        (lit "cannot remove agent-instruction artifact " ∷ lit path ∷ lit ": " ∷ m))
  not_removed path e = raise e

  -- a symlink is unlinked, never followed
  abbrev pub remove_artifact : String → Exec Fault H (Unit {0})
  remove_artifact path =
      catch
        (do
          linked ← gets (λ h. desk.is_symlink path h || not (desk.is_dir path h))
          if linked then desk.unlink path else desk.rmtree path)
        (not_removed path)

  abbrev pub if_clean : List String → Exec Fault H (Unit {0})
  if_clean [] = skip
  if_clean (path ∷ paths) =
      raise (Fault.judge_isolation_error (say "agent-instruction artifacts survived removal"))

  -- `_neutralize_agent_config`
  unfoldable pub neutralize_agent_config : Exec Fault H (Unit {0})
  unfolding each
  neutralize_agent_config = do
    found ← desk.agent_config_artifacts
    each remove_artifact found
    leftovers ← desk.agent_config_artifacts
    if_clean leftovers

  abbrev pub edges_of : ℕ → Exec Error H (List Issue)
  edges_of n h = let (r, h') = desk.client.list_blocked_by n h in (raised r, h')

  -- the walk of the Dependency Edges, by the service's answers
  abbrev pub closure : ℕ → ℕ → Exec Fault H DependencyClosure
  closure fuel n h =
      let (r, h') = walk_closure desk.client.repo edges_of fuel n h in (mapped of_edges r, h')

  abbrev pub materialize_deps : DependencyClosure → ℕ → Bool → Exec Fault H (Unit {0})
  materialize_deps c n true = do deps ← desk.fetch_deps c n; desk.write_deps deps c
  materialize_deps c n false = skip

  -- `_materialize_inputs`
  unfoldable pub materialize_inputs : ℕ → PullRequest → ℕ → String → Exec Fault H ReviewInputs
  materialize_inputs fuel pr issue_number base_commit = do
    let based_on = live_zone pr.base_ref (desk.parse_zone pr.body)
    name_status ← desk.diff "--name-status" base_commit
    numstat ← desk.diff "--numstat" base_commit
    issue ← desk.fetch_snapshot issue_number pr
    commits ← desk.git_pr_commits pr.base_ref
    c ← closure fuel issue_number
    desk.write_tree issue commits
    let has_deps = ltb 1 (length c.order)
    materialize_deps c issue_number has_deps
    desk.write_fact (Fact.base pr base_commit based_on)
    desk.write_fact (Fact.changed_files name_status)
    desk.write_fact (Fact.signals numstat name_status)
    pure (record { issue = issue; based_on = based_on; has_deps = has_deps })
