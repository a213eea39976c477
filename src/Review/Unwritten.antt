-- ===== src/Review/Unwritten.antt =====
-- reviewer.py: what a round that gives no verdict leaves of GitHub.
use the_ozolith.Common.{
  ℕ, String, ◌≡◌, inl, inr, Bool, true, false, Option, none, some, List, [], ◌∷◌, leb, Bool-cases,
  nat_eq, string_eq, pair_eq, triple_eq, list_eq,
}
use the_ozolith.Common.Message.{Message}
use the_ozolith.Common.Exec.{Result, ok, err, Exec}
use the_ozolith.Common.Keeps.{Preorder, Keeps}
use the_ozolith.Common.Steady.{Steady, Steady-pure, Steady-raise, Steady-bind, steady_rules}
use the_ozolith.Deps.{Ref, Issue, PullRequest, DependencyClosure}
use the_ozolith.Deps.Walk.Kept.{Keeps-walk_closure}
use the_ozolith.Deps.Branch.{issue_for_branch}
use the_ozolith.Review.{Fault, Verdict, Fact, ReviewInputs, Event, Desk}
use the_ozolith.Review.Base.{ask, each}
use the_ozolith.Review.Inputs.{
  checkout_pr, not_removed, remove_artifact, if_clean, neutralize_agent_config, edges_of, closure,
  materialize_deps, materialize_inputs,
}
use the_ozolith.Review.Outcome.{
  Steady-gets, Quiet, Quiet-Steady, Quiet-bind, Quiet-finally, Quiet-Loud, Loud, Loud-some,
  Loud-bind,
}
use the_ozolith.Review.Publish.{round_budget}
use the_ozolith.Review.Round.{
  conclude, unavailable, inputs_or_none, after_wait, session, discard, round, rounds_spent,
  review_issue, review_pr,
}

module _ {H : Type 0} (desk : Desk H) where
  -- the calls that write nothing to GitHub keep a relation
  pub record Reads (R : Preorder H) : Type 1 where
    pub listed : (n : ℕ) → Keeps R (desk.client.list_blocked_by n)
    pub emitted : (e : Event) (h : H) → R.Rel h (desk.emit e h).1
    pub created : (id : Message) → Keeps R (desk.create_job_dir id)
    pub removed_job : (id : Message) (h : H) → R.Rel h (desk.remove_job_dir id h).1
    pub discarded : (id : Message) → Keeps R (desk.discard_input_snapshot id)
    pub cloned : (head : Ref) → Keeps R (desk.clone_with_mirror head)
    pub sanitized : Keeps R desk.sanitize_checkout
    pub reset : (sha : String) → Keeps R (desk.reset_hard sha)
    pub fetched : (base : Ref) → Keeps R (desk.fetch base)
    pub merged : (base : Ref) → Keeps R (desk.merge_base base)
    pub diffed : (option commit : String) → Keeps R (desk.diff option commit)
    pub artifacts : Keeps R desk.agent_config_artifacts
    pub unlinked : (path : String) → Keeps R (desk.unlink path)
    pub removed : (path : String) → Keeps R (desk.rmtree path)
    pub snapshot : (n : ℕ) (pr : PullRequest) → Keeps R (desk.fetch_snapshot n pr)
    pub commits : (base : Ref) → Keeps R (desk.git_pr_commits base)
    pub tree : (i : Issue) (lines : List String) → Keeps R (desk.write_tree i lines)
    pub deps : (c : DependencyClosure) (n : ℕ) → Keeps R (desk.fetch_deps c n)
    pub deps_tree :
        (lines : List String) (c : DependencyClosure) → Keeps R (desk.write_deps lines c)
    pub fact : (f : Fact) → Keeps R (desk.write_fact f)

  module _ (R : Preorder H) (reads : Reads R) where
    steady : {A : Type 0} {m : Exec Fault H A} → Keeps R m → Steady R m
    steady k = record { at = k }

    Steady-emit : (e : Event) → Steady R (ask (desk.emit e))
    unfolding ask
    Steady-emit e = record { at = reads.emitted e }

    Steady-remove_job : (id : Message) → Steady R (ask (desk.remove_job_dir id))
    unfolding ask
    Steady-remove_job id = record { at = reads.removed_job id }

    Steady-checkout_pr : (pr : PullRequest) → Steady R (checkout_pr desk pr)
    unfolding checkout_pr
    Steady-checkout_pr pr =
        search
          (
            steady_rules, steady, reads.cloned, reads.sanitized, reads.reset, reads.fetched,
            reads.merged,
          )
          depth 24

    Steady-not_removed : (path : String) (e : Fault) → Steady R (not_removed desk path e)
    Steady-not_removed path (Fault.os_error m) = Steady-raise _
    Steady-not_removed path (Fault.git_error m) = Steady-raise _
    Steady-not_removed path (Fault.github_error m) = Steady-raise _
    Steady-not_removed path (Fault.judge_isolation_error m) = Steady-raise _
    Steady-not_removed path (Fault.session_error m) = Steady-raise _
    Steady-not_removed path (Fault.cycle_error p) = Steady-raise _
    Steady-not_removed path (Fault.cross_repo_error n repo) = Steady-raise _
    Steady-not_removed path (Fault.other name m) = Steady-raise _

    Steady-remove_artifact : (path : String) → Steady R (remove_artifact desk path)
    Steady-remove_artifact path =
        search
          (steady_rules, steady, Steady-gets R, Steady-not_removed, reads.unlinked, reads.removed)
          depth 24

    Steady-each :
        {A : Type 0} (body : A → Exec Fault H (Unit {0})) (xs : List A)
        → ((x : A) → Steady R (body x))
        → Steady R (each body xs)
    unfolding each
    Steady-each body [] k = Steady-pure tt
    Steady-each body (x ∷ xs) k = Steady-bind _ _ (k x) (λ _. Steady-each body xs k)

    Steady-if_clean : (paths : List String) → Steady R (if_clean desk paths)
    Steady-if_clean [] = Steady-pure tt
    Steady-if_clean (path ∷ paths) = Steady-raise _

    Steady-neutralize : Steady R (neutralize_agent_config desk)
    unfolding neutralize_agent_config
    Steady-neutralize =
        search
          (
            steady_rules, steady, reads.artifacts, Steady-each, Steady-remove_artifact,
            Steady-if_clean,
          )
          depth 24

    Steady-closure : (fuel n : ℕ) → Steady R (closure desk fuel n)
    Steady-closure fuel n = record {
      at = Keeps-walk_closure R desk.client.repo (edges_of desk) (λ k h. reads.listed k h) fuel n;
    }

    Steady-deps :
        (c : DependencyClosure) (n : ℕ) (some_deps : Bool)
        → Steady R (materialize_deps desk c n some_deps)
    Steady-deps c n true = search (steady_rules, steady, reads.deps, reads.deps_tree) depth 12
    Steady-deps c n false = Steady-pure tt

    Steady-materialize :
        (fuel : ℕ) (pr : PullRequest) (n : ℕ) (base : String)
        → Steady R (materialize_inputs desk fuel pr n base)
    unfolding materialize_inputs
    Steady-materialize fuel pr n base =
        search
          (
            steady_rules, steady, reads.diffed, reads.snapshot, reads.commits, Steady-closure,
            reads.tree, Steady-deps, reads.fact,
          )
          depth 40

    Steady-unavailable : (pr : PullRequest) (e : Fault) → Steady R (unavailable desk pr e)
    Steady-unavailable pr e = search (steady_rules, Steady-emit) depth 12

    Steady-inputs : (fuel : ℕ) (pr : PullRequest) (n : ℕ) → Steady R (inputs_or_none desk fuel pr n)
    Steady-inputs fuel pr n =
        search
          (
            steady_rules, Steady-checkout_pr, Steady-neutralize, Steady-materialize,
            Steady-unavailable,
          )
          depth 24

    Steady-discard : (pr : PullRequest) (n : ℕ) → Steady R (discard desk pr n)
    Steady-discard pr n =
        search (steady_rules, steady, Steady-gets R, Steady-remove_job, reads.discarded) depth 24

  Loud-conclude :
      (pr : PullRequest) (n k : ℕ) (transcript : String) (r : Result Message Verdict)
      → Loud (conclude desk pr n k transcript r)
  Loud-conclude pr n k transcript (ok v) = search (Loud-bind, Loud-some) depth 12
  Loud-conclude pr n k transcript (err reason) = search (Loud-bind, Loud-some) depth 12

  Loud-after_wait :
      (pr : PullRequest) (n k : ℕ) (early : Option Verdict) → Loud (after_wait desk pr n k early)
  Loud-after_wait pr n k (some v) = Loud-some v
  Loud-after_wait pr n k none = search (Loud-bind, Loud-conclude) depth 12

  module _ (R : Preorder H) (reads : Reads R) where
    Quiet-session :
        (pr : PullRequest) (n k : ℕ) (inputs : Option ReviewInputs)
        → Quiet R (session desk pr n k inputs)
    Quiet-session pr n k none = Quiet-Steady _ (Steady-pure none)
    Quiet-session pr n k (some inputs) = Quiet-Loud _ (search (Loud-bind, Loud-after_wait) depth 12)

    Quiet-round : (fuel : ℕ) (pr : PullRequest) (n k : ℕ) → Quiet R (round desk fuel pr n k)
    Quiet-round fuel pr n k =
        Quiet-bind _ _ (record { at = reads.created _ })
          (λ _.
            Quiet-finally _ _
              (Quiet-bind _ _ (Steady-inputs R reads fuel pr n) (Quiet-session pr n k))
              (Steady-discard R reads pr k))

    Quiet-issue :
        (fuel : ℕ) (pr : PullRequest) (issue : Option ℕ) → Quiet R (review_issue desk fuel pr issue)
    Quiet-issue fuel pr none = Quiet-Steady _ (Steady-pure none)
    Quiet-issue fuel pr (some n) = elim (Bool-cases (leb round_budget (rounds_spent pr))) [
      | inl spent ↦ rw spent (Quiet-Loud _ (search (Loud-bind, Loud-some) depth 12))
      | inr left ↦ rw left (Quiet-round fuel pr n _)
    ]

    -- No verdict, no trace: a pull request that is skipped, because its branch is not of the pipeline
    -- or because the inputs of its round are unavailable, is left as it was: whatever the calls that
    -- write nothing to GitHub keep, the review keeps.
    pub review_pr-Unwritten :
        (fuel : ℕ) (pr : PullRequest) (h : H)
        → (review_pr desk fuel pr h).0 ≡ ok none
        → R.Rel h (review_pr desk fuel pr h).1
    unfolding review_pr
    review_pr-Unwritten fuel pr h e = (Quiet-issue fuel pr (issue_for_branch pr.head_ref)).quiet h e
