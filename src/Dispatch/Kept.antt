-- ===== src/Dispatch/Kept.antt =====
-- dispatch.py: what a granting pass keeps, of a relation on the store that the pass's own operations keep.
pub mod Granting
use the_ozolith.Common.{
  ℕ, String, inl, inr, Option, none, some, List, [], ◌∷◌, Bool-cases, ◌==◌, nat_eq, string_eq,
  pair_eq, triple_eq, list_eq,
}
use the_ozolith.Common.Table.{find}
use the_ozolith.Common.Message.{Message}
use the_ozolith.Common.Exec.{Result, ok, err, Exec, pure, raise}
use the_ozolith.Common.Keeps.{Preorder, Keeps, Keeps-bind, Keeps-pure}
use the_ozolith.Vocabulary.{plan_ready, in_progress}
use the_ozolith.Deps.{
  Ref, Issue, PullRequest, RepoMergeSettings, Error, cycle, cross_repo, github, key_error,
  out_of_fuel, DependencyClosure, Kind, ready, chained, wait, malformed,
}
use the_ozolith.Deps.Walk.{walk_closure}
use the_ozolith.Deps.Walk.Kept.{Keeps-walk_closure}
use the_ozolith.Deps.Resolve.Kept.{Keeps-resolve}
use the_ozolith.Store.{Store}
use the_ozolith.GitHub.{Client, World, call}
use the_ozolith.GitHub.Kept.{on_store, Keeps-call}
use the_ozolith.Dispatch.Reads.{
  Pass, within, blocked_memo, list_blocked_by, pr_memo, find_open_pr_by_head, settings_memo,
  merge_settings, after_walk, lane_of, after_closure, dependency_block, kept_blocked, kept_pr,
  kept_settings,
}
use the_ozolith.Dispatch.Grant.{Answer, github_writes}

-- the relation on the store of a pass
abbrev pub on_pass : {G : Type 0} → Preorder Store → Preorder (Pass G)
on_pass R = record {
  Rel = λ p q. R.Rel p.world.store q.world.store;
  same = λ p. R.same p.world.store;
  along = λ p q r. R.along p.world.store q.world.store r.world.store;
}

module _ {G : Type 0} (R : Preorder Store) where
  Keeps-within :
      {A : Type 0} (m : Exec Error (World G) A)
      → Keeps (on_store R) m
      → Keeps (on_pass R) (within m)
  unfolding within
  Keeps-within m k p = k p.world

  Keeps-read : {A : Type 0} (m : Exec Message G A) → Keeps (on_pass R) (within (call m))
  Keeps-read m = Keeps-within (call m) (Keeps-call R m)

module _ {G : Type 0} (client : Client G) (R : Preorder Store) where
  Keeps-list_blocked_by : (n : ℕ) → Keeps (on_pass R) (list_blocked_by client n)
  unfolding list_blocked_by kept_blocked
  Keeps-list_blocked_by n p = memo_lem (find n p.blocked) p
    where
      memo_lem : (o : Option (List Issue)) → Keeps (on_pass R) (blocked_memo client n o)
      memo_lem (some issues) = Keeps-pure (on_pass R) Error issues
      memo_lem none =
          Keeps-bind (on_pass R) _ _ (Keeps-read R (client.list_blocked_by n))
            (λ issues q. R.same q.world.store)

  Keeps-find_open_pr_by_head : (head : Ref) → Keeps (on_pass R) (find_open_pr_by_head client head)
  unfolding find_open_pr_by_head kept_pr
  Keeps-find_open_pr_by_head head p = memo_lem (find head p.prs) p
    where
      memo_lem : (o : Option (Option PullRequest)) → Keeps (on_pass R) (pr_memo client head o)
      memo_lem (some pr) = Keeps-pure (on_pass R) Error pr
      memo_lem none =
          Keeps-bind (on_pass R) _ _ (Keeps-read R (client.find_open_pr_by_head head))
            (λ pr q. R.same q.world.store)

  Keeps-merge_settings : Keeps (on_pass R) (merge_settings client)
  unfolding merge_settings kept_settings
  Keeps-merge_settings p = memo_lem p.settings p
    where
      memo_lem : (o : Option RepoMergeSettings) → Keeps (on_pass R) (settings_memo client o)
      memo_lem (some settings) = Keeps-pure (on_pass R) Error settings
      memo_lem none =
          Keeps-bind (on_pass R) _ _ (Keeps-read R client.repo_merge_settings)
            (λ settings q. R.same q.world.store)

  Keeps-lane_of : (k : Kind) (reason : Message) → Keeps (on_pass R) (lane_of client k reason)
  Keeps-lane_of malformed reason = Keeps-pure (on_pass R) Error _
  Keeps-lane_of wait reason = Keeps-pure (on_pass R) Error _
  Keeps-lane_of chained reason =
      Keeps-bind (on_pass R) _ _ Keeps-merge_settings (λ s. Keeps-pure (on_pass R) Error _)
  Keeps-lane_of ready reason = Keeps-pure (on_pass R) Error _

  Keeps-after_closure :
      (n : ℕ) (closure : DependencyClosure) → Keeps (on_pass R) (after_closure client n closure)
  Keeps-after_closure n closure = elim (Bool-cases (closure.order == n ∷ [])) [
    | inl alone ↦ rw alone (Keeps-pure (on_pass R) Error none)
    | inr edges ↦ rw edges (
        Keeps-bind (on_pass R) _ _ (Keeps-read R client.default_branch) (λ default.
          Keeps-bind (on_pass R) _ _
            (Keeps-resolve (on_pass R) (find_open_pr_by_head client) Keeps-find_open_pr_by_head
              closure default)
            (λ decision. Keeps-lane_of decision.kind decision.reason)))
  ]

  Keeps-after_walk :
      (n : ℕ) (p q : Pass G) (r : Result Error DependencyClosure)
      → R.Rel p.world.store q.world.store
      → R.Rel p.world.store (after_walk client n (after_closure client n) r q).1.world.store
  unfolding pure raise
  Keeps-after_walk n p q (ok closure) h =
      R.along p.world.store q.world.store _ h (Keeps-after_closure n closure q)
  Keeps-after_walk n p q (err (cycle ns)) h = h
  Keeps-after_walk n p q (err (cross_repo k foreign)) h = h
  Keeps-after_walk n p q (err (github m)) h = h
  Keeps-after_walk n p q (err (key_error k)) h = h
  Keeps-after_walk n p q (err out_of_fuel) h = h

  -- the dependency lanes read and write no row of the store
  pub Keeps-dependency_block : (fuel n : ℕ) → Keeps (on_pass R) (dependency_block client fuel n)
  unfolding dependency_block
  Keeps-dependency_block fuel n p =
      let walked = walk_closure client.repo (list_blocked_by client) fuel n p in
      Keeps-after_walk n p walked.1 walked.0 (
        Keeps-walk_closure (on_pass R) client.repo (list_blocked_by client) Keeps-list_blocked_by
          fuel n p)

module _ {G : Type 0} (client : Client G) (R : Preorder Store) where
  pub Keeps-github_writes :
      (n : ℕ) (login : String) (a : Answer) → Keeps (on_pass R) (github_writes client n login a)
  Keeps-github_writes n login a =
      Keeps-bind (on_pass R) _ _ (Keeps-read R (client.add_assignees n login)) (λ _.
        Keeps-bind (on_pass R) _ _ (Keeps-read R (client.add_labels n (in_progress ∷ []))) (λ _.
          Keeps-bind (on_pass R) _ _ (Keeps-read R (client.remove_label n plan_ready))
            (λ _. Keeps-pure (on_pass R) Error a)))
