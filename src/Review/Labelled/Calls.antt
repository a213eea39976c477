-- ===== src/Review/Labelled/Calls.antt =====
-- reviewer.py: the calls of a round after its attempt label.
use the_ozolith.Common.{
  ℕ, suc, String, ◌≡◌, List, [], ◌∷◌, nat_eq, string_eq, pair_eq, triple_eq, list_eq,
}
use the_ozolith.Common.Message.{Message}
use the_ozolith.Common.Exec.{ok, Exec}
use the_ozolith.Common.Keeps.{Keeps}
use the_ozolith.Common.Steady.{Steady, Steady-bind, invariant, steady_rules}
use the_ozolith.Vocabulary.{plan_ready, in_progress, pr_ready}
use the_ozolith.Deps.{PullRequest}
use the_ozolith.Review.{Fault, File, Event, Desk}
use the_ozolith.Review.Base.{github, ask, each, push_evidence_files}
use the_ozolith.Review.Outcome.{Steady-gets}
use the_ozolith.Review.Publish.{attempt_label, strip_claim_and_requeue}
use the_ozolith.Review.Round.{rounds_spent, discard}

module _ {H : Type 0} (desk : Desk H) (pr : PullRequest) (IsLabelled : H → Type 0) where
  -- the host is labelled once the attempt label of the next round was put on the pull request, and
  -- what a round calls after it leaves that so
  pub record Labels : Type 0 where
    pub labelled :
        (h u : H)
        → desk.client.add_labels pr.number (attempt_label (suc (rounds_spent pr)) ∷ []) h
          ≡ (ok tt, u)
        → IsLabelled u
    pub reviewed : Keeps (invariant IsLabelled) (desk.client.remove_label pr.number pr_ready)
    pub read : (n : ℕ) → Keeps (invariant IsLabelled) (desk.client.get_issue n)
    pub unassigned :
        (n : ℕ) (login : String)
        → Keeps (invariant IsLabelled) (desk.client.remove_assignee n login)
    pub unclaimed : (n : ℕ) → Keeps (invariant IsLabelled) (desk.client.remove_label n in_progress)
    pub requeued :
        (n : ℕ) → Keeps (invariant IsLabelled) (desk.client.add_labels n (plan_ready ∷ []))
    pub pushed :
        (prefix : Message) (files : List File)
        → Keeps (invariant IsLabelled) (desk.push_bundle prefix files)
    pub emitted : (e : Event) (h : H) → IsLabelled h → IsLabelled (desk.emit e h).1
    pub removed_job :
        (id : Message) (h : H) → IsLabelled h → IsLabelled (desk.remove_job_dir id h).1
    pub discarded : (id : Message) → Keeps (invariant IsLabelled) (desk.discard_input_snapshot id)

  module _ (calls : Labels) where
    pub Steady-github :
        {A : Type 0} (m : Exec Message H A)
        → Keeps (invariant IsLabelled) m
        → Steady (invariant IsLabelled) (github m)
    unfolding github
    Steady-github m k = record { at = k }

    pub Steady-emit : (e : Event) → Steady (invariant IsLabelled) (ask (desk.emit e))
    unfolding ask
    Steady-emit e = record { at = calls.emitted e }

    Steady-remove_job :
        (id : Message) → Steady (invariant IsLabelled) (ask (desk.remove_job_dir id))
    unfolding ask
    Steady-remove_job id = record { at = calls.removed_job id }

    steady :
        {A : Type 0} {m : Exec Fault H A}
        → Keeps (invariant IsLabelled) m
        → Steady (invariant IsLabelled) m
    steady k = record { at = k }

    pub Steady-push :
        (prefix : Message) (files : List File)
        → Steady (invariant IsLabelled) (push_evidence_files desk prefix files)
    unfolding push_evidence_files
    Steady-push prefix files = search (steady_rules, Steady-emit, steady, calls.pushed) depth 12

    Steady-each :
        {A : Type 0} (body : A → Exec Fault H (Unit {0})) (xs : List A)
        → ((x : A) → Steady (invariant IsLabelled) (body x))
        → Steady (invariant IsLabelled) (each body xs)
    unfolding each
    Steady-each body [] k = search steady_rules
    Steady-each body (x ∷ xs) k = Steady-bind _ _ (k x) (λ _. Steady-each body xs k)

    pub Steady-requeue : (n : ℕ) → Steady (invariant IsLabelled) (strip_claim_and_requeue desk n)
    unfolding strip_claim_and_requeue
    Steady-requeue n =
        search
          (
            steady_rules, Steady-github, Steady-each, calls.read, calls.unassigned, calls.unclaimed,
            calls.requeued,
          )
          depth 24

    pub Steady-discard : (n : ℕ) → Steady (invariant IsLabelled) (discard desk pr n)
    Steady-discard n =
        search
          (
            steady_rules,
            steady,
            Steady-gets (invariant IsLabelled),
            Steady-remove_job,
            calls.discarded,
          )
          depth 24
