-- ===== src/Janitor/Once.antt =====
-- janitor.py: a claim is escalated once.
use the_ozolith.Common.{
  ℕ, String, ◌≡◌, refl, sym, ap, subst, inl, inr, Bool, true, false, Option, none, some, arith,
  Bool-cases, any-append, nat_eq, string_eq, pair_eq, triple_eq, list_eq, ==_refl,
}
use the_ozolith.Common.Table.{find, delete, find-delete_self}
use the_ozolith.Common.Message.{Message}
use the_ozolith.Common.Exec.{Result, ok, pure, bind-elim}
use the_ozolith.Deps.{Issue, PullRequest, Error}
use the_ozolith.Store.{Store}
use the_ozolith.Store.Events.{LiveClaim}
use the_ozolith.Store.Flags.{clear_zombie_flag}
use the_ozolith.Store.Ledger.{janitor_acted, record_janitor_action, acted_for}
use the_ozolith.GitHub.{Client, World, write}
use the_ozolith.Janitor.Sweep.{
  close, escalate, when_landed, is_shipped, is_released, phase_two, verify, flagged,
  is_quiet_enough, sweep_one, silent_reason,
}

-- A recorded act is found.
pub janitor_acted-record_janitor_action :
    (repo : String) (issue : ℕ) (run_id worker : String) (reason : Message) (now : ℕ) (s : Store)
    → janitor_acted repo issue run_id
        (record_janitor_action (some repo) issue run_id worker reason now s)
      ≡ true
unfolding janitor_acted record_janitor_action
janitor_acted-record_janitor_action repo issue run_id worker reason now s =
    rw (any-append (acted_for repo issue run_id) s.janitor_actions)
      (ground (arith, ==_refl repo, ==_refl issue, ==_refl run_id))

module _ {G : Type 0} (client : Client G) (c : LiveClaim) where
  -- the claim is dealt with: in the ledger, and without a flag
  abbrev pub IsHandled : Store → Type 0
  IsHandled s =
      (janitor_acted client.repo c.issue c.run_id s ≡ true)
      × (find (client.repo, c.issue, c.run_id) s.zombie_flags ≡ none)

  write_lem :
      (op : ℕ → Store → Store) (w u : World G) (x : Unit {0})
      → write client.clock op w ≡ (ok x, u)
      → u.store ≡ op (client.clock w.github) w.store
  unfolding write
  write_lem op w u x h = sym (ap (λ (r : Result Error (Unit {0}) × World G). r.1.store) h)

  handled_lem :
      (reason : Message) (s t u : Store) (now : ℕ)
      → t ≡ record_janitor_action (some client.repo) c.issue c.run_id c.driver reason now s
      → u ≡ clear_zombie_flag client.repo c.issue c.run_id t
      → IsHandled u
  unfolding clear_zombie_flag record_janitor_action delete janitor_acted
  handled_lem reason s t u now e f = (
    rw f (
        rw e
          (janitor_acted-record_janitor_action client.repo c.issue c.run_id c.driver reason now s)),
    rw f (find-delete_self (client.repo, c.issue, c.run_id) t.zombie_flags),
  )

  sure_lem :
      (b : Bool) (v u : World G)
      → IsHandled v.store
      → ◌≡◌ {A = Result Error Bool × World G} (pure true v) (ok b, u)
      → IsHandled u.store
  unfolding pure
  sure_lem b v u k h = subst (λ (r : Result Error Bool × World G). IsHandled r.1.store) h k

  not_true :
      {A : Type 0} (v u : World G)
      → ◌≡◌ {A = Result Error Bool × World G} (pure false v) (ok true, u)
      → A
  unfolding pure
  not_true v u h = absurd (cc (ap (λ (r : Result Error Bool × World G). r.0) h))

  escalate_lem :
      (silence grace : ℕ) (i : Issue) (b : Bool) (w u : World G)
      → escalate client c silence grace i w ≡ (ok b, u)
      → IsHandled u.store
  escalate_lem silence grace i b w u h = bind-elim _ _ w h (λ x₁ w₁ e₁ h₁.
      bind-elim _ _ w₁ h₁ (λ x₂ w₂ e₂ h₂. bind-elim _ _ w₂ h₂ (λ x₃ w₃ e₃ h₃.
        bind-elim _ _ w₃ h₃ (λ x₄ w₄ e₄ h₄. bind-elim _ _ w₄ h₄ (λ x₅ w₅ e₅ h₅.
          bind-elim _ _ w₅ h₅ (λ x₆ w₆ e₆ h₆.
            sure_lem b w₆ u
              (handled_lem (silent_reason c silence grace) w₄.store w₅.store w₆.store
                (client.clock w₄.github) (write_lem _ w₄ w₅ x₅ e₅) (write_lem _ w₅ w₆ x₆ e₆))
              h₆))))))

  close_lem :
      (reason : Message) (w u : World G)
      → close client c reason w ≡ (ok true, u)
      → IsHandled u.store
  close_lem reason w u h =
      bind-elim _ _ w h (λ x₁ w₁ e₁ h₁. bind-elim _ _ w₁ h₁ (λ x₂ w₂ e₂ h₂. not_true w₂ u h₂))

  landed_lem :
      (silence grace : ℕ) (i : Issue) (landed : Bool) (w u : World G)
      → when_landed client c silence grace i landed w ≡ (ok true, u)
      → IsHandled u.store
  landed_lem silence grace i true w u h = escalate_lem silence grace i true w u h
  landed_lem silence grace i false w u h = not_true w u h

  phase_two_lem :
      (silence grace : ℕ) (i : Issue) (pr : Option PullRequest) (w u : World G)
      → phase_two client c silence grace i pr w ≡ (ok true, u)
      → IsHandled u.store
  phase_two_lem silence grace i pr w u h = elim (Bool-cases (is_shipped pr)) [
    | inl shipped ↦ close_lem _ w u (rw shipped at h)
    | inr open_still ↦
        bind-elim _ _ w (rw open_still at h)
          (λ landed v e k. landed_lem silence grace i landed v u k)
  ]

  verify_lem :
      (silence grace : ℕ) (i : Issue) (w u : World G)
      → verify client c silence grace i w ≡ (ok true, u)
      → IsHandled u.store
  verify_lem silence grace i w u h = elim (Bool-cases (is_released i)) [
    | inl gone ↦ close_lem _ w u (rw gone at h)
    | inr held ↦ bind-elim _ _ w (rw held at h) (λ pr v e k. phase_two_lem silence grace i pr v u k)
  ]

  flagged_lem :
      (silence grace : ℕ) (w u : World G)
      → flagged client c silence grace w ≡ (ok true, u)
      → IsHandled u.store
  flagged_lem silence grace w u h =
      bind-elim _ _ w h
        (λ x₁ w₁ e₁ h₁. bind-elim _ _ w₁ h₁ (λ i w₂ e₂ h₂. verify_lem silence grace i w₂ u h₂))

  -- A claim is escalated once: a sweep that escalated it left it in the ledger and without a zombie
  -- flag, and every later sweep of it, at any grace, does nothing at all.
  pub sweep_one-once :
      (grace : ℕ) (w u : World G)
      → sweep_one client grace c w ≡ (ok true, u)
      → IsHandled u.store × ((later : ℕ) → sweep_one client later c u ≡ (ok false, u))
  unfolding sweep_one
  sweep_one-once grace w u h =
      elim (Bool-cases (janitor_acted client.repo c.issue c.run_id w.store)) [
        | inl acted ↦
            let quiet_one = rw acted at h in
            absurd (cc (ap (λ (r : Result Error Bool × World G). r.0) quiet_one))
        | inr new ↦ elim (Bool-cases (is_quiet_enough client grace c w)) [
          | inl quiet ↦ bind-elim _ _ w (rw (new, quiet) at h) (λ x v e k. not_true v u k)
          | inr silent ↦
              let handled : IsHandled u.store = flagged_lem _ grace w u (rw (new, silent) at h) in
              (handled, λ later. rw (handled.0) refl)
        ]
      ]
