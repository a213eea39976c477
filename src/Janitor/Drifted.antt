-- ===== src/Janitor/Drifted.antt =====
-- janitor.py: what a base-drift escalation rests on, and that it is final for its pair of commits.
use the_ozolith.Common.{
  ℕ, String, ◌≡◌, refl, sym, ap, ◌∙◌, subst, inl, inr, Bool, true, false, Option, none, some,
  Bool-cases, ◌==◌, nat_eq, string_eq, pair_eq, triple_eq, list_eq, contains,
}
use the_ozolith.Common.Message.{Message}
use the_ozolith.Common.Exec.{Result, ok, pure, bind-elim}
use the_ozolith.Vocabulary.{blocked}
use the_ozolith.Deps.{PullRequest, Error}
use the_ozolith.Store.{Store}
use the_ozolith.Store.Ledger.{janitor_acted}
use the_ozolith.GitHub.{Client, World, call, write}
use the_ozolith.GitHub.Kept.{call-eq-ok}
use the_ozolith.Deps.Branch.{branch_for}
use the_ozolith.Store.Flags.{clear_chained_dependent}
use the_ozolith.Janitor.Sweep.{pr_number}
use the_ozolith.Janitor.Drift.{
  BasedOn, drift_key, comment_key, rejected, is_open, enter, heal, drifted, compare_tip,
  watch_blocker, drift_zone, drift_one,
}
use the_ozolith.Janitor.Once.{janitor_acted-record_janitor_action}

module _ {G : Type 0} (client : Client G) (pr : PullRequest) where
  not_true :
      {A : Type 0} (v u : World G)
      → ◌≡◌ {A = Result Error Bool × World G} (pure false v) (ok true, u)
      → A
  unfolding pure
  not_true v u h = absurd (cc (ap (λ (r : Result Error Bool × World G). r.0) h))

  entered_lem :
      (key : String) (reason : Message) (w u : World G) (x : Unit {0})
      → enter client pr key reason w ≡ (ok x, u)
      → janitor_acted client.repo pr.number key u.store ≡ true
  unfolding write
  entered_lem key reason w u x h =
      subst
        (λ (r : Result Error (Unit {0}) × World G).
          janitor_acted client.repo pr.number key r.1.store ≡ true)
        h
        (janitor_acted-record_janitor_action client.repo pr.number key "" reason
          (client.clock w.github) w.store)

  pure_lem :
      (P : Store → Type 0) (v u : World G)
      → P v.store
      → ◌≡◌ {A = Result Error Bool × World G} (pure true v) (ok true, u)
      → P u.store
  unfolding pure
  pure_lem P v u p h = subst (λ (r : Result Error Bool × World G). P r.1.store) h p

  -- a drift from the recorded commit to the tip, escalated: the dependent was not blocked yet, and the
  -- ledger has the pair
  abbrev IsDrift : BasedOn → String → Store → Type 0
  IsDrift based tip s =
      ((tip == based.sha) ≡ false)
      × (contains pr.labels blocked ≡ false)
      × (janitor_acted client.repo pr.number (drift_key based.sha tip) s ≡ true)

  drifted_lem :
      (based : BasedOn) (n : ℕ) (tip : String) (w u : World G)
      → (tip == based.sha) ≡ false
      → drifted client pr based n tip w ≡ (ok true, u)
      → IsDrift based tip u.store
  drifted_lem based n tip w u moved h =
      elim (Bool-cases (janitor_acted client.repo pr.number (drift_key based.sha tip) w.store)) [
        | inl acted ↦
            (let stopped = rw acted at h in
              absurd (cc (ap (λ (r : Result Error Bool × World G). r.0) stopped)))
        | inr new ↦ elim (Bool-cases (contains pr.labels blocked)) [
          | inl on ↦
              heal_lem
                (janitor_acted client.repo pr.number (comment_key (drift_key based.sha tip))
                  w.store)
                based tip w u (rw (new, on) at h)
          | inr off ↦ bind-elim _ _ w (rw (new, off) at h) (λ x₁ w₁ e₁ h₁.
              bind-elim _ _ w₁ h₁ (λ x₂ w₂ e₂ h₂. bind-elim _ _ w₂ h₂ (λ x₃ w₃ e₃ h₃. (
                moved,
                off,
                pure_lem
                    (λ s. janitor_acted client.repo pr.number (drift_key based.sha tip) s ≡ true) w₃
                    u (entered_lem _ _ w₂ w₃ x₃ e₃) h₃,
              ))))
        ]
      ]
    where
      heal_lem :
          {A : Type 0} (commented : Bool) (based : BasedOn) (tip : String) (w u : World G)
          → heal client pr based tip (drift_key based.sha tip) commented w ≡ (ok true, u)
          → A
      heal_lem true based tip w u h = bind-elim _ _ w h (λ x v e k. not_true v u k)
      heal_lem false based tip w u h = not_true w u h

  tip_lem :
      (based : BasedOn) (n : ℕ) (tip : Option String) (w u : World G)
      → compare_tip client pr based n tip w ≡ (ok true, u)
      → (moved_to : String) × (tip ≡ some moved_to) × IsDrift based moved_to u.store
  tip_lem based n none w u h = not_true w u h
  tip_lem based n (some tip) w u h = elim (Bool-cases (tip == based.sha)) [
    | inl there ↦ not_true w u (rw there at h)
    | inr moved ↦ (tip, refl, drifted_lem based n tip w u moved (rw moved at h))
  ]

  -- what GitHub answered of the blocker's branch, from `g` on: its pull request is open, without the
  -- blocked label, and its tip is the one drifted to
  abbrev pub IsOpenDrift : BasedOn → G → Store → Type 0
  IsOpenDrift based g s =
      (blocker : Option PullRequest) × (v : G) × (client.find_pr_by_head (branch_for based.issue) g
        ≡ (ok blocker, v))
      × ((rejected blocker == "") ≡ true)
      × (is_open blocker ≡ true)
      × ((tip : String) × ((client.branch_head (branch_for based.issue) v).0 ≡ ok (some tip))
          × IsDrift based tip s)

  answered_lem :
      (based : BasedOn) (tip : Option String) (moved_to : String) (w u : World G)
      → call (client.branch_head (branch_for based.issue)) w ≡ (ok tip, u)
      → tip ≡ some moved_to
      → (client.branch_head (branch_for based.issue) w.github).0 ≡ ok (some moved_to)
  answered_lem based tip moved_to w u h e =
      ap (λ (r : Result Message (Option String) × G). r.0)
        (call-eq-ok (client.branch_head (branch_for based.issue)) w u tip h)
      ∙ ap ok e

  watch_lem :
      (based : BasedOn) (blocker : Option PullRequest) (g : G) (w u : World G)
      → client.find_pr_by_head (branch_for based.issue) g ≡ (ok blocker, w.github)
      → watch_blocker client pr based blocker w ≡ (ok true, u)
      → IsOpenDrift based g u.store
  unfolding write
  watch_lem based blocker g w u found h = elim (Bool-cases (rejected blocker == "")) [
    | inr held ↦ bind-elim _ _ w (rw held at h) (λ x v e k. not_true v u k)
    | inl free ↦ bind-elim _ _ w (rw free at h) (λ x v e k. elim (Bool-cases (is_open blocker)) [
      | inr shut ↦ not_true v u (rw shut at k)
      | inl open_still ↦ bind-elim _ _ v (rw open_still at k) (λ tip v₂ e₂ k₂.
          let (moved_to, is_tip, drift) = tip_lem based (pr_number blocker) tip v₂ u k₂ in
          (
            blocker,
            w.github,
            found,
            free,
            open_still,
            (
              moved_to,
              subst
                  (λ (g : G).
                    (client.branch_head (branch_for based.issue) g).0 ≡ ok (some moved_to))
                  (sym (write_lem w v x e)) (answered_lem based tip moved_to v v₂ e₂ is_tip),
              drift,
            ),
          ))
    ])
  ]
    where
      write_lem :
          (w v : World G) (x : Unit {0})
          → write client.clock (λ _. clear_chained_dependent client.repo pr.number) w ≡ (ok x, v)
          → w.github ≡ v.github
      write_lem w v x e = ap (λ (r : Result Error (Unit {0}) × World G). r.1.github) e

  module _ (parse_zone : String → Option BasedOn) where
    zone_lem :
        (zone : Option BasedOn) (w u : World G)
        → drift_zone client pr zone w ≡ (ok true, u)
        → (based : BasedOn) × (zone ≡ some based) × IsOpenDrift based w.github u.store
    zone_lem none w u h = bind-elim _ _ w h (λ x v e k. not_true v u k)
    zone_lem (some based) w u h = bind-elim _ _ w h (λ blocker v e k. (
      based,
      refl,
      watch_lem based blocker w.github v u
          (call-eq-ok (client.find_pr_by_head (branch_for based.issue)) w v blocker e) k,
    ))

    -- A dependent is escalated for base drift only when its body has a zone, GitHub answered that the
    -- pull request of the blocker that the zone names is open and not blocked, and then that the
    -- blocker's branch has a tip other than the recorded commit, and the dependent is not blocked yet;
    -- the ledger then has this pair of commits.
    pub drift_one-IsOpenDrift :
        (w u : World G)
        → drift_one client parse_zone pr w ≡ (ok true, u)
        → (based : BasedOn) × (parse_zone pr.body ≡ some based) × IsOpenDrift based w.github u.store
    unfolding drift_one
    drift_one-IsOpenDrift w u h = zone_lem (parse_zone pr.body) w u h
