-- ===== src/Dispatch/Eligible.antt =====
-- dispatch.py: whom `grant_work` grants an issue, and which issue.
pub mod Loop
pub mod Start
use the_ozolith.Common.{
  ℕ, ◌-◌, String, ◌≡◌, refl, sym, ap, subst, ◌∙◌, inl, inr, none, List, Option-cases, nat_eq,
  string_eq, pair_eq, triple_eq, list_eq,
}
use the_ozolith.Common.Table.{Table}
use the_ozolith.Common.Exec.{Result, ok, err, ◌>>=◌, bind-elim}
use the_ozolith.Deps.{Issue, Error, cycle, cross_repo, github, key_error, out_of_fuel}
use the_ozolith.Store.{Store, Grant}
use the_ozolith.Store.Grants.{granted_issues}
use the_ozolith.Store.Events.{live_claims}
use the_ozolith.Vocabulary.{plan_ready}
use the_ozolith.Store.Grants.{upsert_driver}
use the_ozolith.Store.Flags.{
  record_dispatch_pause, clear_dispatch_pause, clear_malformed, clear_wait, malformed_issues,
  waiting_issues,
}
use the_ozolith.Dispatch.Pause.{registered, gate, grant_work-closed}
use the_ozolith.GitHub.{Client, World, query, write}
use the_ozolith.Dispatch.Reads.{Pass, begin}
use the_ozolith.Dispatch.Grant.{
  Request, Granted, Answer, issue, granting_pass, live_in, after_pass, attempt, pass_world,
  grant_work, numbers,
}
use the_ozolith.Dispatch.Eligible.Loop.{Granting, loop_lem}
use the_ozolith.Dispatch.Eligible.Start.{
  ask_lem, read_lem, started, noted, asked, cleared, listed_lem, started_lem,
}

module _ {G : Type 0} (client : Client G) (fuel : ℕ) (req : Request) where
  -- of the issues that GitHub listed at `g`, with the grants and the live claims of `s`, the one that
  -- is granted
  abbrev pub Eligible : G → Store → Answer → Table (String × ℕ) Grant → Type 0
  Eligible g s a rows =
      (is : List Issue) × (t : Store) × (flagged : List ℕ) × (waiting : List ℕ)
      × ((client.list_open_issues plan_ready g).0 ≡ ok is)
      × Granting client fuel req
          (record {
            granted = granted_issues client.repo s;
            live = live_in client.repo (live_claims s);
            flagged = flagged;
            waiting = waiting;
          })
          is a rows (started client g t)

  eligible_lem :
      (g : G) (s t : Store) (a : Answer) (rows : Table (String × ℕ) Grant) (is : List Issue)
      (granted live flagged waiting : List ℕ)
      → granted_issues client.repo s ≡ granted
      → live_in client.repo (live_claims s) ≡ live
      → (client.list_open_issues plan_ready g).0 ≡ ok is
      → Granting client fuel req
          (record { granted = granted; live = live; flagged = flagged; waiting = waiting })
          is
          a
          rows
          (started client g t)
      → Eligible g s a rows
  eligible_lem g s t a rows is granted live flagged waiting e k l h =
      (is, t, flagged, waiting, l, rw (e, k) h)

  pass_lem :
      (g : Granted) (w : World G) (q : Pass G)
      → granting_pass client fuel req (begin w) ≡ (ok (issue g), q)
      → Eligible w.github w.store (issue g) q.world.store.grants
  unfolding granting_pass
  pass_lem g w q h = bind-elim _ _ (begin w) h (λ granted p₁ e₁ h₁.
      bind-elim _ _ p₁ h₁ (λ live p₂ e₂ h₂. bind-elim _ _ p₂ h₂ (λ is p₃ e₃ h₃.
        bind-elim _ _ p₃ h₃ (λ m p₄ e₄ h₄. bind-elim _ _ p₄ h₄ (λ u p₅ e₅ h₅.
          bind-elim _ _ p₅ h₅ (λ v p₆ e₆ h₆. bind-elim _ _ p₆ h₆ (λ u₂ p₇ e₇ h₇.
            bind-elim _ _ p₇ h₇ (λ flagged p₈ e₈ h₈. bind-elim _ _ p₈ h₈ (λ waiting p₉ e₉ h₉.
              let a₁ = ask_lem client (granted_issues client.repo) (begin w) p₁ granted e₁ in
              let a₂ = ask_lem client (λ s. live_in client.repo (live_claims s)) p₁ p₂ live e₂ in
              let begun = a₁.1 ∙ a₂.1 in
              let same_pass = started_lem client w p₂ p₃ p₉ begun (listed_lem client p₂ p₃ is e₃) (
                (noted client).along p₃ p₄ p₉
                  (asked client (malformed_issues client.repo) p₃ p₄ m e₄)
                  ((noted client).along p₄ p₅ p₉
                    (cleared client (numbers is) (clear_malformed client.repo) m p₄ p₅ u e₅)
                    ((noted client).along p₅ p₆ p₉
                      (asked client (waiting_issues client.repo) p₅ p₆ v e₆)
                      ((noted client).along p₆ p₇ p₉
                        (cleared client (numbers is) (clear_wait client.repo) v p₆ p₇ u₂ e₇)
                        ((noted client).along p₇ p₈ p₉
                          (asked client (malformed_issues client.repo) p₇ p₈ flagged e₈)
                          (asked client (waiting_issues client.repo) p₈ p₉ waiting e₉)))))) in
              eligible_lem w.github w.store p₉.world.store (issue g) q.world.store.grants is granted
                live flagged waiting a₁.0
                (ap (λ (p : Pass G). live_in client.repo (live_claims p.world.store)) a₁.1 ∙ a₂.0)
                (subst
                  (λ (p : Pass G). (client.list_open_issues plan_ready p.world.github).0 ≡ ok is)
                  (sym begun) (read_lem client (client.list_open_issues plan_ready) p₂ p₃ is e₃))
                (subst
                  (Granting client fuel req
                    (record {
                      granted = granted;
                      live = live;
                      flagged = flagged;
                      waiting = waiting;
                    })
                    is (issue g) q.world.store.grants)
                  same_pass (loop_lem client fuel req _ is g p₉ q h₉)))))))))))

  after_pass_lem :
      (r : Result Error Answer) (g : Granted) (t u : World G)
      → after_pass client r t ≡ (ok (issue g), u)
      → (r ≡ ok (issue g)) × (t.store.grants ≡ u.store.grants)
  unfolding ◌>>=◌ write clear_dispatch_pause record_dispatch_pause
  after_pass_lem (ok a) g t u h = (
    ap (λ (r : Result Error Answer × World G). r.0) h,
    ap (λ (r : Result Error Answer × World G). r.1.store.grants) h,
  )
  after_pass_lem (err (github m)) g t u h =
      absurd (cc (ap (λ (r : Result Error Answer × World G). r.0) h))
  after_pass_lem (err (cycle ns)) g t u h =
      absurd (cc (ap (λ (r : Result Error Answer × World G). r.0) h))
  after_pass_lem (err (cross_repo n foreign)) g t u h =
      absurd (cc (ap (λ (r : Result Error Answer × World G). r.0) h))
  after_pass_lem (err (key_error n)) g t u h =
      absurd (cc (ap (λ (r : Result Error Answer × World G). r.0) h))
  after_pass_lem (err out_of_fuel) g t u h =
      absurd (cc (ap (λ (r : Result Error Answer × World G). r.0) h))

  passed_lem :
      (g : Granted) (w : World G) (r : Result Error Answer × Pass G) (u : World G)
      → granting_pass client fuel req (begin w) ≡ r
      → after_pass client r.0 r.1.world ≡ (ok (issue g), u)
      → Eligible w.github w.store (issue g) u.store.grants
  passed_lem g w (a, p) u e h =
      let passed = after_pass_lem a g p.world u h in
      let found = pass_lem g w p (e ∙ ap (λ (b : Result Error Answer). (b, p)) passed.0) in
      subst (Eligible w.github w.store (issue g)) passed.1 found

  -- What is granted may be granted: an answer with an issue is given only when every gate is open to
  -- the node, and the issue is one that GitHub listed as plan_ready, without the failed label, spoken
  -- for by nobody, neither granted nor live in the store, with every Dependency Edge satisfied or
  -- chained in the pass of this run, which memoized nothing before its first candidate and left every
  -- candidate before this one ungranted; the store then holds the requester's grant row for it.
  pub grant_work-Granting :
      (g : Granted) (w u : World G)
      → grant_work client fuel req w ≡ (ok (issue g), u)
      → (gate req (registered client req w).store ≡ none)
        × Eligible w.github w.store (issue g) u.store.grants
  unfolding grant_work ◌>>=◌ write query attempt pass_world granted_issues live_claims upsert_driver
  grant_work-Granting g w u h = elim (Option-cases (gate req (registered client req w).store)) [
    | inl open_gate ↦ (
      open_gate,
      passed_lem g (registered client req w)
          (granting_pass client fuel req (begin (registered client req w))) u refl
          (rw open_gate at h),
    )
    | inr (reason, closed) ↦
        let refused_one = sym (grant_work-closed client fuel req w reason closed) ∙ h in
        absurd (cc (ap (λ (r : Result Error Answer × World G). r.0) refused_one))
  ]
