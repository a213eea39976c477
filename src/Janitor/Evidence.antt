-- ===== src/Janitor/Evidence.antt =====
-- janitor.py: phase two of the sweep waits for the evidence of the Run.
use the_ozolith.Common.{
  ℕ, ◌≡◌, refl, ◌∙◌, ◌≢◌, inl, inr, Bool, true, false, Option, List, [], ◌∷◌, Bool-cases, All,
  nat_eq, string_eq, pair_eq, triple_eq, list_eq,
}
use the_ozolith.Common.Message.{Message}
use the_ozolith.Common.Exec.{Result, ok, err, Exec, pure, continue, ◌>>=◌}
use the_ozolith.Common.Keeps.{Preorder, Keeps, Keeps-bind}
use the_ozolith.Deps.{Issue, PullRequest, Error}
use the_ozolith.Deps.Branch.{branch_for}
use the_ozolith.Store.{Store}
use the_ozolith.Store.Events.{LiveClaim}
use the_ozolith.Store.Ledger.{janitor_acted}
use the_ozolith.GitHub.{Client, World, raised, call, write}
use the_ozolith.Janitor.Sweep.{
  stop_or, any_path, evidence_landed, evidence_paths, close, when_landed, is_shipped, is_released,
  phase_two, verify, flagged, is_quiet_enough, sweep_one,
}

module _ {G O : Type 0} (client : Client G) (observe : G → O) where
  -- what a call that only reads leaves as it was
  abbrev pub IsRead : {A : Type 0} → Exec Message G A → Type 0
  IsRead m = (g : G) → observe g ≡ observe (m g).1

  -- the three reads of a sweep, and a bundle that has not landed
  pub record NotLanded (c : LiveClaim) : Type 0 where
    pub issue_read : IsRead (client.get_issue c.issue)
    pub pr_read : IsRead (client.find_open_pr_by_head (branch_for c.issue))
    pub path_read : (path : Message) → IsRead (client.path_exists path)
    pub no_bundle :
        All
          (λ (path : Message). (g : G) → (client.path_exists path g).0 ≢ ok true)
          (evidence_paths c)

  abbrev observed : Preorder (World G)
  observed = record {
    Rel = λ w u. observe w.github ≡ observe u.github;
    same = λ w. refl;
    along = λ w u v h k. h ∙ k;
  }

  Keeps-store_write : (op : ℕ → Store → Store) → Keeps observed (write client.clock op)
  unfolding write
  Keeps-store_write op w = refl

  Keeps-read : {A : Type 0} (m : Exec Message G A) → IsRead m → Keeps observed (call m)
  unfolding call
  Keeps-read m k w = k w.github

  Keeps-stop_or :
      (rest : Exec Error (World G) Bool)
      → Keeps observed rest
      → (found : Bool) → Keeps observed (stop_or client rest found)
  unfolding pure
  Keeps-stop_or rest k true = λ w. refl
  Keeps-stop_or rest k false = k

  Keeps-any_path :
      ((path : Message) → IsRead (client.path_exists path))
      → (paths : List Message) → Keeps observed (any_path client paths)
  unfolding any_path pure
  Keeps-any_path k [] = λ w. refl
  Keeps-any_path k (path ∷ paths) =
      Keeps-bind observed (call (client.path_exists path)) _
        (Keeps-read (client.path_exists path) (k path))
        (Keeps-stop_or (any_path client paths) (Keeps-any_path k paths))

  found_lem :
      (rest : Exec Error (World G) Bool) (r : Result Message Bool) (u : World G)
      → r ≢ ok true
      → (rest u).0 ≢ ok true
      → (continue (raised r) (stop_or client rest) u).0 ≢ ok true
  found_lem rest (ok true) u k h = absurd (k refl)
  found_lem rest (ok false) u k h = h
  found_lem rest (err m) u k h = λ e. absurd (cc e)

  -- no path answers true
  any_path_lem :
      (paths : List Message)
      → All (λ (path : Message). (g : G) → (client.path_exists path g).0 ≢ ok true) paths
      → (w : World G) → (any_path client paths w).0 ≢ ok true
  unfolding any_path pure ◌>>=◌ call
  any_path_lem [] h w = λ e. absurd (cc e)
  any_path_lem (path ∷ paths) h w =
      let u : World G = record w { github = (client.path_exists path w.github).1 } in
      found_lem (any_path client paths) (client.path_exists path w.github).0 u (h.0 w.github)
        (any_path_lem paths h.1 u)

  module _ (c : LiveClaim) (h : NotLanded c) (silence grace : ℕ) where
    landed_lem :
        (i : Issue) (w : World G) (r : Result Error Bool) (u : World G)
        → r ≢ ok true
        → observe w.github ≡ observe u.github
        → observe w.github ≡ observe (continue r (when_landed client c silence grace i) u).1.github
    unfolding pure
    landed_lem i w (ok true) u k e = absurd (k refl)
    landed_lem i w (ok false) u k e = e
    landed_lem i w (err m) u k e = e

    Keeps-close : (reason : Message) → Keeps observed (close client c reason)
    unfolding pure
    Keeps-close reason =
        Keeps-bind observed _ _ (Keeps-store_write _)
          (λ _. Keeps-bind observed _ _ (Keeps-store_write _) (λ _ w. refl))

    Keeps-phase_two :
        (i : Issue) (pr : Option PullRequest)
        → Keeps observed (phase_two client c silence grace i pr)
    unfolding ◌>>=◌ evidence_landed
    Keeps-phase_two i pr w = elim (Bool-cases (is_shipped pr)) [
      | inl shipped ↦ rw shipped (Keeps-close _ w)
      | inr open_still ↦ rw open_still (
          landed_lem i w (any_path client (evidence_paths c) w).0
            (any_path client (evidence_paths c) w).1 (any_path_lem (evidence_paths c) h.no_bundle w)
            (Keeps-any_path h.path_read (evidence_paths c) w))
    ]

    Keeps-verify : (i : Issue) → Keeps observed (verify client c silence grace i)
    Keeps-verify i = elim (Bool-cases (is_released i)) [
      | inl gone ↦ rw gone (Keeps-close _)
      | inr held ↦ rw held (Keeps-bind observed _ _ (Keeps-read _ h.pr_read) (Keeps-phase_two i))
    ]

    Keeps-flagged : Keeps observed (flagged client c silence grace)
    Keeps-flagged =
        Keeps-bind observed _ _ (Keeps-store_write _)
          (λ _. Keeps-bind observed _ _ (Keeps-read _ h.issue_read) Keeps-verify)

  -- Evidence first: as long as the bundle of a silent Run has not landed, a sweep of its claim only
  -- reads GitHub, so that nothing a reading call leaves alone is changed there.
  pub sweep_one-observed :
      (grace : ℕ) (c : LiveClaim) (w : World G)
      → NotLanded c
      → observe w.github ≡ observe (sweep_one client grace c w).1.github
  unfolding sweep_one ◌>>=◌ write
  sweep_one-observed grace c w h =
      elim (Bool-cases (janitor_acted client.repo c.issue c.run_id w.store)) [
        | inl acted ↦ rw acted refl
        | inr new ↦ elim (Bool-cases (is_quiet_enough client grace c w)) [
          | inl quiet ↦ rw (new, quiet) refl
          | inr silent ↦ rw (new, silent) (Keeps-flagged c h _ grace w)
        ]
      ]
