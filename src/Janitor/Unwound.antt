-- ===== src/Janitor/Unwound.antt =====
-- janitor.py: no grant is lost between its row and its unwind.
use the_ozolith.Common.{
  ℕ, String, ◌≡◌, refl, sym, ap, ◌∙◌, Bool, true, false, none, some, List, [], ◌∷◌, ◌==◌, nat_eq,
  string_eq, pair_eq, triple_eq, list_eq,
}
use the_ozolith.Common.Table.{find, delete, find-put_self, find-delete_self}
use the_ozolith.Common.Exec.{Result, ok, err, Exec, pure, ◌>>=◌, ◌>>◌, catch, bind-elim}
use the_ozolith.Common.Keeps.{Preorder, Keeps, Keeps-bind}
use the_ozolith.Vocabulary.{plan_ready, in_progress}
use the_ozolith.Deps.{Issue, Error}
use the_ozolith.Store.{Store, Grant}
use the_ozolith.Store.Grants.{GrantRow, release_grant, record_grant}
use the_ozolith.Store.Events.{LiveClaim}
use the_ozolith.Store.Ledger.{janitor_acted, record_janitor_action}
use the_ozolith.GitHub.{Client, World, update_with, write}
use the_ozolith.GitHub.Kept.{on_store, Keeps-call, call-eq-ok}
use the_ozolith.Janitor.Sweep.{remove_assignees}
use the_ozolith.Janitor.Release.{is_live, never_activated, unwind, put_back, ledger, release_one}
use the_ozolith.Janitor.Once.{janitor_acted-record_janitor_action}

abbrev same_store : Preorder Store
same_store = record { Rel = λ s t. s ≡ t; same = λ s. refl; along = λ s t u h k. h ∙ k }

module _ {G : Type 0} (client : Client G) where
  Keeps-remove_assignees :
      (n : ℕ) (logins : List String)
      → Keeps (on_store same_store) (remove_assignees client n logins)
  unfolding remove_assignees pure
  Keeps-remove_assignees n [] = λ w. refl
  Keeps-remove_assignees n (login ∷ logins) =
      Keeps-bind (on_store same_store) _ _ (Keeps-call same_store (client.remove_assignee n login))
        (λ _. Keeps-remove_assignees n logins)

  Keeps-unwind : (n : ℕ) → Keeps (on_store same_store) (unwind client n)
  Keeps-unwind n =
      Keeps-bind (on_store same_store) _ _ (Keeps-call same_store (client.get_issue n)) (λ i.
        Keeps-bind (on_store same_store) _ _ (Keeps-remove_assignees n i.assignees) (λ _.
          Keeps-bind (on_store same_store) _ _
            (Keeps-call same_store (client.remove_label n in_progress))
            (λ _. Keeps-call same_store (client.add_labels n (plan_ready ∷ [])))))

  -- the assignees are removed, one call each
  abbrev Unassigned : ℕ → List String → G → G → Type 0
  Unassigned n [] g g' = g ≡ g'
  Unassigned n (login ∷ logins) g g' =
      (v : G) × (client.remove_assignee n login g ≡ (ok tt, v)) × Unassigned n logins v g'

  -- GitHub's part of a claim was unwound from `g` to `g'`: the issue was read, its assignees were
  -- removed, `in_progress` was taken off and `plan_ready` put on, every call answering
  abbrev pub IsUnwound : ℕ → G → G → Type 0
  IsUnwound n g g' =
      (i : Issue) × (v : G) × (client.get_issue n g ≡ (ok i, v))
      × ((a : G) × Unassigned n i.assignees v a
          × ((b : G) × (client.remove_label n in_progress a ≡ (ok tt, b))
              × (client.add_labels n (plan_ready ∷ []) b ≡ (ok tt, g'))))

  unassigned_lem :
      (n : ℕ) (logins : List String) (w u : World G) (x : Unit {0})
      → remove_assignees client n logins w ≡ (ok x, u)
      → Unassigned n logins w.github u.github
  unfolding remove_assignees pure
  unassigned_lem n [] w u x h = ap (λ (r : Result Error (Unit {0}) × World G). r.1.github) h
  unassigned_lem n (login ∷ logins) w u x h = bind-elim _ _ w h (λ y v e k. (
    v.github,
    call-eq-ok (client.remove_assignee n login) w v y e,
    unassigned_lem n logins v u x k,
  ))

  unwind_lem :
      (n : ℕ) (w u : World G) (x : Unit {0})
      → unwind client n w ≡ (ok x, u)
      → IsUnwound n w.github u.github
  unwind_lem n w u x h = bind-elim _ _ w h (λ i v e h₁. bind-elim _ _ v h₁ (λ y a e₁ h₂.
      bind-elim _ _ a h₂ (λ z b e₂ h₃. (
        i,
        v.github,
        call-eq-ok (client.get_issue n) w v i e,
        (
          a.github,
          unassigned_lem n i.assignees v a y e₁,
          (
            b.github,
            call-eq-ok (client.remove_label n in_progress) a b z e₂,
            call-eq-ok (client.add_labels n (plan_ready ∷ [])) b u x h₃,
          ),
        ),
      ))))

  -- what became of an expired grant: unwound and entered in the ledger, or put back as it was
  abbrev pub Settled : GrantRow → World G → Result Error Bool → World G → Type 0
  Settled g w (ok true) u =
      (find (g.repo, g.issue) u.store.grants ≡ none)
      × (janitor_acted g.repo g.issue "(never-activated)" u.store ≡ true)
      × IsUnwound g.issue w.github u.github
  Settled g w (ok false) u =
      (now : ℕ) × (find (g.repo, g.issue) u.store.grants
        ≡ some (record {
          worker = g.grant.worker;
          node = g.grant.node;
          login = g.grant.login;
          granted_at = now;
        }))
  Settled g w (err e) u = ⊥

  unwound_lem :
      (window : ℕ) (g : GrantRow) (w₀ : World G) (r : Result Error (Unit {0})) (u : World G)
      → find (g.repo, g.issue) u.store.grants ≡ none
      → ((x : Unit {0}) → r ≡ ok x → IsUnwound g.issue w₀.github u.github)
      → (m : Exec Error (World G) (Unit {0})) (w : World G) → m w ≡ (r, u)
      → let out = (catch (m >> pure true) (λ e. put_back client g) >>= ledger client window g) w in
        Settled g w₀ out.0 out.1
  unfolding ◌>>=◌ catch write record_grant record_janitor_action janitor_acted
  unwound_lem window g w₀ (ok x) u gone did m w e = rw e (
    gone,
    janitor_acted-record_janitor_action g.repo g.issue "(never-activated)" g.grant.worker
        (never_activated g.grant.worker window) (client.clock u.github) u.store,
    did x refl,
  )
  unwound_lem window g w₀ (err x) u gone did m w e =
      rw e (client.clock u.github, find-put_self (g.repo, g.issue) _ u.store.grants)

  -- No grant is lost: the release of an expired row of the client's repository never raises. It ends
  -- with the row gone, the act in the ledger and the claim unwound on GitHub, whose calls read the
  -- issue, removed its assignees, took in_progress off and put plan_ready on; or, when a call of
  -- GitHub failed midway, with the row back for the next pass. The grant is not live and its row is
  -- still there when the release starts.
  pub release_one-Settled :
      (window : ℕ) (live : List LiveClaim) (g : GrantRow) (row : Grant) (w : World G)
      → (g.repo == client.repo) ≡ true
      → is_live live g.repo g.issue ≡ false
      → find (g.repo, g.issue) w.store.grants ≡ some row
      → Settled g w (release_one client window live g w).0 (release_one client window live g w).1
  unfolding release_one ◌>>=◌ update_with release_grant catch
  release_one-Settled window live g row w ours idle there =
      let taken : World G = record w {
        store = record w.store { grants = delete (g.repo, g.issue) w.store.grants };
      } in
      let after : Result Error (Unit {0}) × World G = unwind client g.issue taken in
      let gone : find (g.repo, g.issue) after.1.store.grants ≡ none =
        ap (λ (s : Store). find (g.repo, g.issue) s.grants) (sym (Keeps-unwind g.issue taken))
        ∙ find-delete_self (g.repo, g.issue) w.store.grants in
      rw (ours, idle, there)
        (unwound_lem window g w after.0 after.1 gone
          (λ x e.
            unwind_lem g.issue taken after.1 x
              (ap (λ (r : Result Error (Unit {0})). (r, after.1)) e))
          (unwind client g.issue) taken refl)
