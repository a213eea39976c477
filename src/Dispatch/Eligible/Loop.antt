-- ===== src/Dispatch/Eligible/Loop.antt =====
-- dispatch.py: which candidate the loop of a granting pass grants.
use the_ozolith.Common.{
  ℕ, String, ◌≡◌, refl, sym, ap, ◌∙◌, ◌⊎◌, inl, inr, true, false, ◌||◌, Option, none, some, List,
  [], ◌∷◌, Bool-cases, nat_eq, string_eq, pair_eq, triple_eq, list_eq, contains,
}
use the_ozolith.Common.Table.{Table, find, find-put_self}
use the_ozolith.Common.Exec.{Result, ok, Exec, pure, ◌>>=◌, bind-elim}
use the_ozolith.Common.Keeps.{Preorder}
use the_ozolith.Deps.{Issue, Error}
use the_ozolith.Store.{Store, Grant}
use the_ozolith.Store.Grants.{record_grant}
use the_ozolith.GitHub.{Client, write}
use the_ozolith.Dispatch.Reads.{Pass, within, Lane, dependency_block}
use the_ozolith.Dispatch.Grant.{
  Request, Snapshot, Granted, Answer, issue, nothing, granted_answer, is_failed, is_taken, note,
  keep_back, park, claim, github_writes, settle, candidates_loop,
}
use the_ozolith.Dispatch.Kept.{Keeps-github_writes}

-- the same store
abbrev same_store : Preorder Store
same_store = record { Rel = λ s t. s ≡ t; same = λ s. refl; along = λ s t u h k. h ∙ k }

ok-injective :
    {S A : Type 0} {a b : A} {s t : S}
    → ◌≡◌ {A = Result Error A × S} (ok a, s) (ok b, t)
    → (a ≡ b) × (s ≡ t)
ok-injective h = (cc, cc)

module _ {G : Type 0} (client : Client G) (fuel : ℕ) (req : Request) where
  -- the row of a grant to the requester
  abbrev pub IsRow : ℕ → Table (String × ℕ) Grant → Type 0
  IsRow n rows =
      (now : ℕ) × (find (client.repo, n) rows
        ≡ some
            (record { worker = req.worker; node = req.node; login = req.login; granted_at = now }))

  pure_lem :
      (a b : Answer) (p q : Pass G)
      → ◌≡◌ {A = Result Error Answer × Pass G} (pure a p) (ok b, q)
      → a ≡ b
  unfolding pure
  pure_lem a b p q h = (ok-injective h).0

  note_lem :
      (op : ℕ → Store → Store) (p q : Pass G) (u : Unit {0})
      → note client op p ≡ (ok u, q)
      → q.world.store ≡ op (client.clock p.world.github) p.world.store
  unfolding within write
  note_lem op p q u h = sym (ap (λ (r : Result Error (Unit {0}) × Pass G). r.1.world.store) h)

  row_lem :
      (i : Issue) (p q r : Pass G) (u : Unit {0})
      → note client (record_grant client.repo i.number req.worker req.node req.login) p ≡ (ok u, q)
      → q.world.store ≡ r.world.store
      → IsRow i.number r.world.store.grants
  unfolding record_grant
  row_lem i p q r u e same =
      let now : ℕ = client.clock p.world.github in
      let row : Grant = record {
        worker = req.worker;
        node = req.node;
        login = req.login;
        granted_at = now;
      } in
      (
        now,
        ap (λ (s : Store). find (client.repo, i.number) s.grants) (sym same ∙ note_lem _ p q u e)
            ∙ find-put_self (client.repo, i.number) row p.world.store.grants,
      )

  writes_lem :
      (n : ℕ) (a b : Answer) (p q : Pass G)
      → github_writes client n req.login a p ≡ (ok b, q)
      → (a ≡ b) × (p.world.store ≡ q.world.store)
  writes_lem n a b p q h = (
    bind-elim _ _ p h (λ u p₁ e₁ h₁.
        bind-elim _ _ p₁ h₁
          (λ u₂ p₂ e₂ h₂. bind-elim _ _ p₂ h₂ (λ u₃ p₃ e₃ h₃. pure_lem a b p₃ q h₃))),
    Keeps-github_writes client same_store n req.login a p
        ∙ ap (λ (r : Result Error Answer × Pass G). r.1.world.store) h,
  )

  claim_lem :
      (snap : Snapshot) (i : Issue) (b : Answer) (p q : Pass G)
      → claim client req snap i p ≡ (ok b, q)
      → (granted_answer i ≡ b) × IsRow i.number q.world.store.grants
  claim_lem snap i b p q h = bind-elim _ _ p h (λ u p₁ e₁ h₁. bind-elim _ _ p₁ h₁ (λ u₂ p₂ e₂ h₂.
      bind-elim _ _ p₂ h₂ (λ u₃ p₃ e₃ h₃.
        let wrote = writes_lem i.number (granted_answer i) b p₃ q h₃ in
        (wrote.0, row_lem i p₂ p₃ q u₃ e₃ wrote.1))))

  -- the candidate that is granted, from the pass `p` in which the loop starts: not failed, not taken,
  -- neither granted nor live before, and with every Dependency Edge satisfied or chained as this pass
  -- reads them; the candidates before it were left ungranted, one after the other
  abbrev pub Granting : Snapshot → List Issue → Answer → Table (String × ℕ) Grant → Pass G → Type 0
  Granting snap [] a rows p = ⊥
  Granting snap (i ∷ is) a rows p =
      ((granted_answer i ≡ a)
        × (is_failed i ≡ false)
        × (is_taken i ≡ false)
        × ((contains snap.granted i.number || contains snap.live i.number) ≡ false)
        × ((dependency_block client fuel i.number p).0 ≡ ok none)
        × IsRow i.number rows)
      ⊎ ((q : Pass G) × (candidates_loop client fuel req snap (i ∷ []) p ≡ (ok nothing, q))
          × Granting snap is a rows q)

  then_nothing :
      (m : Exec Error (Pass G) (Unit {0})) (p q : Pass G) (u : Unit {0})
      → m p ≡ (ok u, q)
      → (m >>= λ _. pure nothing) p ≡ (ok nothing, q)
  unfolding ◌>>=◌
  then_nothing m p q u h = rw h refl

  parked_lem :
      (snap : Snapshot) (i : Issue) (lane : Lane) (p p₁ q : Pass G) (u : Unit {0})
      → is_failed i ≡ false
      → is_taken i ≡ false
      → (contains snap.granted i.number || contains snap.live i.number) ≡ false
      → dependency_block client fuel i.number p ≡ (ok (some lane), p₁)
      → park client snap i.number lane p₁ ≡ (ok u, q)
      → candidates_loop client fuel req snap (i ∷ []) p ≡ (ok nothing, q)
  unfolding candidates_loop ◌>>=◌
  parked_lem snap i lane p p₁ q u e f l d h = rw (e, f, l, d, h) refl

  settle_lem :
      (snap : Snapshot) (i : Issue) (is : List Issue) (g : Granted) (lane : Option Lane)
      (p p₁ q : Pass G)
      → is_failed i ≡ false
      → is_taken i ≡ false
      → (contains snap.granted i.number || contains snap.live i.number) ≡ false
      → dependency_block client fuel i.number p ≡ (ok lane, p₁)
      → settle client req snap i (candidates_loop client fuel req snap is) lane p₁
        ≡ (ok (issue g), q)
      → ((r : Pass G)
          → candidates_loop client fuel req snap is r ≡ (ok (issue g), q)
          → Granting snap is (issue g) q.world.store.grants r)
      → Granting snap (i ∷ is) (issue g) q.world.store.grants p
  settle_lem snap i is g none p p₁ q e f l d h ih =
      let claimed = claim_lem snap i (issue g) p₁ q h in
      inl (claimed.0, e, f, l, ap (λ (r : Result Error (Option Lane) × Pass G). r.0) d, claimed.1)
  settle_lem snap i is g (some lane) p p₁ q e f l d h ih = inr (
      bind-elim _ _ p₁ h
        (λ u p₂ e₂ h₂. (p₂, parked_lem snap i lane p p₁ p₂ u e f l d e₂, ih p₂ h₂)))

  skipped_lem :
      (snap : Snapshot) (i : Issue) (p : Pass G)
      → is_failed i ≡ false
      → (is_taken i ≡ true)
        ⊎ ((is_taken i ≡ false)
            × ((contains snap.granted i.number || contains snap.live i.number) ≡ true))
      → candidates_loop client fuel req snap (i ∷ []) p ≡ (ok nothing, p)
  unfolding candidates_loop pure
  skipped_lem snap i p e (inl f) = rw (e, f) refl
  skipped_lem snap i p e (inr (f, l)) = rw (e, f, l) refl

  kept_back_lem :
      (snap : Snapshot) (i : Issue) (p q : Pass G) (u : Unit {0})
      → is_failed i ≡ true
      → keep_back client snap i.number p ≡ (ok u, q)
      → candidates_loop client fuel req snap (i ∷ []) p ≡ (ok nothing, q)
  unfolding candidates_loop
  kept_back_lem snap i p q u e h = rw e (then_nothing (keep_back client snap i.number) p q u h)

  pub loop_lem :
      (snap : Snapshot) (is : List Issue) (g : Granted) (p q : Pass G)
      → candidates_loop client fuel req snap is p ≡ (ok (issue g), q)
      → Granting snap is (issue g) q.world.store.grants p
  unfolding candidates_loop
  loop_lem snap [] g p q h =
      let none_left : nothing ≡ issue g = pure_lem nothing (issue g) p q h in absurd (cc none_left)
  loop_lem snap (i ∷ is) g p q h = elim (Bool-cases (is_failed i)) [
    | inl e ↦ inr (
        bind-elim _ _ p (rw e at h)
          (λ u p₁ e₁ h₁. (p₁, kept_back_lem snap i p p₁ u e e₁, loop_lem snap is g p₁ q h₁)))
    | inr e ↦ elim (Bool-cases (is_taken i)) [
      | inl f ↦ inr (p, skipped_lem snap i p e (inl f), loop_lem snap is g p q (rw (e, f) at h))
      | inr f ↦ elim (Bool-cases (contains snap.granted i.number || contains snap.live i.number)) [
        | inl l ↦
            inr (p, skipped_lem snap i p e (inr (f, l)), loop_lem snap is g p q (rw (e, f, l) at h))
        | inr l ↦ bind-elim _ _ p (rw (e, f, l) at h) (λ lane p₁ e₁ h₁.
            settle_lem snap i is g lane p p₁ q e f l e₁ h₁ (λ r k. loop_lem snap is g r q k))
      ]
    ]
  ]
