-- ===== src/Dispatch/Eligible/Start.antt =====
-- dispatch.py: the pass in which the loop over the candidates starts.
use the_ozolith.Common.{
  ℕ, ◌≡◌, refl, sym, ap, subst, ◌∙◌, Bool, true, false, not, none, List, [], ◌∷◌, nat_eq, string_eq,
  pair_eq, triple_eq, list_eq, contains,
}
use the_ozolith.Common.Message.{Message}
use the_ozolith.Common.Exec.{Result, ok, err, Exec}
use the_ozolith.Common.Keeps.{Preorder, Keeps, Keeps-bind, Keeps-pure}
use the_ozolith.Deps.{Issue, Error}
use the_ozolith.Store.{Store}
use the_ozolith.Vocabulary.{plan_ready}
use the_ozolith.GitHub.{Client, World, raised, call, query, write}
use the_ozolith.Dispatch.Reads.{Pass, begin, within}
use the_ozolith.Dispatch.Grant.{ask, note, note_if, clear_departed}

module _ {G : Type 0} (client : Client G) where
  pub ask_lem :
      {A : Type 0} (f : Store → A) (p q : Pass G) (a : A)
      → ask f p ≡ (ok a, q)
      → (f p.world.store ≡ a) × (p ≡ q)
  unfolding ask within query
  ask_lem f p q a h = (cc, cc)

  raised_lem : {A : Type 0} (r : Result Message A) (a : A) → raised r ≡ ok a → r ≡ ok a
  raised_lem (ok b) a h = let same : b ≡ a = cc in ap ok same
  raised_lem (err m) a h = absurd (cc h)

  pub read_lem :
      {A : Type 0} (m : Exec Message G A) (p q : Pass G) (a : A)
      → within (call m) p ≡ (ok a, q)
      → (m p.world.github).0 ≡ ok a
  unfolding within call
  read_lem m p q a h =
      raised_lem (m p.world.github).0 a (ap (λ (r : Result Error _ × Pass G). r.0) h)

  -- the loop starts here: nothing memoized, and GitHub as it answered the listing
  abbrev pub started : G → Store → Pass G
  started g s = begin (record { store = s; github = (client.list_open_issues plan_ready g).1 })

  -- what a note of the store leaves of a pass
  abbrev pub noted : Preorder (Pass G)
  noted = record {
    Rel = λ p q.
        (p.world.github ≡ q.world.github)
        × (p.blocked ≡ q.blocked)
        × (p.prs ≡ q.prs)
        × (p.settings ≡ q.settings);
    same = λ p. (refl, refl, refl, refl);
    along = λ p q r h k. (h.0 ∙ k.0, h.1 ∙ k.1, h.2 ∙ k.2, h.3 ∙ k.3);
  }

  Keeps-note : (op : ℕ → Store → Store) → Keeps noted (note client op)
  unfolding within write
  Keeps-note op p = (refl, refl, refl, refl)

  Keeps-ask : {A : Type 0} (f : Store → A) → Keeps noted (ask f)
  unfolding ask within query
  Keeps-ask f p = (refl, refl, refl, refl)

  Keeps-note_if : (b : Bool) (op : ℕ → Store → Store) → Keeps noted (note_if client b op)
  Keeps-note_if true op = Keeps-note op
  Keeps-note_if false op = Keeps-pure noted Error tt

  Keeps-clear_departed :
      (listed : List ℕ) (clear : ℕ → Store → Store) (ns : List ℕ)
      → Keeps noted (clear_departed client listed clear ns)
  unfolding clear_departed
  Keeps-clear_departed listed clear [] = Keeps-pure noted Error tt
  Keeps-clear_departed listed clear (n ∷ ns) =
      Keeps-bind noted _ _ (Keeps-note_if (not (contains listed n)) (λ _. clear n))
        (λ _. Keeps-clear_departed listed clear ns)

  kept :
      {A : Type 0} (m : Exec Error (Pass G) A) (p q : Pass G) (a : A)
      → Keeps noted m
      → m p ≡ (ok a, q)
      → noted.Rel p q
  kept m p q a k h = subst (λ (r : Result Error _ × Pass G). noted.Rel p r.1) h (k p)

  pub asked :
      {A : Type 0} (f : Store → A) (p q : Pass G) (a : A) → ask f p ≡ (ok a, q) → noted.Rel p q
  asked f p q a h = kept (ask f) p q a (Keeps-ask f) h

  pub cleared :
      (listed : List ℕ) (clear : ℕ → Store → Store) (ns : List ℕ) (p q : Pass G) (u : Unit {0})
      → clear_departed client listed clear ns p ≡ (ok u, q)
      → noted.Rel p q
  cleared listed clear ns p q u h =
      kept (clear_departed client listed clear ns) p q u (Keeps-clear_departed listed clear ns) h

  pub listed_lem :
      (p q : Pass G) (is : List Issue)
      → within (call (client.list_open_issues plan_ready)) p ≡ (ok is, q)
      → noted.Rel
          (record p {
            world = record p.world {
              github = (client.list_open_issues plan_ready p.world.github).1;
            };
          })
          q
  unfolding within call
  listed_lem p q is h =
      subst
        (λ (r : Result Error (List Issue) × Pass G).
          noted.Rel
            (record p {
              world = record p.world {
                github = (client.list_open_issues plan_ready p.world.github).1;
              };
            })
            r.1)
        h (refl, refl, refl, refl)

  rebuilt :
      (h : G) (q : Pass G)
      → h ≡ q.world.github
      → [] ≡ q.blocked
      → [] ≡ q.prs
      → none ≡ q.settings
      → q ≡ begin (record { store = q.world.store; github = h })
  rebuilt h q a b c d = cc

  pub started_lem :
      (w : World G) (p₂ p₃ q : Pass G)
      → begin w ≡ p₂
      → noted.Rel
          (record p₂ {
            world = record p₂.world {
              github = (client.list_open_issues plan_ready p₂.world.github).1;
            };
          })
          p₃
      → noted.Rel p₃ q
      → q ≡ started w.github q.world.store
  started_lem w p₂ p₃ q e h k =
      let whole = rw (sym e) at h in
      rebuilt _ q (whole.0 ∙ k.0) (whole.1 ∙ k.1) (whole.2 ∙ k.2) (whole.3 ∙ k.3)
