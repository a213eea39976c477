-- ===== src/GitHub/Kept.antt =====
-- What calls of the client and operations of the store keep, of a relation on the store.
use the_ozolith.Common.{ℕ, ◌≡◌, ap, nat_eq, string_eq, pair_eq, triple_eq, list_eq}
use the_ozolith.Common.Exec.{Result, ok, err, Exec}
use the_ozolith.Common.Message.{Message}
use the_ozolith.Common.Keeps.{Preorder, Keeps}
use the_ozolith.Deps.{Error}
use the_ozolith.Store.{Store}
use the_ozolith.GitHub.{World, raised, call, query, update_with, write}

-- the relation on the store of a world
abbrev pub on_store : {G : Type 0} → Preorder Store → Preorder (World G)
on_store R = record {
  Rel = λ w u. R.Rel w.store u.store;
  same = λ w. R.same w.store;
  along = λ w u v. R.along w.store u.store v.store;
}

module _ {G A : Type 0} (R : Preorder Store) where
  pub Keeps-call : (m : Exec Message G A) → Keeps (on_store R) (call m)
  unfolding call
  Keeps-call m w = R.same w.store

  pub Keeps-query : (f : Store → A) → Keeps {E = Error} (on_store {G = G} R) (query f)
  unfolding query
  Keeps-query f w = R.same w.store

  pub Keeps-update_with :
      (clock : G → ℕ) (op : ℕ → Store → A × Store)
      → ((now : ℕ) (s : Store) → R.Rel s (op now s).1)
      → Keeps (on_store R) (update_with clock op)
  unfolding update_with
  Keeps-update_with clock op k w = k (clock w.github) w.store

module _ {G : Type 0} (R : Preorder Store) where
  pub Keeps-write :
      (clock : G → ℕ) (op : ℕ → Store → Store)
      → ((now : ℕ) (s : Store) → R.Rel s (op now s))
      → Keeps (on_store R) (write clock op)
  unfolding write
  Keeps-write clock op k w = k (clock w.github) w.store

raised-eq-ok : {A : Type 0} (r : Result Message A) (a : A) → raised r ≡ ok a → r ≡ ok a
raised-eq-ok (ok b) a h = let same : b ≡ a = cc in ap ok same
raised-eq-ok (err m) a h = absurd (cc h)

-- a call that answered, read off GitHub
pub call-eq-ok :
    {G A : Type 0} (m : Exec Message G A) (w u : World G) (a : A)
    → call m w ≡ (ok a, u)
    → m w.github ≡ (ok a, u.github)
unfolding call
call-eq-ok m w u a h =
    let answer = raised-eq-ok (m w.github).0 a (ap (λ (r : Result Error _ × World _). r.0) h) in
    let left = ap (λ (r : Result Error _ × World _). r.1.github) h in cc
