-- ===== src/Common/Table.antt =====
-- A table of the cache database with a primary key: an association list in insertion order.
use package.the_ozolith.Common.Tests.{if◌then◌else◌}
use package.the_ozolith.Common.Lists.{length}
use package.the_ozolith.Common.Classes.{Eq, ◌==◌}
use Prim.Native.Nat.{◌+◌, ◌≤◌}
use mathlib.Core.Path.{◌≡◌, refl}
use mathlib.Core.Logic.{◌≢◌}
use mathlib.Core.Option.{Option, none, some}
use mathlib.Core.List.{List, [], ◌∷◌}
use native.Mathlib.Omega.{arith}

abbrev pub Table {ℓ κ} : Type ℓ → Type κ → Type (ℓ ⊔ κ)
Table K V = List (K × V)

abbrev pub map_option {ℓ} : {V : Type ℓ} → (V → V) → Option V → Option V
map_option f none = none
map_option f (some v) = some (f v)

module _ {ℓ κ} {K : Type ℓ} {V : Type κ} ⦃e : Eq K⦄ where
  -- SELECT … WHERE key = k
  unfoldable pub find : K → Table K V → Option V
  find k [] = none
  find k ((j, v) ∷ t) = if j == k then some v else find k t

  -- INSERT … ON CONFLICT DO UPDATE, the whole new row given
  unfoldable pub put : K → V → Table K V → Table K V
  put k v [] = (k, v) ∷ []
  put k v ((j, w) ∷ t) = if j == k then (k, v) ∷ t else (j, w) ∷ put k v t

  -- DELETE … WHERE key = k
  unfoldable pub delete : K → Table K V → Table K V
  delete k [] = []
  delete k ((j, v) ∷ t) = let rest = delete k t in if j == k then rest else (j, v) ∷ rest

  -- UPDATE … WHERE key = k
  unfoldable pub update : K → (V → V) → Table K V → Table K V
  update k f [] = []
  update k f ((j, v) ∷ t) =
      let rest = update k f t in if j == k then (j, f v) ∷ rest else (j, v) ∷ rest

  pub find-put :
      (k j : K) (v : V) (t : Table K V) → find j (put k v t) ≡ (if k == j then some v else find j t)
  unfolding find put
  find-put k j v [] = refl
  find-put k j v ((i, w) ∷ t) =
      ground (arith, find-put k j v t, e.equal_iff k j, e.equal_iff i k, e.equal_iff i j)

  pub find-delete :
      (k j : K) (t : Table K V) → find j (delete k t) ≡ (if k == j then none else find j t)
  unfolding find delete
  find-delete k j [] = ground arith
  find-delete k j ((i, w) ∷ t) =
      ground (arith, find-delete k j t, e.equal_iff k j, e.equal_iff i k, e.equal_iff i j)

  pub find-update :
      (k j : K) (f : V → V) (t : Table K V)
      → find j (update k f t) ≡ (if k == j then map_option f (find j t) else find j t)
  unfolding find update
  find-update k j f [] = ground arith
  find-update k j f ((i, w) ∷ t) =
      ground (arith, find-update k j f t, e.equal_iff k j, e.equal_iff i k, e.equal_iff i j)

  pub find-put_self : (k : K) (v : V) (t : Table K V) → find k (put k v t) ≡ some v
  find-put_self k v t = ground (arith, find-put k k v t, e.equal_iff k k)

  pub find-delete_self : (k : K) (t : Table K V) → find k (delete k t) ≡ none
  find-delete_self k t = ground (arith, find-delete k k t, e.equal_iff k k)

  pub find-put_ne : (k j : K) (v : V) (t : Table K V) → k ≢ j → find j (put k v t) ≡ find j t
  find-put_ne k j v t h = ground (arith, find-put k j v t, e.equal_iff k j)

  pub find-delete_ne : (k j : K) (t : Table K V) → k ≢ j → find j (delete k t) ≡ find j t
  find-delete_ne k j t h = ground (arith, find-delete k j t, e.equal_iff k j)

  pub length-put-le : (k : K) (v : V) (t : Table K V) → length (put k v t) ≤ length t + 1
  unfolding put
  length-put-le k v [] = omega arith
  length-put-le k v ((i, w) ∷ t) = ground (arith, length-put-le k v t)

pub ruleset table_laws = (find-put, find-delete, find-update)
