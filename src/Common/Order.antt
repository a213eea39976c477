-- ===== src/Common/Order.antt =====
-- ORDER BY: an insertion sort by a Boolean order, and what it keeps.
use mathlib.Core.Path.{◌≡◌, refl}
use mathlib.Core.Bool.{Bool, ◌||◌, ◌&&◌}
use mathlib.Core.List.{List, [], ◌∷◌}
use native.Mathlib.Omega.{arith}
use Prim.Native.Nat.{ℕ}
use Prim.Native.String.{String, compare}
use text.Mathlib.Text.{is_le, is_lt, ◌==◌ as str_beq}
use package.the_ozolith.Common.Tests.{if◌then◌else◌, leb}
use package.the_ozolith.Common.Lists.{any, All}

-- the order of texts
abbrev pub text_le : String → String → Bool
text_le s t = is_le (compare s t)

-- the order of a (repo, number) key
abbrev pub key_le : String × ℕ → String × ℕ → Bool
key_le (r, i) (s, j) = is_lt (compare r s) || (str_beq r s && leb i j)

module _ {ℓ} {A : Type ℓ} where
  unfoldable pub insert_by : (A → A → Bool) → A → List A → List A
  insert_by le x [] = x ∷ []
  insert_by le x (y ∷ ys) = let rest = insert_by le x ys in if le x y then x ∷ y ∷ ys else y ∷ rest

  unfoldable pub order_by : (A → A → Bool) → List A → List A
  unfolding insert_by
  order_by le [] = []
  order_by le (x ∷ xs) = insert_by le x (order_by le xs)

  any-insert_by :
      (test : A → Bool) (le : A → A → Bool) (x : A) (ys : List A)
      → any test (insert_by le x ys) ≡ (test x || any test ys)
  unfolding insert_by
  any-insert_by test le x [] = refl
  any-insert_by test le x (y ∷ ys) = ground (arith, any-insert_by test le x ys)

  -- Sorting keeps what the rows have.
  pub any-order_by :
      (test : A → Bool) (le : A → A → Bool) (xs : List A) → any test (order_by le xs) ≡ any test xs
  unfolding order_by
  any-order_by test le [] = refl
  any-order_by test le (x ∷ xs) =
      ground (arith, any-insert_by test le x (order_by le xs), any-order_by test le xs)

module _ {ℓ κ} {A : Type ℓ} (P : A → Type κ) where
  All-insert_by :
      (le : A → A → Bool) (x : A) (ys : List A) → P x → All P ys → All P (insert_by le x ys)
  unfolding insert_by
  All-insert_by le x [] p h = (p, h)
  All-insert_by le x (y ∷ ys) p h = ground (arith, p, h.0, h.1, All-insert_by le x ys p h.1)

  pub All-order_by : (le : A → A → Bool) (xs : List A) → All P xs → All P (order_by le xs)
  unfolding order_by
  All-order_by le [] h = h
  All-order_by le (x ∷ xs) h = All-insert_by le x (order_by le xs) h.0 (All-order_by le xs h.1)
