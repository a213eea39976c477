-- ===== src/Common/Classes.antt =====
-- Equality tests as an instance, for numbers, texts and the pairs that key the tables; lists as sets.
use Prim.Native.Nat.{ℕ}
use Prim.Native.String.{String}
use mathlib.Core.Path.{◌≡◌, refl}
use mathlib.Core.Logic.{◌↔◌, ◌≢◌}
use mathlib.Core.Bool.{Bool, true, false, ◌&&◌, ◌||◌}
use mathlib.Core.List.{List, [], ◌∷◌, ◌++◌}
use mathlib.Core.Option.{Option, none, some}
use native.Mathlib.Omega.{arith}
use text.Mathlib.Text.{◌==◌ as str_beq}
use text.Mathlib.TextEquality.{eq_iff}
use package.the_ozolith.Common.Tests.{nat_beq, nat_beq_iff, if◌then◌else◌}

-- a type whose elements the program compares
pub record Eq {ℓ} (A : Type ℓ) : Type ℓ where
  pub equal : A → A → Bool
  pub equal_iff : (x y : A) → (equal x y ≡ true) ↔ (x ≡ y)

instance abbrev pub string_eq : Eq String
string_eq = record { equal = str_beq; equal_iff = eq_iff }

instance abbrev pub nat_eq : Eq ℕ
nat_eq = record { equal = nat_beq; equal_iff = nat_beq_iff }

module _ {ℓ} {A : Type ℓ} ⦃class : Eq A⦄ where
  infix 50 ◌==◌
  abbrev pub ◌==◌ : A → A → Bool
  x == y = class.equal x y

module _ {ℓ κ} {A : Type ℓ} {B : Type κ} ⦃a : Eq A⦄ ⦃b : Eq B⦄ where
  abbrev pub pair_beq : A × B → A × B → Bool
  pair_beq (x, y) (u, v) = a.equal x u && b.equal y v

  pub pair_beq_iff : (p q : A × B) → (pair_beq p q ≡ true) ↔ (p ≡ q)
  pair_beq_iff (x, y) (u, v) = ground (arith, a.equal_iff x u, b.equal_iff y v)

  instance abbrev pub pair_eq : Eq (A × B)
  pair_eq = record { equal = pair_beq; equal_iff = pair_beq_iff }

module _ {ℓ} {A : Type ℓ} ⦃e : Eq A⦄ where
  pub ==_refl : (a : A) → (a == a) ≡ true
  ==_refl a = (e.equal_iff a a).1 refl

  pub ==_true : (a b : A) → (a == b) ≡ true → a ≡ b
  ==_true a b h = (e.equal_iff a b).0 h

  pub ==_false_of_ne : (a b : A) → a ≢ b → (a == b) ≡ false
  ==_false_of_ne a b h = ground (arith, e.equal_iff a b)

  -- Python's `a in xs`
  abbrev pub contains : List A → A → Bool
  contains [] a = false
  contains (x ∷ xs) a = x == a || contains xs a

  -- `set.add`: the elements are kept without repetition
  abbrev pub set_add : List A → A → List A
  set_add xs a = if contains xs a then xs else xs ++ a ∷ []

  -- `set - {a}`
  abbrev pub set_remove : List A → A → List A
  set_remove [] a = []
  set_remove (x ∷ xs) a = let rest = set_remove xs a in if x == a then rest else x ∷ rest

  pub contains-append :
      (xs ys : List A) (a : A) → contains (xs ++ ys) a ≡ (contains xs a || contains ys a)
  contains-append [] ys a = refl
  contains-append (x ∷ xs) ys a = ground (arith, contains-append xs ys a)

  pub contains-set_remove :
      (xs : List A) (a b : A)
      → contains (set_remove xs a) b ≡ (if a == b then false else contains xs b)
  contains-set_remove [] a b = ground arith
  contains-set_remove (x ∷ xs) a b =
      ground (arith, contains-set_remove xs a b, e.equal_iff x a, e.equal_iff x b, e.equal_iff a b)

module _ {ℓ κ ξ} {A : Type ℓ} {B : Type κ} {C : Type ξ} ⦃a : Eq A⦄ ⦃b : Eq B⦄ ⦃c : Eq C⦄ where
  abbrev pub triple_beq : A × B × C → A × B × C → Bool
  triple_beq (x, y, z) (u, v, w) = a.equal x u && b.equal y v && c.equal z w

  pub triple_beq_iff : (p q : A × B × C) → (triple_beq p q ≡ true) ↔ (p ≡ q)
  triple_beq_iff (x, y, z) (u, v, w) =
      ground (arith, a.equal_iff x u, b.equal_iff y v, c.equal_iff z w)

  instance abbrev pub triple_eq : Eq (A × B × C)
  triple_eq = record { equal = triple_beq; equal_iff = triple_beq_iff }

module _ {ℓ} {A : Type ℓ} ⦃e : Eq A⦄ where
  abbrev pub list_beq : List A → List A → Bool
  list_beq [] [] = true
  list_beq [] (y ∷ ys) = false
  list_beq (x ∷ xs) [] = false
  list_beq (x ∷ xs) (y ∷ ys) = x == y && list_beq xs ys

  pub list_beq_iff : (xs ys : List A) → (list_beq xs ys ≡ true) ↔ (xs ≡ ys)
  list_beq_iff [] [] = ground arith
  list_beq_iff [] (y ∷ ys) = ground arith
  list_beq_iff (x ∷ xs) [] = ground arith
  list_beq_iff (x ∷ xs) (y ∷ ys) = ground (arith, e.equal_iff x y, list_beq_iff xs ys)

  instance abbrev pub list_eq : Eq (List A)
  list_eq = record { equal = list_beq; equal_iff = list_beq_iff }

-- Python's `a is not None and a == b`
abbrev pub is_value {ℓ} : {A : Type ℓ} ⦃e : Eq A⦄ → Option A → A → Bool
is_value none b = false
is_value (some a) b = a == b

-- equality of values that may be NULL, as GROUP BY has it
abbrev pub same_option {ℓ} : {A : Type ℓ} ⦃e : Eq A⦄ → Option A → Option A → Bool
same_option none none = true
same_option none (some b) = false
same_option (some a) none = false
same_option (some a) (some b) = a == b

pub same_option-true {ℓ} : {A : Type ℓ} ⦃e : Eq A⦄ (a b : Option A) → same_option a b ≡ true → a ≡ b
same_option-true none none h = refl
same_option-true none (some b) h = cc
same_option-true (some a) none h = cc
same_option-true ⦃e⦄ (some a) (some b) h = ground (arith, e.equal_iff a b)

pub same_option_refl {ℓ} : {A : Type ℓ} ⦃e : Eq A⦄ (a : Option A) → same_option a a ≡ true
same_option_refl none = refl
same_option_refl ⦃e⦄ (some a) = ==_refl a
