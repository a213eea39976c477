-- ===== src/Common/Decimal.antt =====
-- Numbers printed and read in decimal, as Python's `str(n)`, `s.isdigit()` and `int(s)` on ASCII.
use the_ozolith.Common.{
  ℕ, zero, suc, ◌+◌, ◌-◌, ◌*◌, ◌<◌, ◌≡◌, refl, ◌≢◌, inl, inr, Bool, true, false, ◌&&◌, List, [],
  ◌∷◌, ◌++◌, arith, ltb, leb, if◌then◌else◌, Bool-cases, nat_eq, string_eq, pair_eq, triple_eq,
}
use Prim.Native.Nat.{◌/◌, ◌%◌}

digits : ℕ → ℕ → List ℕ
digits zero n = []
digits (suc fuel) n =
    let front = digits fuel (n / 10) in
    if ltb n 10 then (48 + n) ∷ [] else front ++ (48 + n % 10) ∷ []

-- the fuel is more than the number of digits
unfoldable pub decimal : ℕ → List ℕ
unfolding digits
decimal n = digits (suc n) n

abbrev pub is_digit : ℕ → Bool
is_digit c = leb 48 c && leb c 57

unfoldable pub all_digits : List ℕ → Bool
all_digits [] = true
all_digits (c ∷ s) = is_digit c && all_digits s

-- `s.isdigit()` is false of the empty text
abbrev pub is_digits : List ℕ → Bool
unfolding all_digits
is_digits [] = false
is_digits (c ∷ s) = all_digits (c ∷ s)

value_from : ℕ → List ℕ → ℕ
value_from acc [] = acc
value_from acc (c ∷ s) = value_from (acc * 10 + (c - 48)) s

unfoldable pub value : List ℕ → ℕ
unfolding value_from
value s = value_from 0 s

value_from-append :
    (acc : ℕ) (s t : List ℕ) → value_from acc (s ++ t) ≡ value_from (value_from acc s) t
unfolding value_from
value_from-append acc [] t = refl
value_from-append acc (c ∷ s) t = value_from-append (acc * 10 + (c - 48)) s t

value_from-digits : (fuel n : ℕ) → n < fuel → value_from 0 (digits fuel n) ≡ n
unfolding digits value_from
value_from-digits zero n h = absurd (omega arith)
value_from-digits (suc fuel) n h = elim (Bool-cases (ltb n 10)) [
  | inl small ↦ rw small (omega arith)
  | inr large ↦ rw large (
      rw (value_from-append 0 (digits fuel (n / 10)) ((48 + n % 10) ∷ []))
        (rw (value_from-digits fuel (n / 10) (ground arith)) (omega arith)))
]

all_digits-append :
    (s t : List ℕ) → all_digits s ≡ true → all_digits t ≡ true → all_digits (s ++ t) ≡ true
unfolding all_digits
all_digits-append [] t hs ht = ht
all_digits-append (c ∷ s) t hs ht = ground (arith, all_digits-append s t)

all_digits-digits : (fuel n : ℕ) → n < fuel → all_digits (digits fuel n) ≡ true
unfolding digits all_digits
all_digits-digits zero n h = absurd (omega arith)
all_digits-digits (suc fuel) n h = elim (Bool-cases (ltb n 10)) [
  | inl small ↦ rw small (ground arith)
  | inr large ↦ rw large (
      all_digits-append (digits fuel (n / 10)) ((48 + n % 10) ∷ [])
        (all_digits-digits fuel (n / 10) (ground arith)) (ground arith))
]

append-ne-nil : (s : List ℕ) (c : ℕ) → (s ++ c ∷ []) ≢ []
append-ne-nil [] c e = cc
append-ne-nil (d ∷ s) c e = cc

digits-ne-nil : (fuel n : ℕ) → digits (suc fuel) n ≢ []
unfolding digits
digits-ne-nil fuel n = ground (arith, append-ne-nil (digits fuel (n / 10)) (48 + n % 10))

is_digits_of_all : (s : List ℕ) → s ≢ [] → all_digits s ≡ true → is_digits s ≡ true
unfolding all_digits
is_digits_of_all [] n h = absurd (n refl)
is_digits_of_all (c ∷ s) n h = h

pub all_digits-decimal : (n : ℕ) → all_digits (decimal n) ≡ true
unfolding decimal
all_digits-decimal n = all_digits-digits (suc n) n (omega arith)

-- What is printed reads as a number,
pub is_digits-decimal : (n : ℕ) → is_digits (decimal n) ≡ true
unfolding decimal
is_digits-decimal n =
    is_digits_of_all (digits (suc n) n) (digits-ne-nil n n)
      (all_digits-digits (suc n) n (omega arith))

-- and as the same number.
pub value-decimal : (n : ℕ) → value (decimal n) ≡ n
unfolding decimal value
value-decimal n = value_from-digits (suc n) n (omega arith)
