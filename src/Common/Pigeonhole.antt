-- ===== src/Common/Pigeonhole.antt =====
-- Lists without repetition, and that one of them fits into the list of what it holds.
use package.the_ozolith.Common.Lists.{length, All}
use package.the_ozolith.Common.Classes.{
  nat_eq, contains, set_remove, contains-append, contains-set_remove,
}
use Prim.Native.Nat.{ℕ, ◌≤◌, ◌<◌}
use mathlib.Core.Path.{◌≡◌, refl, ap}
use mathlib.Core.Bool.{true, false}
use mathlib.Core.List.{List, [], ◌∷◌, ◌++◌}
use native.Mathlib.Omega.{arith}

-- no number twice
abbrev pub Unique : List ℕ → Type 0
Unique [] = Unit
Unique (n ∷ ns) = (contains ns n ≡ false) × Unique ns

pub Unique-append :
    (ns : List ℕ) (n : ℕ) → Unique ns → contains ns n ≡ false → Unique (ns ++ n ∷ [])
Unique-append [] n u h = (refl, tt)
Unique-append (m ∷ ns) n u h = (
  rw (contains-append ns (n ∷ []) m) (ground (arith, u.0, h)),
  Unique-append ns n u.1 (ground (arith, h)),
)

length-set_remove-le : (ms : List ℕ) (n : ℕ) → length (set_remove ms n) ≤ length ms
length-set_remove-le [] n = omega arith
length-set_remove-le (m ∷ ms) n = ground (arith, length-set_remove-le ms n)

length-set_remove-lt :
    (ms : List ℕ) (n : ℕ) → contains ms n ≡ true → length (set_remove ms n) < length ms
length-set_remove-lt [] n h = absurd (cc h)
length-set_remove-lt (m ∷ ms) n h =
    ground (arith, length-set_remove-lt ms n, length-set_remove-le ms n, h)

-- what is not the number removed stays
stay_lem :
    (ms : List ℕ) (n : ℕ) (ns : List ℕ)
    → contains ns n ≡ false
    → All (λ (m : ℕ). contains ms m ≡ true) ns
    → All (λ (m : ℕ). contains (set_remove ms n) m ≡ true) ns
stay_lem ms n [] u h = tt
stay_lem ms n (m ∷ ns) u h = (
  rw (contains-set_remove ms n m) (ground (arith, u, h.0)),
  stay_lem ms n ns (ground (arith, u)) h.1,
)

-- Numbers of a list, none of them twice, are no more than the list holds.
pub length-Unique-le :
    (ns ms : List ℕ) → Unique ns → All (λ (m : ℕ). contains ms m ≡ true) ns → length ns ≤ length ms
length-Unique-le [] ms u h = omega arith
length-Unique-le (n ∷ ns) ms u h = omega (
  arith,
  length-Unique-le ns (set_remove ms n) u.1 (stay_lem ms n ns u.0 h.1),
  length-set_remove-lt ms n h.0,
)

pub append_one : (ns : List ℕ) (n : ℕ) (rest : List ℕ) → (ns ++ n ∷ []) ++ rest ≡ ns ++ n ∷ rest
append_one [] n rest = refl
append_one (m ∷ ns) n rest = ap (λ (l : List ℕ). m ∷ l) (append_one ns n rest)
