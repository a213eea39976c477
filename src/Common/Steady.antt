-- ===== src/Common/Steady.antt =====
-- `Keeps` as a family, with a rule for each way to build an action, for `search`.
use package.the_ozolith.Common.Tests.{if◌then◌else◌}
use package.the_ozolith.Common.Exec.{Exec, pure, raise, ◌>>=◌, catch, tried}
use package.the_ozolith.Common.Keeps.{
  Preorder, Keeps, Keeps-bind, Keeps-catch, Keeps-pure, Keeps-raise,
}
use mathlib.Core.Bool.{Bool, true, false}

-- `m` takes a state only to states related to it, whether it returns or raises
pub record Steady {E A S : Type 0} (R : Preorder S) (m : Exec E S A) : Type 0 where
  pub at : Keeps R m

-- the relation of an invariant
abbrev pub invariant : {S : Type 0} → (S → Type 0) → Preorder S
invariant P = record { Rel = λ s t. P s → P t; same = λ s h. h; along = λ s t u f g h. g (f h) }

module _ {E A S : Type 0} {R : Preorder S} where
  pub Steady-pure : (a : A) → Steady {E = E} R (pure a)
  Steady-pure a = record { at = Keeps-pure R E a }

  pub Steady-raise : (e : E) → Steady {A = A} R (raise e)
  Steady-raise e = record { at = Keeps-raise R E A e }

  pub Steady-if :
      (b : Bool) (m n : Exec E S A) → Steady R m → Steady R n → Steady R (if b then m else n)
  Steady-if true m n km kn = km
  Steady-if false m n km kn = kn

  pub Steady-catch :
      (m : Exec E S A) (f : E → Exec E S A)
      → Steady R m
      → ((e : E) → Steady R (f e))
      → Steady R (catch m f)
  Steady-catch m f km kf = record { at = Keeps-catch R m f km.at (λ e. (kf e).at) }

  pub Steady-tried : (m : Exec E S A) → Steady R m → Steady R (tried m)
  Steady-tried m k = record { at = k.at }

module _ {E A B S : Type 0} {R : Preorder S} where
  pub Steady-bind :
      (m : Exec E S A) (f : A → Exec E S B)
      → Steady R m
      → ((a : A) → Steady R (f a))
      → Steady R (m >>= f)
  Steady-bind m f km kf = record { at = Keeps-bind R m f km.at (λ a. (kf a).at) }

pub ruleset steady_rules =
    (Steady-pure, Steady-raise, Steady-if, Steady-catch, Steady-tried, Steady-bind)
