-- ===== src/Common/Returns.antt =====
-- Actions that never raise, with a rule for each way to build one, for `search`.
use package.the_ozolith.Common.Tests.{if◌then◌else◌}
use package.the_ozolith.Common.Exec.{Result, ok, err, Exec, pure, ◌>>=◌, recover, catch, continue}
use mathlib.Core.Bool.{Bool, true, false}

abbrev pub IsOk : {E A : Type 0} → Result E A → Type 0
IsOk (ok a) = Unit
IsOk (err e) = ⊥

pub record Returns {E A S : Type 0} (m : Exec E S A) : Type 0 where
  pub at : (s : S) → IsOk (m s).0

module _ {E A S : Type 0} where
  pub Returns-pure : (a : A) → Returns {E = E} {S = S} (pure a)
  unfolding pure
  Returns-pure a = record { at = λ s. tt }

  pub Returns-if :
      (b : Bool) (m n : Exec E S A) → Returns m → Returns n → Returns (if b then m else n)
  Returns-if true m n km kn = km
  Returns-if false m n km kn = kn

  recover_lem :
      (r : Result E A) (f : E → Exec E S A) (s : S)
      → ((e : E) → Returns (f e))
      → IsOk (recover r f s).0
  recover_lem (ok a) f s k = tt
  recover_lem (err e) f s k = (k e).at s

  pub Returns-catch :
      (m : Exec E S A) (f : E → Exec E S A) → ((e : E) → Returns (f e)) → Returns (catch m f)
  unfolding catch
  Returns-catch m f k = record { at = λ s. recover_lem (m s).0 f (m s).1 k }

module _ {E A B S : Type 0} where
  continue_lem :
      (r : Result E A) (f : A → Exec E S B) (s : S)
      → IsOk r
      → ((a : A) → Returns (f a))
      → IsOk (continue r f s).0
  continue_lem (ok a) f s h k = (k a).at s
  continue_lem (err e) f s h k = absurd h

  pub Returns-bind :
      (m : Exec E S A) (f : A → Exec E S B)
      → Returns m
      → ((a : A) → Returns (f a))
      → Returns (m >>= f)
  unfolding ◌>>=◌
  Returns-bind m f km kf = record { at = λ s. continue_lem (m s).0 f (m s).1 (km.at s) kf }

pub ruleset returns_rules = (Returns-pure, Returns-if, Returns-catch, Returns-bind)
