-- ===== src/Common/Keeps.antt =====
-- Routines that take a state only to states related to it, by a relation that composes.
use package.the_ozolith.Common.Exec.{
  Result, ok, err, Exec, pure, raise, ◌>>=◌, recover, catch, continue,
}

-- a relation that holds of equal states and along a sequence
pub record Preorder (S : Type 0) : Type 1 where
  pub Rel : S → S → Type 0
  pub same : (s : S) → Rel s s
  pub along : (s t u : S) → Rel s t → Rel t u → Rel s u

abbrev pub Keeps : {E A S : Type 0} → Preorder S → Exec E S A → Type 0
Keeps R m = (s : _) → R.Rel s (m s).1

module _ {S : Type 0} (R : Preorder S) (E : Type 0) where
  pub Keeps-pure : {A : Type 0} (a : A) → Keeps {E = E} R (pure a)
  unfolding pure
  Keeps-pure a s = R.same s

  pub Keeps-raise : (A : Type 0) (e : E) → Keeps {A = A} R (raise e)
  unfolding raise
  Keeps-raise A e s = R.same s

module _ {E S A B : Type 0} (R : Preorder S) where
  continue_lem :
      (r : Result E A) (f : A → Exec E S B) (s t : S)
      → R.Rel s t
      → ((a : A) → Keeps R (f a))
      → R.Rel s (continue r f t).1
  continue_lem (ok a) f s t h k = R.along s t (f a t).1 h (k a t)
  continue_lem (err e) f s t h k = h

  pub Keeps-bind :
      (m : Exec E S A) (f : A → Exec E S B)
      → Keeps R m
      → ((a : A) → Keeps R (f a))
      → Keeps R (m >>= f)
  unfolding ◌>>=◌
  Keeps-bind m f h k s = continue_lem (m s).0 f s (m s).1 (h s) k

module _ {E S A : Type 0} (R : Preorder S) where
  recover_lem :
      (r : Result E A) (f : E → Exec E S A) (s t : S)
      → R.Rel s t
      → ((e : E) → Keeps R (f e))
      → R.Rel s (recover r f t).1
  recover_lem (ok a) f s t h k = h
  recover_lem (err e) f s t h k = R.along s t (f e t).1 h (k e t)

  pub Keeps-catch :
      (m : Exec E S A) (f : E → Exec E S A)
      → Keeps R m
      → ((e : E) → Keeps R (f e))
      → Keeps R (catch m f)
  unfolding catch
  Keeps-catch m f h k s = recover_lem (m s).0 f s (m s).1 (h s) k
