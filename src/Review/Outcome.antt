-- ===== src/Review/Outcome.antt =====
-- What a round's outcome says of what it did: the rules for each way to build an action of the review,
-- for `search`. `Quiet` is the part of a round that may go without a verdict, `Ends` what holds of
-- every answer.
use the_ozolith.Common.{
  ◌≡◌, refl, sym, subst, ◌≢◌, Option, none, some, nat_eq, string_eq, pair_eq, triple_eq, list_eq,
}
use the_ozolith.Common.Exec.{
  Result, ok, err, Exec, pure, raise, gets, continue, ◌>>=◌, recover, catch,
}
use the_ozolith.Common.Keeps.{Preorder}
use the_ozolith.Common.Steady.{Steady}
use the_ozolith.Review.{Fault}
use the_ozolith.Review.Base.{finally, after}

module _ {S A : Type 0} (R : Preorder S) where
  pub Steady-gets : (f : S → A) → Steady {E = Fault} R (gets f)
  unfolding gets
  Steady-gets f = record { at = λ s. R.same s }

  after_lem : (r : Result Fault A) (p : Result Fault (Unit {0}) × S) → (after r p).1 ≡ p.1
  after_lem r (ok u, s) = refl
  after_lem r (err e, s) = refl

  pub Steady-finally :
      (m : Exec Fault S A) (k : Exec Fault S (Unit {0}))
      → Steady R m
      → Steady R k
      → Steady R (finally m k)
  unfolding finally
  Steady-finally m k km kk = record {
    at = λ s.
        subst (R.Rel s) (sym (after_lem (m s).0 (k (m s).1)))
          (R.along s (m s).1 (k (m s).1).1 (km.at s) (kk.at (m s).1));
  }

module _ {S A : Type 0} where
  after_none :
      (r : Result Fault (Option A)) (p : Result Fault (Unit {0}) × S)
      → (after r p).0 ≡ ok none
      → r ≡ ok none
  after_none r (ok u, s) h = h
  after_none r (err e, s) h = absurd (cc h)

-- when `m` returns none, it went from a state to one related to it
pub record Quiet {E A S : Type 0} (R : Preorder S) (m : Exec E S (Option A)) : Type 0 where
  pub quiet : (s : S) → (m s).0 ≡ ok none → R.Rel s (m s).1

module _ {A S : Type 0} {R : Preorder S} where
  pub Quiet-Steady : (m : Exec Fault S (Option A)) → Steady R m → Quiet R m
  Quiet-Steady m k = record { quiet = λ s h. k.at s }

  pub Quiet-raise : (e : Fault) → Quiet {A = A} R (raise e)
  unfolding raise
  Quiet-raise e = record { quiet = λ s h. absurd (cc h) }

  pub Quiet-some : (a : A) → Quiet {E = Fault} R (pure (some a))
  unfolding pure
  Quiet-some a = record { quiet = λ s h. absurd (cc h) }

  pub Quiet-finally :
      (m : Exec Fault S (Option A)) (k : Exec Fault S (Unit {0}))
      → Quiet R m
      → Steady R k
      → Quiet R (finally m k)
  unfolding finally
  Quiet-finally m k km kk = record {
    quiet = λ s h. subst (R.Rel s) (sym (after_lem R (m s).0 (k (m s).1))) (
        R.along s (m s).1 (k (m s).1).1 (km.quiet s (after_none (m s).0 (k (m s).1) h))
          (kk.at (m s).1));
  }

module _ {A B S : Type 0} {R : Preorder S} where
  continue_lem :
      (r : Result Fault B) (f : B → Exec Fault S (Option A)) (s t : S)
      → R.Rel s t
      → ((b : B) → Quiet R (f b))
      → (continue r f t).0 ≡ ok none
      → R.Rel s (continue r f t).1
  continue_lem (ok b) f s t h k e = R.along s t (f b t).1 h ((k b).quiet t e)
  continue_lem (err x) f s t h k e = h

  -- the start of the sequence only reads
  pub Quiet-bind :
      (m : Exec Fault S B) (f : B → Exec Fault S (Option A))
      → Steady R m
      → ((b : B) → Quiet R (f b))
      → Quiet R (m >>= f)
  unfolding ◌>>=◌
  Quiet-bind m f km kf = record { quiet = λ s e. continue_lem (m s).0 f s (m s).1 (km.at s) kf e }
  -- the end of the sequence never answers none

-- `m` never returns none
pub record Loud {E A S : Type 0} (m : Exec E S (Option A)) : Type 0 where
  pub loud : (s : S) → (m s).0 ≢ ok none

module _ {A S : Type 0} where
  pub Loud-some : (a : A) → Loud {E = Fault} {S = S} (pure (some a))
  unfolding pure
  Loud-some a = record { loud = λ s h. cc h }

  pub Loud-raise : (e : Fault) → Loud {A = A} {S = S} (raise e)
  unfolding raise
  Loud-raise e = record { loud = λ s h. cc h }

  pub Quiet-Loud : {R : Preorder S} (m : Exec Fault S (Option A)) → Loud m → Quiet R m
  Quiet-Loud m k = record { quiet = λ s h. absurd (k.loud s h) }

module _ {A B S : Type 0} where
  loud_lem :
      (r : Result Fault B) (f : B → Exec Fault S (Option A)) (t : S)
      → ((b : B) → Loud (f b))
      → (continue r f t).0 ≢ ok none
  loud_lem (ok b) f t k h = (k b).loud t h
  loud_lem (err x) f t k h = cc h

  pub Loud-bind :
      (m : Exec Fault S B) (f : B → Exec Fault S (Option A))
      → ((b : B) → Loud (f b))
      → Loud (m >>= f)
  unfolding ◌>>=◌
  Loud-bind m f k = record { loud = λ s. loud_lem (m s).0 f (m s).1 k }

-- `P` holds of what `m` returns
abbrev pub Holds : {E A : Type 0} → (A → Type 0) → Result E A → Type 0
Holds P (ok a) = P a
Holds P (err e) = Unit

pub record Ends {E A S : Type 0} (P : A → Type 0) (m : Exec E S A) : Type 0 where
  pub ends : (s : S) → Holds P (m s).0

module _ {A S : Type 0} (P : A → Type 0) where
  after-Holds :
      (r : Result Fault A) (p : Result Fault (Unit {0}) × S) → Holds P r → Holds P (after r p).0
  after-Holds r (ok u, s) h = h
  after-Holds r (err e, s) h = tt

module _ {A S : Type 0} {P : A → Type 0} where
  pub Ends-pure : (a : A) → P a → Ends {E = Fault} {S = S} P (pure a)
  unfolding pure
  Ends-pure a p = record { ends = λ s. p }

  pub Ends-raise : (e : Fault) → Ends {S = S} P (raise e)
  unfolding raise
  Ends-raise e = record { ends = λ s. tt }

  recover_lem :
      (r : Result Fault A) (f : Fault → Exec Fault S A) (t : S)
      → Holds P r
      → ((e : Fault) → Ends P (f e))
      → Holds P (recover r f t).0
  recover_lem (ok a) f t h k = h
  recover_lem (err e) f t h k = (k e).ends t

  pub Ends-catch :
      (m : Exec Fault S A) (f : Fault → Exec Fault S A)
      → Ends P m
      → ((e : Fault) → Ends P (f e))
      → Ends P (catch m f)
  unfolding catch
  Ends-catch m f km kf = record { ends = λ s. recover_lem (m s).0 f (m s).1 (km.ends s) kf }

  pub Ends-finally :
      (m : Exec Fault S A) (k : Exec Fault S (Unit {0})) → Ends P m → Ends P (finally m k)
  unfolding finally
  Ends-finally m k km = record { ends = λ s. after-Holds P (m s).0 (k (m s).1) (km.ends s) }

module _ {A B S : Type 0} {Q : B → Type 0} {P : A → Type 0} where
  ends_lem :
      (r : Result Fault B) (f : B → Exec Fault S A) (t : S)
      → Holds Q r
      → ((b : B) → Q b → Ends P (f b))
      → Holds P (continue r f t).0
  ends_lem (ok b) f t h k = (k b h).ends t
  ends_lem (err x) f t h k = tt

  pub Ends-then :
      (m : Exec Fault S B) (f : B → Exec Fault S A)
      → Ends Q m
      → ((b : B) → Q b → Ends P (f b))
      → Ends P (m >>= f)
  unfolding ◌>>=◌
  Ends-then m f km kf = record { ends = λ s. ends_lem (m s).0 f (m s).1 (km.ends s) kf }

module _ {A B S : Type 0} {P : A → Type 0} where
  bind_lem :
      (r : Result Fault B) (f : B → Exec Fault S A) (t : S)
      → ((b : B) → Ends P (f b))
      → Holds P (continue r f t).0
  bind_lem (ok b) f t k = (k b).ends t
  bind_lem (err x) f t k = tt

  -- whatever the start of the sequence returns
  pub Ends-bind :
      (m : Exec Fault S B) (f : B → Exec Fault S A) → ((b : B) → Ends P (f b)) → Ends P (m >>= f)
  unfolding ◌>>=◌
  Ends-bind m f k = record { ends = λ s. bind_lem (m s).0 f (m s).1 k }
