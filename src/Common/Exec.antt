-- ===== src/Common/Exec.antt =====
-- A routine that mutates a state and may raise: what it wrote before it raised stays written.
use mathlib.Core.Path.{◌≡◌, refl, ap}

pub data Result {ℓ κ} (E : Type κ) (A : Type ℓ) : Type (ℓ ⊔ κ) where
  ok : A → Result E A
  err : E → Result E A

abbrev pub Exec {ℓ} : Type ℓ → Type ℓ → Type ℓ → Type ℓ
Exec E S A = S → Result E A × S

module _ {ℓ} {E S A : Type ℓ} where
  unfoldable pub pure : A → Exec E S A
  pure a s = (ok a, s)

  unfoldable pub raise : E → Exec E S A
  raise e s = (err e, s)

  -- a read of the state
  unfoldable pub gets : (S → A) → Exec E S A
  gets f s = (ok (f s), s)

module _ {ℓ} {E S A B : Type ℓ} where
  abbrev pub continue : Result E A → (A → Exec E S B) → Exec E S B
  continue (ok a) f s = f a s
  continue (err e) f s = (err e, s)

  infixl 5 ◌>>=◌ ◌>>◌
  -- opening this opens `pure`, `raise` and `gets` too
  unfoldable pub ◌>>=◌ : Exec E S A → (A → Exec E S B) → Exec E S B
  unfolding pure raise gets
  ◌>>=◌ m f s = let (r, s') = m s in continue r f s'

  abbrev pub ◌>>◌ : Exec E S A → Exec E S B → Exec E S B
  m >> n = m >>= λ _. n

module _ {ℓ} {E S A : Type ℓ} where
  abbrev pub recover : Result E A → (E → Exec E S A) → Exec E S A
  recover (ok a) h s = (ok a, s)
  recover (err e) h s = h e s

  -- `try: m except E as e: h(e)`
  unfoldable pub catch : Exec E S A → (E → Exec E S A) → Exec E S A
  catch m h s = let (r, s') = m s in recover r h s'

-- the outcome of `m` as a value, for a handler that goes on
abbrev pub tried {ℓ} : {E S A : Type ℓ} → Exec E S A → Exec E S (Result E A)
tried m s = let (r, t) = m s in (ok r, t)

-- Inversion of a bind that returned.
module _ {ℓ} {E S A B : Type ℓ} where
  abbrev pub Returned : Exec E S A → (A → Exec E S B) → S → B → S → Type ℓ
  Returned m f s b t = (a : A) × (u : S) × (m s ≡ (ok a, u)) × (f a u ≡ (ok b, t))

  continue-eq-ok :
      (r : Result E A) (f : A → Exec E S B) (u : S) {b : B} {t : S}
      → continue r f u ≡ (ok b, t)
      → (a : A) × (r ≡ ok a) × (f a u ≡ (ok b, t))
  continue-eq-ok (ok a) f u h = (a, refl, h)
  continue-eq-ok (err e) f u h = absurd (cc (ap (λ (p : Result E B × S). p.0) h))

  pub bind-eq-ok :
      (m : Exec E S A) (f : A → Exec E S B) (s : S) {b : B} {t : S}
      → (m >>= f) s ≡ (ok b, t)
      → Returned m f s b t
  unfolding ◌>>=◌
  bind-eq-ok m f s h =
      let (r, u) = m s in
      let (a, e, g) = continue-eq-ok r f u h in (a, u, ap (λ (q : Result E A). (q, u)) e, g)

  -- the same, handed on to what follows from it
  pub bind-elim {κ} :
      {P : Type κ} (m : Exec E S A) (f : A → Exec E S B) (s : S) {b : B} {t : S}
      → (m >>= f) s ≡ (ok b, t)
      → ((a : A) (u : S) → m s ≡ (ok a, u) → f a u ≡ (ok b, t) → P)
      → P
  bind-elim m f s h k = let r = bind-eq-ok m f s h in k r.0 r.1 r.2 r.3
