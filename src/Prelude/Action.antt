-- ===== src/Prelude/Action.antt =====
-- A method that mutates an object and may raise. What was written before a raise stays written,
-- so that the state comes back beside the exception too.
use mathlib.Core.Path.{◌≡◌, refl}
use kafka_playgroud.Prelude.Tests.{Result, ok, err}

abbrev pub Action {ℓ} : Type ℓ → Type ℓ → Type ℓ → Type ℓ
Action S E A = S → Result E A × S

module _ {ℓ} {S E A : Type ℓ} where
  abbrev pub pure : A → Action S E A
  pure a s = (ok a, s)

  abbrev pub raise : E → Action S E A
  raise x s = (err x, s)

  abbrev pub lift : Result E A → Action S E A
  lift r s = (r, s)

  abbrev pub gets : (S → A) → Action S E A
  gets f s = (ok (f s), s)

abbrev pub modify {ℓ} : {S E : Type ℓ} → (S → S) → Action S E (Unit {ℓ})
modify f s = (ok tt, f s)

module _ {ℓ} {S E A B : Type ℓ} where
  abbrev pub continue : Result E A → (A → Action S E B) → Action S E B
  continue (ok a) f s = f a s
  continue (err x) f s = (err x, s)

  infixl 10 ◌>>=◌ ◌>>◌
  abbrev pub ◌>>=◌ : Action S E A → (A → Action S E B) → Action S E B
  ◌>>=◌ m f s = let (r, s') = m s in continue r f s'

  abbrev pub ◌>>◌ : Action S E A → Action S E B → Action S E B
  m >> n = m >>= λ _. n

-- Inversion of a sequence that ended well: its first part did, and the rest ran from there.
module _ {ℓ} {S E A B : Type ℓ} where
  continue-ok :
      (r : Result E A) (f : A → Action S E B) (s : S) {b : B}
      → (continue r f s).0 ≡ ok b
      → (a : A) × (r ≡ ok a) × (continue r f s ≡ f a s)
  continue-ok (ok a) f s h = (a, refl, refl)
  continue-ok (err x) f s h = cc

  pub bind-ok :
      (m : Action S E A) (f : A → Action S E B) (s : S) {b : B}
      → ((m >>= f) s).0 ≡ ok b
      → (a : A) × ((m s).0 ≡ ok a) × ((m >>= f) s ≡ f a (m s).1)
  bind-ok m f s h = continue-ok (m s).0 f (m s).1 h

-- `try: m except E as x: handler x`, where the handler may itself raise
module _ {ℓ} {S E F A : Type ℓ} where
  abbrev pub recover : Result E A → (E → Action S F A) → Action S F A
  recover (ok a) h s = (ok a, s)
  recover (err x) h s = h x s

  abbrev pub catch : Action S E A → (E → Action S F A) → Action S F A
  catch m h s = let (r, s') = m s in recover r h s'
