-- ===== src/Prelude/Exec.antt =====
-- Methods that change a state and may fail. What was written before an error stays written, so that
-- the state comes back beside the error too.
use mathlib.Core.Path.{◌≡◌, refl}
use defradg.Prelude.Errors.{Error, Result, ok, err}

abbrev pub Exec {ℓ} : Type ℓ → Type ℓ → Type ℓ
Exec S A = S → Result A × S

module _ {ℓ} {S A : Type ℓ} where
  abbrev pub pure : A → Exec S A
  pure a s = (ok a, s)

  abbrev pub raise : Error → Exec S A
  raise e s = (err e, s)

  -- `x, err := m`: the error as a value.
  abbrev both : Result A × S → Result (Result A) × S
  both (r, s) = (ok r, s)

  abbrev pub attempt : Exec S A → Exec S (Result A)
  attempt m s = both (m s)

  -- `if err != nil { return NewErr…(err) }`
  abbrev pub rewrap : (Error → Error) → Result A × S → Result A × S
  rewrap f (ok a, s) = (ok a, s)
  rewrap f (err e, s) = (err (f e), s)

  abbrev pub wrap : (Error → Error) → Exec S A → Exec S A
  wrap f m s = rewrap f (m s)

  pub rewrap_ok : (f : Error → Error) (p : Result A × S) (a : A) → p.0 ≡ ok a → rewrap f p ≡ p
  rewrap_ok f (ok a, s) b h = refl
  rewrap_ok f (err e, s) b h = cc h

module _ {ℓ} {S A B : Type ℓ} where
  abbrev next : Result A × S → (A → Exec S B) → Result B × S
  next (ok a, s) f = f a s
  next (err e, s) f = (err e, s)

  infixl 5 ◌>>=◌ ◌>>◌
  abbrev pub ◌>>=◌ : Exec S A → (A → Exec S B) → Exec S B
  ◌>>=◌ m f s = next (m s) f

  abbrev pub ◌>>◌ : Exec S A → Exec S B → Exec S B
  m >> n = m >>= λ _. n
