-- ===== src/Exec.antt =====
-- Asynchronous methods that read and change a state and may throw. What was written before a throw
-- stays written, so the state comes back beside the exception too.
use nodejs_pro_task.Base.{◌≡◌, refl, arith}
use nodejs_pro_task.Errors.{Exception, Result, ok, err}

abbrev pub Exec {ℓ} : Type ℓ → Type ℓ → Type ℓ
Exec S A = S → Result A × S

module _ {ℓ} {S A : Type ℓ} where
  abbrev pub pure : A → Exec S A
  pure a s = (ok a, s)

  abbrev pub raise : Exception → Exec S A
  raise e s = (err e, s)

  abbrev pub lift : Result A → Exec S A
  lift r s = (r, s)

module _ {ℓ} {S A B : Type ℓ} where
  abbrev pub continue : Result A → (A → Exec S B) → Exec S B
  continue (ok a) f s = f a s
  continue (err e) f s = (err e, s)

  infixl 5 ◌>>=◌ ◌>>◌
  abbrev pub ◌>>=◌ : Exec S A → (A → Exec S B) → Exec S B
  ◌>>=◌ m f s = let (r, s') = m s in continue r f s'

  abbrev pub ◌>>◌ : Exec S A → Exec S B → Exec S B
  m >> n = m >>= λ _. n

  continue_ok :
      (m : Exec S A) (f : A → Exec S B) (s s'' : S) (b : B) (r : Result A × S)
      → m s ≡ r
      → continue r.0 f r.1 ≡ (ok b, s'')
      → (a : A) × (s' : S) × (m s ≡ (ok a, s')) × (f a s' ≡ (ok b, s''))
  continue_ok m f s s'' b (ok a, s') e k = (a, s', e, k)
  continue_ok m f s s'' b (err x, s') e k = absurd (ground arith)

  -- A chain that returns is two calls that return.
  pub bind_ok :
      (m : Exec S A) (f : A → Exec S B) (s s'' : S) (b : B)
      → (m >>= f) s ≡ (ok b, s'')
      → (a : A) × (s' : S) × (m s ≡ (ok a, s')) × (f a s' ≡ (ok b, s''))
  bind_ok m f s s'' b h = continue_ok m f s s'' b (m s) refl h
