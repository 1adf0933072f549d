-- ===== src/Prelude/Exec.antt =====
-- Go code that mutates its receiver and returns early: a function of the state that comes back
-- with a value or with what it stopped by, and in both cases with the state as it is then.
-- The stop is an `Error` for a function that returns `(T, error)`, and the pair of a result and an
-- error for a handler, whose body has many `return` statements.

pub mod Keeps
pub mod Post
pub mod Only
use mathlib.Core.List.{List, [], ◌∷◌}

pub data Outcome {ℓ} (E A : Type ℓ) : Type ℓ where
  ok : A → Outcome E A
  err : E → Outcome E A

abbrev pub Exec {ℓ} : Type ℓ → Type ℓ → Type ℓ → Type ℓ
Exec S E A = S → Outcome E A × S

module _ {ℓ} {S E A : Type ℓ} where
  abbrev pub pure : A → Exec S E A
  pure a s = (ok a, s)

  -- `return` before the end
  abbrev pub stop : E → Exec S E A
  stop e s = (err e, s)

  abbrev pub gets : (S → A) → Exec S E A
  gets f s = (ok (f s), s)

  abbrev pub lift : Outcome E A → Exec S E A
  lift r s = (r, s)

module _ {ℓ} {S E : Type ℓ} where
  abbrev pub modify : (S → S) → Exec S E Unit
  modify f s = (ok tt, f s)

module _ {ℓ} {S E A B : Type ℓ} where
  abbrev pub continue : Outcome E A × S → (A → Exec S E B) → Outcome E B × S
  continue (ok a, s) f = f a s
  continue (err e, s) f = (err e, s)

  infixl 5 ◌>>=◌ ◌>>◌
  abbrev pub ◌>>=◌ : Exec S E A → (A → Exec S E B) → Exec S E B
  ◌>>=◌ m f s = continue (m s) f

  abbrev pub ◌>>◌ : Exec S E A → Exec S E B → Exec S E B
  m >> n = m >>= λ _. n

module _ {ℓ} {S E F A : Type ℓ} where
  abbrev pub handled : Outcome E A × S → (E → Exec S F A) → Outcome F A × S
  handled (ok a, s) h = (ok a, s)
  handled (err e, s) h = h e s

  -- `if x, err := m(); err != nil { h(err) }`
  abbrev pub catch : Exec S E A → (E → Exec S F A) → Exec S F A
  catch m h s = handled (m s) h

module _ {ℓ} {S E F A : Type ℓ} where
  abbrev pub attempted : Outcome E A × S → Outcome F (Outcome E A) × S
  attempted (r, s) = (ok r, s)

  -- the error is a value, and the caller looks at it
  abbrev pub attempt : Exec S E A → Exec S F (Outcome E A)
  attempt m s = attempted (m s)

module _ {ℓ} {S E A B : Type ℓ} where
  -- `for i := range xs { if xs[i], err = f(xs[i]); err != nil { return err } }`
  unfoldable pub map_each : (A → Exec S E B) → List A → Exec S E (List B)
  map_each f [] = pure []
  map_each f (x ∷ xs) = f x >>= λ y. map_each f xs >>= λ ys. pure (y ∷ ys)

module _ {ℓ} {S E A : Type ℓ} where
  -- `for _, x := range xs { if err := f(x); err != nil { return err } }`
  unfoldable pub for_each : (A → Exec S E Unit) → List A → Exec S E Unit
  for_each f [] = pure tt
  for_each f (x ∷ xs) = f x >> for_each f xs
