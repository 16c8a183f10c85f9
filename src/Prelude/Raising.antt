-- ===== src/Prelude/Raising.antt =====
-- Calls that may raise: `ok` with what the call returns, `err` with the exception.
use mathlib.Core.Path.{◌≡◌, refl}
use mathlib.Core.Bool.{Bool, true, false}

pub data Result {ℓ} (E A : Type ℓ) : Type ℓ where
  ok : A → Result E A
  err : E → Result E A

infixl 5 ◌>>=◌ ◌>>◌
abbrev pub ◌>>=◌ {ℓ} : {E A B : Type ℓ} → Result E A → (A → Result E B) → Result E B
ok a >>= f = f a
err e >>= f = err e

abbrev pub ◌>>◌ {ℓ} : {E B : Type ℓ} → Result E Unit → Result E B → Result E B
m >> k = m >>= λ _. k

-- `if b: raise e`
abbrev pub raise_if {ℓ} : {E : Type ℓ} → Bool → E → Result E Unit
raise_if true e = err e
raise_if false e = ok tt

-- A call that returned a value.
abbrev pub Returns {ℓ} : {E A : Type ℓ} → (A → Type 0) → Result E A → Type 0
Returns P (ok a) = P a
Returns P (err e) = ⊥

-- What the first call guarantees is all that the rest needs.
pub Returns-bind {ℓ} :
    {E A B : Type ℓ} (P : A → Type 0) (Q : B → Type 0) (m : Result E A) (f : A → Result E B)
    → Returns P m
    → ((a : A) → P a → Returns Q (f a))
    → Returns Q (m >>= f)
Returns-bind P Q (ok a) f h k = k a h
Returns-bind P Q (err e) f h k = h

-- A call that meets a postcondition did return.
pub Returns-ok {ℓ} :
    {E A : Type ℓ} (P : A → Type 0) (m : Result E A) → Returns P m → (a : A) × (m ≡ ok a) × P a
Returns-ok P (ok a) h = (a, refl, h)
Returns-ok P (err e) h = absurd h
