-- ===== src/Prelude/Results.antt =====
-- A value or an error, as the pair (T, error) of a Go function that returns one of the two.
use mathlib.Core.Path.{◌≡◌, refl}

pub data Result {ℓ} (E : Type 0) (A : Type ℓ) : Type ℓ where
  ok : A → Result E A
  err : E → Result E A

infixl 5 ◌>>=◌
abbrev pub ◌>>=◌ {ℓ κ} :
    {E : Type 0} {A : Type ℓ} {B : Type κ} → Result E A → (A → Result E B) → Result E B
ok a >>= f = f a
err e >>= f = err e

-- A chain that succeeds comes from a first step that succeeds.
pub >>=-eq-ok {ℓ κ} :
    {E : Type 0} {A : Type ℓ} {B : Type κ} (first : Result E A) (next : A → Result E B) {y : B}
    → (first >>= next) ≡ ok y
    → (x : A) × (first ≡ ok x) × (next x ≡ ok y)
>>=-eq-ok (err e) next chain = cc
>>=-eq-ok (ok x) next chain = (x, refl, chain)

abbrev pub IsOk {ℓ} : {E : Type 0} {A : Type ℓ} → Result E A → Type 0
IsOk (ok a) = Unit
IsOk (err e) = ⊥

pub ok_of_IsOk {ℓ} : {E : Type 0} {A : Type ℓ} (r : Result E A) → IsOk r → (a : A) × (r ≡ ok a)
ok_of_IsOk (ok a) h = (a, refl)
ok_of_IsOk (err e) h = absurd h
