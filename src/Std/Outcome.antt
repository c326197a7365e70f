-- ===== src/Std/Outcome.antt =====
-- How a call ends: with a value, by an exception, or in undefined behaviour.
use raddish.Base.{◌≡◌, refl}
use raddish.Std.Numbers.{Exception}

pub data Outcome {ℓ} (A : Type ℓ) : Type ℓ where
  ok : A → Outcome A
  throw : Exception → Outcome A
  undefined : Outcome A

infixl 5 ◌>>=◌
abbrev pub ◌>>=◌ {ℓ κ} : {A : Type ℓ} {B : Type κ} → Outcome A → (A → Outcome B) → Outcome B
ok a >>= f = f a
throw e >>= f = throw e
undefined >>= f = undefined

-- What a sequence of two calls says of each, where it returns a value.
pub >>=-eq-ok {ℓ κ} :
    {A : Type ℓ} {B : Type κ} (call : Outcome A) (next : A → Outcome B) {result : B}
    → (call >>= next) ≡ ok result
    → (x : A) × (call ≡ ok x) × (next x ≡ ok result)
>>=-eq-ok (throw e) next p = cc
>>=-eq-ok undefined next p = cc
>>=-eq-ok (ok x) next p = (x, refl, p)
