-- ===== src/Common/Result.antt =====
-- What a call ends with: a value, or an exception on its way to a handler.
use mathlib.Core.Logic.{◌⊎◌, inl, inr}
use mathlib.Core.Path.{◌≡◌, refl}
use Prim.Native.Nat.{ℕ}

-- `exception n` is a nawa::Exception with error code `n`; the next two are the standard library's.
-- `undefined` stands for undefined behaviour, such as a division by zero, and `unfinished` for a
-- loop that has used up the rounds that a model gives it.
pub data Error : Type 0 where
  exception : ℕ → Error
  invalid_argument out_of_range undefined unfinished : Error

pub data Result {ℓ} (A : Type ℓ) : Type ℓ where
  ok : A → Result A
  err : Error → Result A

infixl 5 ◌>>=◌
abbrev pub ◌>>=◌ {ℓ κ} : {A : Type ℓ} {B : Type κ} → Result A → (A → Result B) → Result B
ok a >>= f = f a
err e >>= f = err e

-- `try { m } catch (invalid_argument const&) { a }`.
abbrev pub catch_invalid {ℓ} : {A : Type ℓ} → Result A → A → Result A
catch_invalid (ok v) a = ok v
catch_invalid (err invalid_argument) a = ok a
catch_invalid (err e) a = err e

pub Result-cases {ℓ} :
    {A : Type ℓ} (r : Result A) → ((a : A) × (r ≡ ok a)) ⊎ ((e : Error) × (r ≡ err e))
Result-cases (ok a) = inl (a, refl)
Result-cases (err e) = inr (e, refl)
