-- ===== src/Prelude/Thrown.antt =====
-- JavaScript exceptions as values: the outcome of code that may throw, and its sequencing.
use mathlib.Core.Path.{◌≡◌, refl}

-- The constructor that the code throws: `RangeError`, `TypeError`, `Error`.
pub data Thrown : Type 0 where
  range_error type_error plain_error : Thrown

pub data Result {ℓ} (A : Type ℓ) : Type ℓ where
  ok : A → Result A
  throw : Thrown → Result A

infixl 5 ◌>>=◌
abbrev pub ◌>>=◌ {ℓ κ} : {A : Type ℓ} {B : Type κ} → Result A → (A → Result B) → Result B
ok a >>= f = f a
throw e >>= f = throw e

pub >>=_assoc {ℓ κ μ} :
    {A : Type ℓ} {B : Type κ} {C : Type μ} (m : Result A) (f : A → Result B) (g : B → Result C)
    → ((m >>= f) >>= g) ≡ (m >>= λ a. f a >>= g)
>>=_assoc (ok a) f g = refl
>>=_assoc (throw e) f g = refl
