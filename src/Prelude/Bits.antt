-- ===== src/Prelude/Bits.antt =====
-- Masks, flags and packed fields of the native bit operations as arithmetic, at every width.
use Prim.Native.Nat.{
  ℕ, zero, suc, ◌+◌, ◌-◌, ◌*◌, ◌/◌, ◌%◌, ◌^◌, ◌≤◌, ◌<◌, min, max, bit_and, bit_or, digits,
  bit_and-bitwise, bit_or-bitwise,
}
use mathlib.Core.Path.{◌≡◌, refl, sym, ap, ◌∙◌}
use native.Mathlib.Omega.{arith}
use native.Mathlib.Nat.{
  pow-suc, one-le-pow, div-add-mod, add-mul-mod_self_right, mod-eq_of_lt, mod-lt,
  div-div-eq-div-mul,
}

module _ (z : ℕ → ℕ) (f : ℕ → ℕ → ℕ) where
  -- Fuel beyond the first number is never spent.
  digits_enough : (bound n a b : ℕ) → n ≤ bound → a ≤ n → digits z f n a b ≡ digits z f a a b
  digits_enough bound zero zero b h k = refl
  digits_enough bound zero (suc a) b h k = absurd (omega arith)
  digits_enough bound (suc n) zero b h k = refl
  digits_enough zero (suc n) (suc a) b h k = absurd (omega arith)
  digits_enough (suc bound) (suc n) (suc a) b h k =
      ap (λ (t : ℕ). t * 2 + f (suc a % 2) (b % 2))
        (digits_enough bound n (suc a / 2) (b / 2) (omega arith) (omega arith)
          ∙ sym (digits_enough bound a (suc a / 2) (b / 2) (omega arith) (omega arith)))

  lowest_digit :
      (a b : ℕ)
      → digits z f (suc a) (suc a) b
        ≡ digits z f (suc a / 2) (suc a / 2) (b / 2) * 2 + f (suc a % 2) (b % 2)
  lowest_digit a b =
      ap (λ (t : ℕ). t * 2 + f (suc a % 2) (b % 2))
        (digits_enough a a (suc a / 2) (b / 2) (omega arith) (omega arith))

pub bit_and_halves :
    (mask flags : ℕ)
    → bit_and mask flags ≡ min (mask % 2) (flags % 2) + 2 * bit_and (mask / 2) (flags / 2)
bit_and_halves zero flags = simp bit_and-bitwise (omega arith)
bit_and_halves (suc mask) flags =
    simp bit_and-bitwise (omega (arith, lowest_digit (λ _. 0) min mask flags))

pub bit_or_halves :
    (mask flags : ℕ)
    → bit_or mask flags ≡ max (mask % 2) (flags % 2) + 2 * bit_or (mask / 2) (flags / 2)
bit_or_halves zero flags = simp bit_or-bitwise (omega arith)
bit_or_halves (suc mask) flags =
    simp bit_or-bitwise (omega (arith, lowest_digit (λ y. y) max mask flags))

bit_and-zero_below : (n a : ℕ) → a ≤ n → bit_and a 0 ≡ 0
bit_and-zero_below n zero h = refl
bit_and-zero_below zero (suc a) h = absurd (omega arith)
bit_and-zero_below (suc n) (suc a) h =
    omega (arith, bit_and_halves (suc a) 0, bit_and-zero_below n (suc a / 2) (omega arith))

pub bit_and-zero : (a : ℕ) → bit_and a 0 ≡ 0
bit_and-zero a = bit_and-zero_below a a (omega arith)

bit_or-zero_below : (n a : ℕ) → a ≤ n → bit_or a 0 ≡ a
bit_or-zero_below n zero h = refl
bit_or-zero_below zero (suc a) h = absurd (omega arith)
bit_or-zero_below (suc n) (suc a) h =
    omega (arith, bit_or_halves (suc a) 0, bit_or-zero_below n (suc a / 2) (omega arith))

pub bit_or-zero : (a : ℕ) → bit_or a 0 ≡ a
bit_or-zero a = bit_or-zero_below a a (omega arith)

-- One binary digit in front of a remainder, and of a quotient.
mod-double : (p a : ℕ) → 0 < p → a % (2 * p) ≡ a / 2 % p * 2 + a % 2
mod-double p a h =
    let low : ℕ = a / 2 % p * 2 + a % 2 in
    let split : a ≡ low + a / 2 / p * (2 * p) = omega (arith, div-add-mod (a / 2) p) in
    ap (λ (t : ℕ). t % (2 * p)) split
    ∙ add-mul-mod_self_right low (a / 2 / p) (2 * p)
    ∙ mod-eq_of_lt (omega (arith, mod-lt (a / 2) h))

div-double : (p a : ℕ) → a / (2 * p) ≡ a / 2 / p
div-double p a = sym (div-div-eq-div-mul a 2 p)

pub two_pow-suc : (k : ℕ) → 2 ^ suc k ≡ 2 * 2 ^ k
two_pow-suc k = omega (arith, pow-suc 2 k)

-- A mask of `k` low ones is the remainder by 2 ^ k.
pub bit_and_mask : (k a : ℕ) → bit_and a (2 ^ k - 1) ≡ a % 2 ^ k
bit_and_mask zero a = ground (arith, bit_and-zero a)
bit_and_mask (suc k) a = rw (two_pow-suc k) (
    omega (
      arith,
      one-le-pow k 2,
      bit_and_halves a (2 * 2 ^ k - 1),
      ap (bit_and (a / 2)) half,
      bit_and_mask k (a / 2),
      mod-double (2 ^ k) a (one-le-pow k 2 (omega arith)),
    ))
  where
    half : (2 * 2 ^ k - 1) / 2 ≡ 2 ^ k - 1
    half = omega (arith, one-le-pow k 2)

-- A flag at position `k` is the binary digit there.
pub bit_and_flag : (k a : ℕ) → bit_and a (2 ^ k) ≡ a / 2 ^ k % 2 * 2 ^ k
bit_and_flag zero a = ground (arith, bit_and_halves a 1, bit_and-zero (a / 2))
bit_and_flag (suc k) a = rw (two_pow-suc k) (
    omega (
      arith,
      bit_and_halves a (2 * 2 ^ k),
      ap (bit_and (a / 2)) half,
      bit_and_flag k (a / 2),
      ap (λ (t : ℕ). t % 2 * 2 ^ k) (div-double (2 ^ k) a),
    ))
  where
    half : 2 * 2 ^ k / 2 ≡ 2 ^ k
    half = omega arith

-- `|` of a low field and a field above it is their sum.
pub bit_or_above : (k r q : ℕ) → r < 2 ^ k → bit_or r (q * 2 ^ k) ≡ r + q * 2 ^ k
bit_or_above zero zero q h = bit_or-bitwise 0 (q * 2 ^ 0) ∙ omega arith
bit_or_above zero (suc r) q h = absurd (omega arith)
bit_or_above (suc k) r q h = rw (two_pow-suc k) (
    omega (
      arith,
      two_pow-suc k,
      bit_or_halves r (q * (2 * 2 ^ k)),
      ap (bit_or (r / 2)) half,
      bit_or_above k (r / 2) q (omega (arith, two_pow-suc k)),
    ))
  where
    half : q * (2 * 2 ^ k) / 2 ≡ q * 2 ^ k
    half = omega arith

pub bit_or_below : (k r q : ℕ) → r < 2 ^ k → bit_or (q * 2 ^ k) r ≡ q * 2 ^ k + r
bit_or_below zero zero q h = bit_or-zero _ ∙ omega arith
bit_or_below zero (suc r) q h = absurd (omega arith)
bit_or_below (suc k) r q h = rw (two_pow-suc k) (
    omega (
      arith,
      two_pow-suc k,
      bit_or_halves (q * (2 * 2 ^ k)) r,
      ap (λ (t : ℕ). bit_or t (r / 2)) half,
      bit_or_below k (r / 2) q (omega (arith, two_pow-suc k)),
    ))
  where
    half : q * (2 * 2 ^ k) / 2 ≡ q * 2 ^ k
    half = omega arith

-- `&` with a number that has `k` zeros at the end.
pub bit_and_shifted : (k a q : ℕ) → bit_and a (q * 2 ^ k) ≡ bit_and (a / 2 ^ k) q * 2 ^ k
bit_and_shifted zero a q =
    rw (one q, one (bit_and (a / 1) q)) (ap (λ (t : ℕ). bit_and t q) (omega arith))
  where
    one : (n : ℕ) → n * 1 ≡ n
    one n = omega arith
bit_and_shifted (suc k) a q = rw (two_pow-suc k) (
    ap (bit_and a) (omega arith)
    ∙ doubled (q * 2 ^ k)
    ∙ ap (λ (t : ℕ). t * 2) (bit_and_shifted k (a / 2) q)
    ∙ ap (λ (t : ℕ). bit_and t q * 2 ^ k * 2) (sym (div-double (2 ^ k) a))
    ∙ omega arith)
  where
    half : (x : ℕ) → x * 2 / 2 ≡ x
    half x = omega arith

    doubled : (x : ℕ) → bit_and a (x * 2) ≡ bit_and (a / 2) x * 2
    doubled x = omega (arith, bit_and_halves a (x * 2), ap (bit_and (a / 2)) (half x))
