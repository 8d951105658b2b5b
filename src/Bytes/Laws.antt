-- ===== src/Bytes/Laws.antt =====
-- Bytes of a number: how many, that they are bytes, and that reading gives back what was written.
use Prim.Native.Nat.{◌<◌}
use mathlib.Core.List.{reverse-reverse}
use native.Mathlib.Nat.{one-le-pow, pow-suc, mod-eq_of_lt}
use proxmoxwhatsapp.Prelude.{
  ℕ, zero, suc, ◌*◌, ◌/◌, ◌^◌, ◌≡◌, refl, ap, ◌∙◌, length, arith, ℤ, pos, negsuc, length-reverse,
  lt→ltb,
}
use proxmoxwhatsapp.Bytes.{le_bytes, le_value, be_bytes, be_value, to_uint, to_int}

pub length-le_bytes : (k n : ℕ) → length (le_bytes k n) ≡ k
unfolding le_bytes
length-le_bytes zero n = refl
length-le_bytes (suc k) n = ap suc (length-le_bytes k (n / 256))

pub length-be_bytes : (k n : ℕ) → length (be_bytes k n) ≡ k
unfolding be_bytes
length-be_bytes k n = length-reverse (le_bytes k n) ∙ length-le_bytes k n

256_pow-suc : (k : ℕ) → 256 ^ suc k ≡ 256 * 256 ^ k
256_pow-suc k = omega (arith, pow-suc 256 k)

-- Reading back the bytes of a number that fits them.
pub le_value-le_bytes : (k n : ℕ) → n < 256 ^ k → le_value (le_bytes k n) ≡ n
unfolding le_bytes le_value
le_value-le_bytes zero n h = omega arith
le_value-le_bytes (suc k) n h =
    omega (arith, 256_pow-suc k, le_value-le_bytes k (n / 256) (omega (arith, 256_pow-suc k)))

pub be_value-be_bytes : (k n : ℕ) → n < 256 ^ k → be_value (be_bytes k n) ≡ n
unfolding be_bytes be_value
be_value-be_bytes k n h = rw (reverse-reverse (le_bytes k n)) (le_value-le_bytes k n h)

pub to_uint-lt : (k : ℕ) (z : ℤ) → to_uint k z < 256 ^ k
unfolding to_uint
to_uint-lt k (pos n) = omega (arith, one-le-pow k 256)
to_uint-lt k (negsuc n) = omega (arith, one-le-pow k 256)

-- The numbers that `k` bytes hold without a sign, and with one.
abbrev pub IsUint : ℕ → ℕ → Type 0
IsUint k n = n < 256 ^ k

abbrev pub IsInt : ℕ → ℤ → Type 0
IsInt k (pos n) = n < 256 ^ k / 2
IsInt k (negsuc n) = n < 256 ^ k / 2

pub to_uint_pos : (k n : ℕ) → IsUint k n → to_uint k (pos n) ≡ n
unfolding to_uint
to_uint_pos k n h = grind arith

pub to_int-to_uint : (k : ℕ) (z : ℤ) → IsInt k z → to_int k (to_uint k z) ≡ z
unfolding to_int to_uint
to_int-to_uint k (pos n) h =
    rw (mod-eq_of_lt {n = n} {m = 256 ^ k} (omega arith)) (rw (lt→ltb n (256 ^ k / 2) h))
to_int-to_uint k (negsuc n) h = rw (mod-eq_of_lt {n = n} {m = 256 ^ k} (omega arith)) (ground arith)
