-- ===== src/Bytes.antt =====
-- Fixed-width numbers as bytes: what DataView's and Buffer's get and set methods do with a number
-- at one offset, big-endian and little-endian, unsigned and in two's complement.
pub mod Laws
pub mod Fields
use proxmoxwhatsapp.Prelude.{
  ℕ, zero, suc, ◌+◌, ◌-◌, ◌*◌, ◌/◌, ◌%◌, ◌^◌, List, [], ◌∷◌, reverse, ltb, if◌then◌else◌, ℤ, pos,
  negsuc,
}

-- The `k` low bytes of `n`, lowest first. Higher bytes are dropped.
unfoldable pub le_bytes : ℕ → ℕ → List ℕ
le_bytes zero n = []
le_bytes (suc k) n = (n % 256) ∷ le_bytes k (n / 256)

unfoldable pub le_value : List ℕ → ℕ
le_value [] = 0
le_value (b ∷ bs) = b + 256 * le_value bs

unfoldable pub be_bytes : ℕ → ℕ → List ℕ
unfolding le_bytes
be_bytes k n = reverse (le_bytes k n)

unfoldable pub be_value : List ℕ → ℕ
unfolding le_value
be_value bs = le_value (reverse bs)

-- ToUint8, ToUint16, ToUint32 and their signed kin: a JavaScript number that is an integer, as a
-- pattern of `8 * k` bits.
unfoldable pub to_uint : ℕ → ℤ → ℕ
to_uint k (pos n) = n % 256 ^ k
to_uint k (negsuc n) = 256 ^ k - 1 - n % 256 ^ k

-- The signed number that a pattern of `8 * k` bits stands for.
unfoldable pub to_int : ℕ → ℕ → ℤ
to_int k n = if ltb n (256 ^ k / 2) then pos n else negsuc (256 ^ k - 1 - n)
