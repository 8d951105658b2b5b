-- ===== src/Subnet/Address.antt =====
-- common/SubnetParser.ts: IPv4 addresses, as text and as 32-bit numbers.
use Prim.Native.Nat.{bit_and, bit_or}
use proxmoxwhatsapp.Prelude.{
  ℕ, zero, suc, ◌-◌, ◌*◌, ◌/◌, ◌%◌, ◌^◌, List, [], ◌∷◌, map, length, all, any, Bool, true, false,
  ◌&&◌, Option, none, some, leb, ◌==◌, if◌then◌else◌, ℤ, pos, negsuc, leb_ℤ,
}
use proxmoxwhatsapp.Subnet.Text.{Str, split, join, dot, is_short_number, parse_int, decimal}

-- `n = parseInt(p)`, `!(n < 0 || n > 255)`; a comparison with NaN is false.
unfoldable pub in_octet : Option ℤ → Bool
in_octet none = true
in_octet (some n) = leb_ℤ (pos 0) n && leb_ℤ n (pos 255)

unfoldable pub is_valid_octet : Str → Bool
is_valid_octet p = if is_short_number p then in_octet (parse_int p) else false

unfoldable pub is_valid_ip : Str → Bool
is_valid_ip s =
    let parts = split dot s in if length parts == 4 then all is_valid_octet parts else false

-- ToInt32 of a parsed number, as a pattern of 32 bits; NaN is 0.
unfoldable pub to_bits : Option ℤ → ℕ
to_bits none = 0
to_bits (some (pos n)) = n % 2 ^ 32
to_bits (some (negsuc n)) = 2 ^ 32 - 1 - n % 2 ^ 32

unfoldable pub shift_left : ℕ → ℕ → ℕ
shift_left n k = n * 2 ^ k % 2 ^ 32

-- A missing part is undefined, which the shift takes for 0.
unfoldable pub part : ℕ → List ℕ → ℕ
part i [] = 0
part zero (x ∷ xs) = x
part (suc i) (x ∷ xs) = part i xs

unfoldable pub ip_to_int : Str → ℕ
ip_to_int ip =
    let parts = map (λ p. to_bits (parse_int p)) (split dot ip) in
    bit_or
      (bit_or (bit_or (shift_left (part 0 parts) 24) (shift_left (part 1 parts) 16))
        (shift_left (part 2 parts) 8))
      (part 3 parts)

unfoldable pub int_to_ip : ℕ → Str
int_to_ip n = join dot (
    map decimal (
      bit_and (n / 2 ^ 24) 0xff
      ∷ (bit_and (n / 2 ^ 16) 0xff ∷ (bit_and (n / 2 ^ 8) 0xff ∷ (bit_and n 0xff ∷ [])))))

-- The private blocks, each with its first and its last address: the values of `ipToInt` in the source.
abbrev pub rfc1918_blocks : List (ℕ × ℕ)
rfc1918_blocks =
    (0x0a00_0000, 0x0aff_ffff) ∷ ((0xac10_0000, 0xac1f_ffff) ∷ ((0xc0a8_0000, 0xc0a8_ffff) ∷ []))

unfoldable pub is_range_within_rfc1918 : ℕ → ℕ → Bool
is_range_within_rfc1918 lo hi = any (λ block. leb block.0 lo && leb hi block.1) rfc1918_blocks
