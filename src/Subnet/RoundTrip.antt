-- ===== src/Subnet/RoundTrip.antt =====
-- An IPv4 address as a number, printed and read back.
use Prim.Native.Nat.{bit_or}
use native.Mathlib.Nat.{mod-eq_of_lt}
use proxmoxwhatsapp.Prelude.{
  ℕ, ◌+◌, ◌*◌, ◌/◌, ◌%◌, ◌^◌, ◌<◌, ◌≡◌, refl, ap, ◌∙◌, [], ◌∷◌, ◌++◌, map, all, Bool, true, false,
  Option, none, some, ◌==◌, ℤ, pos, negsuc, arith, not, ◌&&◌, all_below, all_below-at, ==→eq,
}
use proxmoxwhatsapp.Prelude.Bits.{bit_and_mask, bit_or_below}
use proxmoxwhatsapp.Subnet.Text.{
  Str, dot, split, join, is_space, trim_start, is_digit, digits_value, digits_of, signed_digits,
  parse_int, is_short_number, decimal,
}
use proxmoxwhatsapp.Subnet.Splitting.{split-piece, split-last}
use proxmoxwhatsapp.Subnet.Address.{
  in_octet, is_valid_octet, is_valid_ip, to_bits, shift_left, part, ip_to_int, int_to_ip,
}

-- Every octet is checked: what is printed is digits, read back, and accepted.
reads_as : ℕ → Option ℤ → Bool
reads_as n (some (pos m)) = m == n
reads_as n _ = false

is_read_back : ℕ → Bool
is_read_back n =
    all (λ c. not (c == dot)) (decimal n)
    && is_valid_octet (decimal n)
    && reads_as n (parse_int (decimal n))

octets-is_read_back : all_below is_read_back 256 ≡ true
unfolding is_read_back reads_as parse_int decimal trim_start is_space signed_digits digits_of
    digits_value is_digit is_valid_octet is_short_number in_octet
octets-is_read_back = refl

octet-is_read_back : (n : ℕ) → n < 256 → is_read_back n ≡ true
octet-is_read_back n h = all_below-at is_read_back 256 n octets-is_read_back h

reads_as-true : (n : ℕ) (r : Option ℤ) → reads_as n r ≡ true → r ≡ some (pos n)
unfolding reads_as
reads_as-true n none k = ground arith
reads_as-true n (some (pos m)) k = ap (λ i. some (pos i)) (==→eq m n k)
reads_as-true n (some (negsuc m)) k = ground arith

record IsOctet (n : ℕ) : Type 0 where
  pub undotted : all (λ c. not (c == dot)) (decimal n) ≡ true
  pub valid : is_valid_octet (decimal n) ≡ true
  pub read : parse_int (decimal n) ≡ some (pos n)

octet : (n : ℕ) → n < 256 → IsOctet n
unfolding is_read_back
octet n h =
    let checked = octet-is_read_back n h in
    record {
      undotted = ground arith;
      valid = ground arith;
      read = reads_as-true n (parse_int (decimal n)) (ground arith);
    }

-- Four octets with the dots between them.
abbrev dotted : ℕ → ℕ → ℕ → ℕ → Str
dotted a b c d = join dot (map decimal (a ∷ (b ∷ (c ∷ (d ∷ [])))))

split-dotted :
    (a b c d : ℕ)
    → a < 256
    → b < 256
    → c < 256
    → d < 256
    → split dot (dotted a b c d) ≡ map decimal (a ∷ (b ∷ (c ∷ (d ∷ []))))
unfolding join
split-dotted a b c d p q r s = rw (
  split-piece dot (decimal a) (decimal b ++ (dot ∷ (decimal c ++ (dot ∷ decimal d))))
      (octet a p).undotted,
  split-piece dot (decimal b) (decimal c ++ (dot ∷ decimal d)) (octet b q).undotted,
  split-piece dot (decimal c) (decimal d) (octet c r).undotted,
  split-last dot (decimal d) (octet d s).undotted,
)

int_to_ip-dotted :
    (n : ℕ) → int_to_ip n ≡ dotted (n / 2 ^ 24 % 256) (n / 2 ^ 16 % 256) (n / 2 ^ 8 % 256) (n % 256)
unfolding int_to_ip
int_to_ip-dotted n =
    rw
      (
        bit_and_mask 8 (n / 2 ^ 24),
        bit_and_mask 8 (n / 2 ^ 16),
        bit_and_mask 8 (n / 2 ^ 8),
        bit_and_mask 8 n,
      )
      refl

is_valid_ip-dotted :
    (a b c d : ℕ) → a < 256 → b < 256 → c < 256 → d < 256 → is_valid_ip (dotted a b c d) ≡ true
unfolding is_valid_ip
is_valid_ip-dotted a b c d p q r s =
    rw (split-dotted a b c d p q r s)
      (rw ((octet a p).valid, (octet b q).valid, (octet c r).valid, (octet d s).valid) refl)

small : (k n : ℕ) → n * 2 ^ k < 2 ^ 32 → shift_left n k ≡ n * 2 ^ k
unfolding shift_left
small k n h = mod-eq_of_lt h

joined : (k q r : ℕ) → r < 2 ^ k → (x : ℕ) → x ≡ q * 2 ^ k → bit_or x r ≡ x + r
joined k q r h x e = rw e (bit_or_below k r q h)

assembled :
    (a b c d : ℕ)
    → a < 256
    → b < 256
    → c < 256
    → d < 256
    → bit_or (bit_or (bit_or (shift_left a 24) (shift_left b 16)) (shift_left c 8)) d
      ≡ a * 2 ^ 24 + b * 2 ^ 16 + c * 2 ^ 8 + d
assembled a b c d p q r s = rw (
  small 24 a (omega arith),
  small 16 b (omega arith),
  small 8 c (omega arith),
  joined 24 a (b * 2 ^ 16) (omega arith) (a * 2 ^ 24) refl,
  joined 16 (a * 2 ^ 8 + b) (c * 2 ^ 8) (omega arith) (a * 2 ^ 24 + b * 2 ^ 16) (omega arith),
  joined 8 ((a * 2 ^ 8 + b) * 2 ^ 8 + c) d (omega arith) (a * 2 ^ 24 + b * 2 ^ 16 + c * 2 ^ 8)
      (omega arith),
)

ip_to_int-dotted :
    (a b c d : ℕ)
    → a < 256
    → b < 256
    → c < 256
    → d < 256
    → ip_to_int (dotted a b c d) ≡ a * 2 ^ 24 + b * 2 ^ 16 + c * 2 ^ 8 + d
unfolding ip_to_int to_bits part
ip_to_int-dotted a b c d p q r s = rw (split-dotted a b c d p q r s) (
    rw ((octet a p).read, (octet b q).read, (octet c r).read, (octet d s).read)
      (rw
        (
          mod-eq_of_lt {n = a} {m = 4294967296} (omega arith),
          mod-eq_of_lt {n = b} {m = 4294967296} (omega arith),
          mod-eq_of_lt {n = c} {m = 4294967296} (omega arith),
          mod-eq_of_lt {n = d} {m = 4294967296} (omega arith),
        )
        (assembled a b c d p q r s)))

-- Every number below 2^32 is printed as a valid IPv4 address, which is read back as the number.
pub int_to_ip-ip_to_int :
    (n : ℕ) → n < 2 ^ 32 → (is_valid_ip (int_to_ip n) ≡ true) × (ip_to_int (int_to_ip n) ≡ n)
int_to_ip-ip_to_int n h =
    let a = n / 2 ^ 24 % 256 in
    let b = n / 2 ^ 16 % 256 in
    let c = n / 2 ^ 8 % 256 in
    rw (int_to_ip-dotted n) (
      is_valid_ip-dotted a b c (n % 256) (omega arith) (omega arith) (omega arith) (omega arith),
      ip_to_int-dotted a b c (n % 256) (omega arith) (omega arith) (omega arith) (omega arith)
          ∙ omega arith,
    )
