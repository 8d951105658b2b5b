-- ===== src/Subnet/Hosts.antt =====
-- The hosts of a parsed subnet: as many as it says, and private when it says so.
use Prim.Native.Nat.{bit_and}
use native.Mathlib.Nat.{mod-eq_of_lt, mod-lt, one-le-pow, mul-le-mul_right}
use proxmoxwhatsapp.Prelude.{
  ℕ, zero, suc, ◌+◌, ◌-◌, ◌*◌, ◌/◌, ◌%◌, ◌^◌, ◌≤◌, ◌<◌, ◌≡◌, refl, ap, sym, ◌∙◌, length, All, Bool,
  true, false, ◌&&◌, ◌||◌, leb, ltb, ◌==◌, ◌⊎◌, arith, Bool-cases, inl, inr, ==→eq, all_below,
  all_below-at,
}
use proxmoxwhatsapp.Prelude.Bits.{bit_and_shifted, bit_and_mask}
use proxmoxwhatsapp.Subnet.Text.{Str}
use proxmoxwhatsapp.Subnet.Address.{ip_to_int, int_to_ip, is_range_within_rfc1918}
use proxmoxwhatsapp.Subnet.RoundTrip.{int_to_ip-ip_to_int}
use proxmoxwhatsapp.Subnet.Parser.{
  ParsedSubnet, addresses, addresses_to, netmask, cidr_hosts, cidr_host_count, cidr_block,
}

-- An address inside a private block.
abbrev pub IsPrivate : Str → Type 0
IsPrivate ip = is_range_within_rfc1918 (ip_to_int ip) (ip_to_int ip) ≡ true

pub record IsSound (s : ParsedSubnet) : Type 0 where
  pub counted : length s.hosts ≡ s.host_count
  pub bounded : s.host_count ≤ 65536
  pub private_hosts : s.is_private ≡ true → All IsPrivate s.hosts

pub length-addresses : (start count : ℕ) → length (addresses start count) ≡ count
unfolding addresses
length-addresses start zero = refl
length-addresses start (suc count) = ap suc (length-addresses (start + 1) count)

in_block :
    (first last lo hi n : ℕ)
    → (leb first lo && leb hi last) ≡ true
    → lo ≤ n
    → n ≤ hi
    → (leb first n && leb n last) ≡ true
in_block first last lo hi n h k l = grind arith

or_true :
    (a b c : Bool) → (a || (b || (c || false))) ≡ true → (a ≡ true) ⊎ ((b ≡ true) ⊎ (c ≡ true))
or_true true b c h = inl refl
or_true false true c h = inr (inl refl)
or_true false false true h = inr (inr refl)
or_true false false false h = ground arith

or_right : (a b : Bool) → b ≡ true → (a || b) ≡ true
or_right true b h = refl
or_right false b h = h

within :
    (lo hi n : ℕ)
    → is_range_within_rfc1918 lo hi ≡ true
    → lo ≤ n
    → n ≤ hi
    → (is_range_within_rfc1918 n n ≡ true) × (n < 2 ^ 32)
unfolding is_range_within_rfc1918
within lo hi n h k l =
    elim (or_true (leb 0x0a00_0000 lo && leb hi 0x0aff_ffff)
      (leb 0xac10_0000 lo && leb hi 0xac1f_ffff) (leb 0xc0a8_0000 lo && leb hi 0xc0a8_ffff) h) [
        | inl a ↦ (rw (in_block 0x0a00_0000 0x0aff_ffff lo hi n a k l) refl, grind arith)
        | inr (inl b) ↦ (
          rw (in_block 0xac10_0000 0xac1f_ffff lo hi n b k l) (or_right _ true refl),
          grind arith,
        )
        | inr (inr c) ↦ (
          rw (in_block 0xc0a8_0000 0xc0a8_ffff lo hi n c k l) (or_right _ _ (or_right _ true refl)),
          grind arith,
        )
      ]

pub int_to_ip-IsPrivate :
    (lo hi n : ℕ) → is_range_within_rfc1918 lo hi ≡ true → lo ≤ n → n ≤ hi → IsPrivate (int_to_ip n)
int_to_ip-IsPrivate lo hi n h k l =
    let (inside, fits) = within lo hi n h k l in rw (int_to_ip-ip_to_int n fits).1 inside

pub addresses-IsPrivate :
    (lo hi start count : ℕ)
    → is_range_within_rfc1918 lo hi ≡ true
    → lo ≤ start
    → start + count ≤ hi + 1
    → All IsPrivate (addresses start count)
unfolding addresses
addresses-IsPrivate lo hi start zero h k l = tt
addresses-IsPrivate lo hi start (suc count) h k l =
    let (inside, fits) = within lo hi start h k (omega arith) in
    (
      rw (mod-eq_of_lt fits) (int_to_ip-IsPrivate lo hi start h k (omega arith)),
      addresses-IsPrivate lo hi (start + 1) count h (omega arith) (omega arith),
    )

-- The network of a block, a multiple of its size that leaves room for the block.
netmask-multiple : ℕ → Bool
netmask-multiple k = (netmask k == (2 ^ (32 - k) - 1) * 2 ^ k) && (2 ^ (32 - k) * 2 ^ k == 2 ^ 32)

netmask-multiples : all_below netmask-multiple 17 ≡ true
unfolding netmask-multiple netmask
netmask-multiples = refl

bit_and-netmask : (k a : ℕ) → k < 17 → bit_and a (netmask k) ≡ a / 2 ^ k % 2 ^ (32 - k) * 2 ^ k
unfolding netmask-multiple
bit_and-netmask k a h =
    let checked = all_below-at netmask-multiple 17 k netmask-multiples h in
    ap (bit_and a) (==→eq (netmask k) ((2 ^ (32 - k) - 1) * 2 ^ k) (grind arith))
    ∙ bit_and_shifted k a (2 ^ (32 - k) - 1)
    ∙ ap (λ (t : ℕ). t * 2 ^ k) (bit_and_mask (32 - k) (a / 2 ^ k))

-- The whole block lies below 2^32.
network_room : (k a : ℕ) → k < 17 → bit_and a (netmask k) + 2 ^ k ≤ 2 ^ 32
unfolding netmask-multiple
network_room k a h =
    let checked = all_below-at netmask-multiple 17 k netmask-multiples h in
    let whole : 2 ^ (32 - k) * 2 ^ k ≡ 2 ^ 32 = ==→eq _ _ (grind arith) in
    let low : a / 2 ^ k % 2 ^ (32 - k) < 2 ^ (32 - k) =
      mod-lt (a / 2 ^ k) (one-le-pow (32 - k) 2 (omega arith)) in
    omega (arith, bit_and-netmask k a h, whole, mul-le-mul_right (2 ^ k) low)

power_bounds : ℕ → Bool
power_bounds k = leb 2 (2 ^ suc k) && leb (2 ^ suc k) 65536

power-checked : all_below power_bounds 16 ≡ true
unfolding power_bounds
power-checked = refl

power : (k : ℕ) → 0 < k → k ≤ 16 → (2 ≤ 2 ^ k) × (2 ^ k ≤ 65536)
unfolding power_bounds
power zero h l = ground arith
power (suc k) h l =
    let checked = all_below-at power_bounds 16 k power-checked (omega arith) in
    (grind arith, grind arith)

length-cidr_hosts :
    (prefix network : ℕ)
    → 16 ≤ prefix
    → prefix ≤ 32
    → length (cidr_hosts prefix network) ≡ cidr_host_count prefix
unfolding cidr_hosts cidr_host_count addresses_to
length-cidr_hosts prefix network h k = elim (Bool-cases (prefix == 32)) [
  | inl e ↦ rw e refl
  | inr e ↦ elim (Bool-cases (prefix == 31)) [
    | inl f ↦ rw (e, f) (length-addresses network (network + 1 + 1 - network) ∙ omega arith)
    | inr f ↦
        rw (e, f)
          (length-addresses (network + 1) (network + 2 ^ (32 - prefix) - 2 + 1 - (network + 1))
            ∙ omega (arith, power (32 - prefix) (grind arith) (omega arith)))
  ]
]

large : (prefix : ℕ) → 16 ≤ prefix → (prefix == 32) ≡ false → cidr_host_count prefix ≤ 65536
unfolding cidr_host_count
large prefix h e = elim (Bool-cases (prefix == 31)) [
  | inl f ↦ rw (e, f) (omega arith)
  | inr f ↦ elim (Bool-cases (ltb prefix 32)) [
    | inl l ↦ rw (e, f) (omega (arith, power (32 - prefix) (grind arith) (omega arith)))
    | inr l ↦ rw (e, f) (omega (arith, ap (λ (t : ℕ). 2 ^ t) (beyond l)))
  ]
]
  where
    beyond : ltb prefix 32 ≡ false → 32 - prefix ≡ 0
    beyond l = grind arith

cidr_host_count-bound : (prefix : ℕ) → 16 ≤ prefix → cidr_host_count prefix ≤ 65536
unfolding cidr_host_count
cidr_host_count-bound prefix h = elim (Bool-cases (prefix == 32)) [
  | inl e ↦ rw e (omega arith)
  | inr e ↦ large prefix h e
]

-- The hosts of a block are addresses of the block.
cidr_hosts-IsPrivate :
    (prefix network : ℕ)
    → 16 ≤ prefix
    → prefix ≤ 32
    → network + 2 ^ (32 - prefix) ≤ 2 ^ 32
    → is_range_within_rfc1918 network ((network + 2 ^ (32 - prefix) - 1) % 2 ^ 32) ≡ true
    → All IsPrivate (cidr_hosts prefix network)
unfolding cidr_hosts addresses_to
cidr_hosts-IsPrivate prefix network h k room p =
    let last = network + 2 ^ (32 - prefix) - 1 in
    let q : is_range_within_rfc1918 network last ≡ true =
      ap (is_range_within_rfc1918 network)
        (sym (mod-eq_of_lt {n = last} {m = 2 ^ 32} (omega arith)))
      ∙ p in
    let some_room = one-le-pow (32 - prefix) 2 (omega arith) in
    elim (Bool-cases (prefix == 32)) [
      | inl e ↦ rw e (int_to_ip-IsPrivate network last network q (omega arith) (omega arith), tt)
      | inr e ↦
          let pair = power (32 - prefix) (grind arith) (omega arith) in
          elim (Bool-cases (prefix == 31)) [
            | inl f ↦
                rw (e, f)
                  (addresses-IsPrivate network last network (network + 1 + 1 - network) q
                    (omega arith) (omega arith))
            | inr f ↦
                rw (e, f)
                  (addresses-IsPrivate network last (network + 1)
                    (network + 2 ^ (32 - prefix) - 2 + 1 - (network + 1)) q (omega arith)
                    (omega arith))
          ]
    ]

pub cidr_block-IsSound :
    (raw ip : Str) (prefix : ℕ) → 16 ≤ prefix → prefix ≤ 32 → IsSound (cidr_block raw ip prefix)
unfolding cidr_block
cidr_block-IsSound raw ip prefix h k = record {
  counted = length-cidr_hosts prefix _ h k;
  bounded = cidr_host_count-bound prefix h;
  private_hosts =
      cidr_hosts-IsPrivate prefix _ h k (network_room (32 - prefix) (ip_to_int ip) (omega arith));
}
