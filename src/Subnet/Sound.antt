-- ===== src/Subnet/Sound.antt =====
-- `parseSubnetInput`: every subnet that it accepts is sound.
use mathlib.Core.Path.{subst}
use proxmoxwhatsapp.Prelude.{
  ℕ, ◌+◌, ◌-◌, ◌≤◌, ◌≡◌, refl, ◌∙◌, List, [], ◌∷◌, length, Bool, true, false, ◌||◌, Option, none,
  some, leb, ltb, ◌==◌, if◌then◌else◌, ℤ, pos, negsuc, arith,
}
use proxmoxwhatsapp.Subnet.Text.{Str, split, slash, dash, includes, trim, is_short_number}
use proxmoxwhatsapp.Subnet.Address.{is_valid_ip, ip_to_int, is_range_within_rfc1918}
use proxmoxwhatsapp.Subnet.Parser.{
  ParsedSubnet, Parsed, parsed, failed, unrecognized, addresses_to, cidr_prefix, cidr_parts,
  parse_cidr, range_of, parse_range, single_address, parse_trimmed, parse_subnet_input,
}
use proxmoxwhatsapp.Subnet.Hosts.{
  IsSound, length-addresses, addresses-IsPrivate, cidr_block-IsSound,
}

IsResult : Parsed → Type 0
IsResult (parsed s) = IsSound s
IsResult (failed e) = Unit

either :
    (c : Bool) (x y : Parsed)
    → (c ≡ true → IsResult x)
    → (c ≡ false → IsResult y)
    → IsResult (if c then x else y)
either true x y f g = f refl
either false x y f g = g refl

range-IsSound :
    (raw normalized : Str) (lo hi first last : ℕ)
    → lo ≤ hi
    → hi + 1 - lo ≤ 65536
    → lo ≤ first
    → first ≤ lo + 1
    → last ≤ hi
    → IsSound (record {
      raw = raw;
      normalized = normalized;
      host_count = if leb first last then last + 1 - first else 0;
      is_private = is_range_within_rfc1918 lo hi;
      hosts = addresses_to first last;
    })
unfolding addresses_to
range-IsSound raw normalized lo hi first last h w k l m = record {
  counted = length-addresses first (last + 1 - first) ∙ ground arith;
  bounded = ground arith;
  private_hosts = λ p. addresses-IsPrivate lo hi first (last + 1 - first) p k (omega arith);
}

first_le : (c : Bool) (n : ℕ) → (n ≤ (if c then n + 1 else n)) × ((if c then n + 1 else n) ≤ n + 1)
first_le c n = ground arith

last_le : (c : Bool) (n : ℕ) → (if c then n - 1 else n) ≤ n
last_le c n = ground arith

range_of-IsResult : (raw start_str end_ip : Str) → IsResult (range_of raw start_str end_ip)
unfolding range_of IsResult
range_of-IsResult raw start_str end_ip =
    either (ltb (ip_to_int end_ip) (ip_to_int start_str)) _ _ (λ _. tt)
      (λ ordered.
        either (ltb 65536 (ip_to_int end_ip + 1 - ip_to_int start_str)) _ _ (λ _. tt)
          (λ small.
            range-IsSound raw _ (ip_to_int start_str) (ip_to_int end_ip) _ _ (grind arith)
              (grind arith) (first_le _ (ip_to_int start_str)).0
              (first_le _ (ip_to_int start_str)).1 (last_le _ (ip_to_int end_ip))))

cidr_prefix-IsResult : (raw ip : Str) (prefix : Option ℤ) → IsResult (cidr_prefix raw ip prefix)
unfolding cidr_prefix IsResult
cidr_prefix-IsResult raw ip none = tt
cidr_prefix-IsResult raw ip (some (negsuc n)) = tt
cidr_prefix-IsResult raw ip (some (pos prefix)) =
    either (ltb 32 prefix) _ _ (λ _. tt)
      (λ small.
        either (ltb prefix 16) _ _ (λ _. tt)
          (λ large. cidr_block-IsSound raw ip prefix (grind arith) (grind arith)))

cidr_parts-IsResult : (raw ip prefix : Str) → IsResult (cidr_parts raw ip prefix)
unfolding cidr_parts IsResult
cidr_parts-IsResult raw ip prefix =
    either ((length ip == 0) || (length prefix == 0)) _ _ (λ _. tt)
      (λ _. either (is_valid_ip ip) _ _ (λ _. cidr_prefix-IsResult raw ip _) (λ _. tt))

parse_cidr-IsResult : (input : Str) → IsResult (parse_cidr input)
unfolding parse_cidr IsResult
parse_cidr-IsResult input = pieces (split slash input)
  where
    pieces :
        (parts : List Str)
        → IsResult (elim parts [
          | ip_part ∷ (prefix_part ∷ []) ↦ cidr_parts input ip_part prefix_part
          | _ ↦ failed unrecognized
        ])
    pieces [] = tt
    pieces (a ∷ []) = tt
    pieces (a ∷ (b ∷ [])) = cidr_parts-IsResult input a b
    pieces (a ∷ (b ∷ (c ∷ rest))) = tt

parse_range-IsResult : (input : Str) → IsResult (parse_range input)
unfolding parse_range IsResult
parse_range-IsResult input =
    either (is_valid_ip _) _ _
      (λ _.
        either (is_valid_ip _) _ _ (λ _. range_of-IsResult input _ _)
          (λ _.
            either (is_short_number _) _ _
              (λ _. either (is_valid_ip _) _ _ (λ _. range_of-IsResult input _ _) (λ _. tt))
              (λ _. tt)))
      (λ _. tt)

single_address-IsSound : (raw : Str) → IsSound (single_address raw)
unfolding single_address
single_address-IsSound raw = record {
  counted = refl;
  bounded = omega arith;
  private_hosts = λ p. (p, tt);
}

parse_trimmed-IsResult : (raw : Str) → IsResult (parse_trimmed raw)
unfolding parse_trimmed IsResult
parse_trimmed-IsResult raw =
    either (length raw == 0) _ _ (λ _. tt)
      (λ _.
        either (includes slash raw) _ _ (λ _. parse_cidr-IsResult raw)
          (λ _.
            either (includes dash raw) _ _ (λ _. parse_range-IsResult raw)
              (λ _. either (is_valid_ip raw) _ _ (λ _. single_address-IsSound raw) (λ _. tt))))

-- When an input is accepted, as a CIDR block, a range or one address, the hosts that the generator
-- yields are as many as hostCount says, at most 65,536, and if isPrivate holds, each of them is an
-- address inside one of the private blocks.
pub parse_subnet_input-IsSound :
    (input : Str) (s : ParsedSubnet) → parse_subnet_input input ≡ parsed s → IsSound s
unfolding parse_subnet_input IsResult
parse_subnet_input-IsSound input s e = subst IsResult e (parse_trimmed-IsResult (trim input))
