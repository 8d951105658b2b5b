-- ===== src/Subnet/Parser.antt =====
-- common/SubnetParser.ts: `parseSubnetInput` for a CIDR block, a range and one address.
use Prim.Native.Nat.{bit_and}
use proxmoxwhatsapp.Prelude.{
  ℕ, zero, suc, ◌+◌, ◌-◌, ◌*◌, ◌%◌, ◌^◌, List, [], ◌∷◌, ◌++◌, length, Bool, ◌||◌, Option, none,
  some, leb, ltb, ◌==◌, if◌then◌else◌, ℤ, pos, negsuc,
}
use proxmoxwhatsapp.Subnet.Text.{
  Str, split, join, trim, before, after, includes, dash, dot, slash, is_short_number, parse_int,
  decimal,
}
use proxmoxwhatsapp.Subnet.Address.{is_valid_ip, ip_to_int, int_to_ip, is_range_within_rfc1918}

-- `hosts` is what the generator yields.
pub record ParsedSubnet : Type 0 where
  pub raw : Str
  pub normalized : Str
  pub host_count : ℕ
  pub is_private : Bool
  pub hosts : List Str

-- The reasons, with the parts of the input that their texts quote.
pub data ParseError : Type 0 where
  unrecognized prefix_out_of_bounds subnet_too_large : ParseError
  invalid_ip invalid_start invalid_end_octet invalid_end : Str → ParseError
  start_after_end : Str → Str → ParseError
  range_too_large : ℕ → ParseError

pub data Parsed : Type 0 where
  parsed : ParsedSubnet → Parsed
  failed : ParseError → Parsed

-- `for (i = start; i < start + count; i++) yield intToIp(i >>> 0)`.
unfoldable pub addresses : ℕ → ℕ → List Str
addresses start zero = []
addresses start (suc count) = int_to_ip (start % 2 ^ 32) ∷ addresses (start + 1) count

-- The generators' loops run while `i <= end`.
unfoldable pub addresses_to : ℕ → ℕ → List Str
addresses_to start end = addresses start (end + 1 - start)

unfoldable pub netmask : ℕ → ℕ
netmask mask_bits = if mask_bits == 32 then 0 else 0xffff_ffff * 2 ^ mask_bits % 2 ^ 32

unfoldable pub cidr_hosts : ℕ → ℕ → List Str
cidr_hosts prefix network =
    if prefix == 32
    then int_to_ip network ∷ []
    else if prefix == 31
    then addresses_to network (network + 1)
    else addresses_to (network + 1) (network + 2 ^ (32 - prefix) - 2)

unfoldable pub cidr_host_count : ℕ → ℕ
cidr_host_count prefix =
    if prefix == 32 then 1 else if prefix == 31 then 2 else 2 ^ (32 - prefix) - 2

-- The block of a prefix from 16 to 32.
unfoldable pub cidr_block : Str → Str → ℕ → ParsedSubnet
cidr_block raw ip_part prefix =
    let mask_bits = 32 - prefix in
    let network = bit_and (ip_to_int ip_part) (netmask mask_bits) in
    record {
      raw = raw;
      normalized = int_to_ip network ++ (slash ∷ decimal prefix);
      host_count = cidr_host_count prefix;
      is_private = is_range_within_rfc1918 network ((network + 2 ^ mask_bits - 1) % 2 ^ 32);
      hosts = cidr_hosts prefix network;
    }

unfoldable pub cidr_prefix : Str → Str → Option ℤ → Parsed
cidr_prefix raw ip_part none = failed prefix_out_of_bounds
cidr_prefix raw ip_part (some (negsuc n)) = failed prefix_out_of_bounds
cidr_prefix raw ip_part (some (pos prefix)) =
    if ltb 32 prefix
    then failed prefix_out_of_bounds
    else if ltb prefix 16
    then failed subnet_too_large
    else parsed (cidr_block raw ip_part prefix)

unfoldable pub cidr_parts : Str → Str → Str → Parsed
cidr_parts raw ip_part prefix_part =
    if (length ip_part == 0) || (length prefix_part == 0)
    then failed unrecognized
    else if is_valid_ip ip_part
    then cidr_prefix raw ip_part (parse_int prefix_part)
    else failed (invalid_ip ip_part)

unfoldable pub parse_cidr : Str → Parsed
parse_cidr input = elim (split slash input) [
  | ip_part ∷ (prefix_part ∷ []) ↦ cidr_parts input ip_part prefix_part
  | _ ↦ failed unrecognized
]

-- The end of a range: an address, or the last number of the start's.
unfoldable pub short_end : Str → Str → Str
short_end start_str end_str = elim (split dot start_str) [
  | a ∷ (b ∷ (c ∷ rest)) ↦ join dot (a ∷ (b ∷ (c ∷ (end_str ∷ []))))
  | _ ↦ end_str
]

unfoldable pub range_of : Str → Str → Str → Parsed
range_of raw start_str end_ip =
    let start_int = ip_to_int start_str in
    let end_int = ip_to_int end_ip in
    let literal_count = end_int + 1 - start_int in
    let scan_start = if bit_and start_int 0xff == 0 then start_int + 1 else start_int in
    let scan_end = if bit_and end_int 0xff == 0xff then end_int - 1 else end_int in
    if ltb end_int start_int
    then failed (start_after_end start_str end_ip)
    else if ltb 65536 literal_count
    then failed (range_too_large literal_count)
    else parsed (record {
      raw = raw;
      normalized = int_to_ip start_int ++ (dash ∷ int_to_ip end_int);
      host_count = if leb scan_start scan_end then scan_end + 1 - scan_start else 0;
      is_private = is_range_within_rfc1918 start_int end_int;
      hosts = addresses_to scan_start scan_end;
    })

unfoldable pub parse_range : Str → Parsed
parse_range input =
    let start_str = trim (before dash input) in
    let end_str = trim (after dash input) in
    let end_ip = short_end start_str end_str in
    if is_valid_ip start_str
    then if is_valid_ip end_str
      then range_of input start_str end_str
      else if is_short_number end_str
      then if is_valid_ip end_ip
        then range_of input start_str end_ip
        else failed (invalid_end_octet end_str)
      else failed (invalid_end end_str)
    else failed (invalid_start start_str)

unfoldable pub single_address : Str → ParsedSubnet
single_address raw =
    let ip_int = ip_to_int raw in
    record {
      raw = raw;
      normalized = raw ++ (slash ∷ decimal 32);
      host_count = 1;
      is_private = is_range_within_rfc1918 ip_int ip_int;
      hosts = raw ∷ [];
    }

unfoldable pub parse_trimmed : Str → Parsed
parse_trimmed raw =
    if length raw == 0
    then failed unrecognized
    else if includes slash raw
    then parse_cidr raw
    else if includes dash raw
    then parse_range raw
    else if is_valid_ip raw
    then parsed (single_address raw)
    else failed unrecognized

unfoldable pub parse_subnet_input : Str → Parsed
parse_subnet_input input = parse_trimmed (trim input)
