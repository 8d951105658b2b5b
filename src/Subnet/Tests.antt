-- ===== src/Subnet/Tests.antt =====
-- Subnets as users write them: "10.0.0.0/30" and "192.168.1.9-10".
use proxmoxwhatsapp.Prelude.{◌≡◌, refl, [], ◌∷◌, true, arith}
use proxmoxwhatsapp.Subnet.Text.{
  Str, includes, split, join, before, after, is_space, trim_start, trim, is_digit, digits_value,
  digits_of, signed_digits, parse_int, is_short_number, decimal,
}
use proxmoxwhatsapp.Subnet.Address.{
  in_octet, is_valid_octet, is_valid_ip, to_bits, shift_left, part, ip_to_int, int_to_ip,
  is_range_within_rfc1918,
}
use proxmoxwhatsapp.Subnet.Parser.{
  ParsedSubnet, parsed, addresses, addresses_to, netmask, cidr_hosts, cidr_host_count, cidr_block,
  cidr_prefix, cidr_parts, parse_cidr, short_end, range_of, parse_range, single_address,
  parse_trimmed, parse_subnet_input,
}
use proxmoxwhatsapp.Subnet.Hosts.{IsSound}
use proxmoxwhatsapp.Subnet.Sound.{parse_subnet_input-IsSound}
use proxmoxwhatsapp.Subnet.RoundTrip.{int_to_ip-ip_to_int}

abbrev block : Str
block = 49 ∷ (48 ∷ (46 ∷ (48 ∷ (46 ∷ (48 ∷ (46 ∷ (48 ∷ (47 ∷ (51 ∷ (48 ∷ []))))))))))

abbrev block_parsed : ParsedSubnet
block_parsed = record {
  raw = block;
  normalized = block;
  host_count = 2;
  is_private = true;
  hosts =
      (49 ∷ (48 ∷ (46 ∷ (48 ∷ (46 ∷ (48 ∷ (46 ∷ (49 ∷ []))))))))
      ∷ ((49 ∷ (48 ∷ (46 ∷ (48 ∷ (46 ∷ (48 ∷ (46 ∷ (50 ∷ [])))))))) ∷ []);
}

block_accepted : parse_subnet_input block ≡ parsed block_parsed
unfolding includes split join before after is_space trim_start trim is_digit digits_value digits_of
    signed_digits parse_int is_short_number decimal in_octet is_valid_octet is_valid_ip to_bits
    shift_left part ip_to_int int_to_ip is_range_within_rfc1918 addresses addresses_to netmask
    cidr_hosts cidr_host_count cidr_block cidr_prefix cidr_parts parse_cidr short_end range_of
    parse_range single_address parse_trimmed parse_subnet_input
block_accepted = refl

parse_subnet_input-IsSound_example : IsSound block_parsed
parse_subnet_input-IsSound_example = parse_subnet_input-IsSound block block_parsed block_accepted

int_to_ip-ip_to_int_example :
    (is_valid_ip (int_to_ip 3232235777) ≡ true) × (ip_to_int (int_to_ip 3232235777) ≡ 3232235777)
int_to_ip-ip_to_int_example = int_to_ip-ip_to_int 3232235777 (omega arith)
