-- ===== src/Bitstream/Av1/Config.antt =====
-- The configuration record of AV1 in app/player/av1-utils.ts, and the codec that it names.
use proxmoxwhatsapp.Prelude.{
  ℕ, ◌+◌, ◌*◌, ◌/◌, ◌%◌, ◌<◌, List, [], ◌∷◌, not, ◌&&◌, ◌==◌, Option, none, some, if◌then◌else◌,
  ◌≡◌, refl, arith,
}
use proxmoxwhatsapp.Bitstream.Av1.Sequence.{Sequence, IsSequence, info_of}

unfoldable pub obu_type : ℕ → ℕ
obu_type byte = byte / 8 % 16

-- The numbers that stand in the codec's name.
pub record Codec : Type 0 where
  pub profile : ℕ
  pub level : ℕ
  pub tier : ℕ
  pub bit_depth : ℕ

unfoldable pub config_bit_depth : ℕ → ℕ → ℕ → ℕ
config_bit_depth profile high_bit_depth twelve_bit =
    if profile == 2 && not (high_bit_depth == 0)
    then if twelve_bit == 0 then 10 else 12
    else if high_bit_depth == 0
    then 8
    else 10

unfoldable pub parse_av1_config_record : List ℕ → Option Codec
unfolding config_bit_depth
parse_av1_config_record (a ∷ (b ∷ (c ∷ (d ∷ rest)))) =
    if a / 128 % 2 == 1
    then some (record {
      profile = b / 32 % 8;
      level = b % 32;
      tier = c / 128 % 2;
      bit_depth = config_bit_depth (b / 32 % 8) (c / 64 % 2) (c / 32 % 2);
    })
    else none
parse_av1_config_record _ = none

-- The record that goes with a sequence, with the chroma bits `low` and the delay byte `last`.
abbrev pub config_of : Sequence → ℕ → ℕ → List ℕ
config_of s low last =
    129
    ∷ ((s.profile * 32 + s.level) ∷ ((s.tier * 128 + s.high_bit_depth * 64 + low) ∷ (last ∷ [])))

-- The record names the codec of the sequence that it goes with.
pub parse_av1_config_record-info_of :
    (s : Sequence) (low last : ℕ)
    → IsSequence s
    → low < 32
    → parse_av1_config_record (config_of s low last)
      ≡ some (record {
        profile = (info_of s).profile;
        level = (info_of s).level;
        tier = (info_of s).tier;
        bit_depth = (info_of s).bit_depth;
      })
unfolding parse_av1_config_record config_bit_depth
parse_av1_config_record-info_of s low last k h =
    let profile : (s.profile * 32 + s.level) / 32 % 8 ≡ s.profile =
      omega (arith, k.profile_fits, k.level_fits) in
    let level : (s.profile * 32 + s.level) % 32 ≡ s.level = omega (arith, k.level_fits) in
    let tier : (s.tier * 128 + s.high_bit_depth * 64 + low) / 128 % 2 ≡ s.tier =
      omega (arith, k.tier_fits, k.high_fits) in
    let high : (s.tier * 128 + s.high_bit_depth * 64 + low) / 64 % 2 ≡ s.high_bit_depth =
      omega (arith, k.tier_fits, k.high_fits) in
    rw (profile, level, tier, high, k.main_profile) refl
