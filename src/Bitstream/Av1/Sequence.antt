-- ===== src/Bitstream/Av1/Sequence.antt =====
-- A sequence of AV1, and its bits in a sequence header.
use proxmoxwhatsapp.Prelude.{
  ℕ, ◌+◌, ◌^◌, ◌<◌, List, [], ◌∷◌, ◌++◌, true, false, leb, ◌==◌, ◌≡◌, if◌then◌else◌,
}
use proxmoxwhatsapp.Bitstream.Av1.{Av1CodecInfo}
use proxmoxwhatsapp.Bitstream.Av1.Fields.{field}

-- Fields that are read and dropped: their widths, with what stands in them.
abbrev pub Fits : List (ℕ × ℕ) → Type 0
Fits [] = Unit {0}
Fits ((n, v) ∷ fields) = ((v < 2 ^ n) × (v < 2 ^ 32)) × Fits fields

abbrev pub widths : List (ℕ × ℕ) → List ℕ
widths [] = []
widths ((n, v) ∷ fields) = n ∷ widths fields

abbrev pub all_bits : List (ℕ × ℕ) → List ℕ
all_bits [] = []
all_bits ((n, v) ∷ fields) = field n v ++ all_bits fields

-- A sequence with one operating point, no timing information, no display delay, no order hint, and the defaults for
-- screen content; `width` and `height` are one less than the picture's.
pub record Sequence : Type 0 where
  pub profile : ℕ
  pub still_picture : ℕ
  pub point : ℕ
  pub level : ℕ
  pub tier : ℕ
  pub width_bits : ℕ
  pub height_bits : ℕ
  pub width : ℕ
  pub height : ℕ
  pub intra_tools : ℕ × ℕ × ℕ
  pub inter_tools : ℕ × ℕ × ℕ × ℕ
  pub filters : ℕ × ℕ × ℕ
  pub high_bit_depth : ℕ

abbrev pub three : ℕ × ℕ × ℕ → List (ℕ × ℕ)
three (a, b, c) = (1, a) ∷ ((1, b) ∷ ((1, c) ∷ []))

abbrev pub four : ℕ × ℕ × ℕ × ℕ → List (ℕ × ℕ)
four (a, b, c, d) = (1, a) ∷ ((1, b) ∷ ((1, c) ∷ ((1, d) ∷ [])))

-- Each field fits its width.
pub record IsSequence (s : Sequence) : Type 0 where
  pub profile_fits : s.profile < 8
  pub main_profile : (s.profile == 2) ≡ false
  pub still_fits : s.still_picture < 2
  pub point_fits : s.point < 4096
  pub level_fits : s.level < 32
  pub tier_fits : s.tier < 2
  pub low_tier : leb s.level 7 ≡ true → s.tier ≡ 0
  pub width_bits_fits : s.width_bits < 16
  pub height_bits_fits : s.height_bits < 16
  pub width_fits : s.width < 2 ^ (s.width_bits + 1)
  pub height_fits : s.height < 2 ^ (s.height_bits + 1)
  pub width_small : s.width < 2 ^ 32
  pub height_small : s.height < 2 ^ 32
  pub intra_fits : Fits (three s.intra_tools)
  pub inter_fits : Fits (four s.inter_tools)
  pub filters_fit : Fits (three s.filters)
  pub high_fits : s.high_bit_depth < 2

abbrev pub tier_bits : ℕ → ℕ → List ℕ
tier_bits level tier = if leb level 7 then [] else field 1 tier ++ []

unfoldable pub point_bits : Sequence → List ℕ
point_bits s = all_bits ((12, s.point) ∷ []) ++ (field 5 s.level ++ tier_bits s.level s.tier)

-- The order hint is off, and the defaults for screen content and integer motion vectors are taken.
unfoldable pub tool_bits : Sequence → List ℕ
tool_bits s =
    all_bits (four s.inter_tools) ++ (field 1 0 ++ (field 1 1 ++ ((field 1 1 ++ []) ++ [])))

-- A size in its fields.
unfoldable pub size_bits : ℕ → ℕ → ℕ → ℕ → List ℕ
size_bits wb hb w h = field 4 wb ++ (field 4 hb ++ (field (wb + 1) w ++ (field (hb + 1) h ++ [])))

-- The level's part: no timing information, no display delay, and one operating point.
unfoldable pub level_bits : Sequence → List ℕ
level_bits s = field 1 0 ++ (all_bits ((1, 0) ∷ []) ++ (field 5 0 ++ (point_bits s ++ [])))

abbrev pub depth : Sequence → ℕ
depth s = if s.high_bit_depth == 0 then 8 else 10

-- The bits of a sequence, in the order of the specification.
unfoldable pub sequence_bits : Sequence → List ℕ
unfolding level_bits
sequence_bits s =
    field 3 s.profile
    ++ (all_bits ((1, s.still_picture) ∷ [])
        ++ (field 1 0
            ++ (level_bits s
                ++ (size_bits s.width_bits s.height_bits s.width s.height
                    ++ ((field 1 0 ++ [])
                        ++ (all_bits (three s.intra_tools)
                            ++ (tool_bits s
                                ++ (all_bits (three s.filters)
                                    ++ ((field 1 s.high_bit_depth ++ []) ++ [])))))))))

-- What the player is told of it.
abbrev pub info_of : Sequence → Av1CodecInfo
info_of s = record {
  profile = s.profile;
  level = s.level;
  tier = s.tier;
  bit_depth = depth s;
  width = s.width + 1;
  height = s.height + 1;
}
