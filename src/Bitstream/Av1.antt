-- ===== src/Bitstream/Av1.antt =====
-- app/player/av1-utils.ts: the sequence header of an AV1 stream. A value of 32 bits stands for its
-- pattern; the code's values of more than 31 bits are read and dropped.
pub mod Fields
pub mod Uvlc
pub mod Chain
pub mod Sequence
pub mod Picture
pub mod Config
mod Tests
use proxmoxwhatsapp.Prelude.{
  ℕ, zero, suc, ◌+◌, ◌-◌, ◌*◌, ◌/◌, ◌%◌, ◌^◌, List, [], ◌∷◌, length, Bool, true, false, ◌&&◌, ◌||◌,
  not, ltb, leb, ◌==◌, Option, none, some, if◌then◌else◌, get_elem?, Result, ok, throw, range_error,
  ◌>>=◌,
}
use Prim.Native.Nat.{bit_or}

pub record Av1BitReader : Type 0 where
  pub bytes : List ℕ
  pub bit_pos : ℕ

-- The bit that one round of `f` reads.
unfoldable pub bit_at : List ℕ → ℕ → Option ℕ
bit_at bytes pos = elim (get_elem? bytes (pos / 8)) [
  | none ↦ none
  | some byte ↦ some (byte / 2 ^ (7 - pos % 8) % 2)
]

-- The loop of `f` from `value` on: the lowest bit of the shifted value is 0.
unfoldable pub read_on : ℕ → ℕ → List ℕ → ℕ → Result (ℕ × ℕ)
read_on value zero bytes pos = ok (value, pos)
read_on value (suc n) bytes pos = elim (bit_at bytes pos) [
  | none ↦ throw range_error
  | some bit ↦ read_on (value * 2 % 2 ^ 32 + bit) n bytes (suc pos)
]

abbrev pub moved : Av1BitReader → ℕ × ℕ → ℕ × Av1BitReader
moved r (value, pos) = (value, record r { bit_pos = pos })

unfoldable pub read_bits : ℕ → Av1BitReader → Result (ℕ × Av1BitReader)
read_bits n r = do result ← read_on 0 n r.bytes r.bit_pos; ok (moved r result)

-- `leadingZeros < 32 && this.f(1) === 0`, counted down from 32.
unfoldable pub count_zeros : ℕ → ℕ → Av1BitReader → Result (ℕ × Av1BitReader)
count_zeros zero zeros r = ok (zeros, r)
count_zeros (suc left) zeros r = do
  (bit, r') ← read_bits 1 r
  if bit == 0 then count_zeros left (suc zeros) r' else ok (zeros, r')

unfoldable pub uvlc_value : ℕ → Av1BitReader → Result (ℕ × Av1BitReader)
uvlc_value zeros r =
    if leb 32 zeros
    then ok (2 ^ 32 - 1, r)
    else do (value, r') ← read_bits zeros r; ok (2 ^ zeros - 1 + value, r')

unfoldable pub uvlc : Av1BitReader → Result (ℕ × Av1BitReader)
uvlc r = do (zeros, r') ← count_zeros 32 0 r; uvlc_value zeros r'

-- The loop of `readLeb128` from the byte with number `i` on, `left` before the eighth.
unfoldable pub leb128_on : ℕ → ℕ → ℕ → List ℕ → ℕ → Result (ℕ × ℕ)
leb128_on zero i value bytes pos = ok (value, pos)
leb128_on (suc left) i value bytes pos = elim (get_elem? bytes pos) [
  | none ↦ throw range_error
  | some byte ↦
      let value' = bit_or value (byte % 128 * 2 ^ (i * 7 % 32) % 2 ^ 32) in
      let rest = leb128_on left (suc i) value' bytes (suc pos) in
      if leb 128 (byte % 256) then rest else ok (value', suc pos)
]

unfoldable pub read_leb128 : List ℕ → ℕ → Result (ℕ × ℕ)
read_leb128 bytes pos = leb128_on 8 0 0 bytes pos

-- Reads whose values are dropped.
unfoldable pub skip_all : List ℕ → Av1BitReader → Result Av1BitReader
skip_all [] r = ok r
skip_all (n ∷ ns) r = do (value, r') ← read_bits n r; skip_all ns r'

-- A flag, and what follows it.
abbrev pub when : ℕ → (Av1BitReader → Result Av1BitReader) → Av1BitReader → Result Av1BitReader
when flag action r = if flag == 0 then ok r else action r

unfoldable pub skip_timing : Av1BitReader → Result Av1BitReader
skip_timing r = do
  r ← skip_all (32 ∷ (32 ∷ [])) r
  (equal_picture_interval, r) ← read_bits 1 r
  r ← when equal_picture_interval (λ r. uvlc r >>= λ v. ok v.1) r
  (decoder_model_info_present, r) ← read_bits 1 r
  when decoder_model_info_present (skip_all (5 ∷ (32 ∷ (5 ∷ (5 ∷ []))))) r

unfoldable pub tier_of : ℕ → Av1BitReader → Result ((ℕ × ℕ) × Av1BitReader)
tier_of level r =
    if leb level 7
    then ok ((level, 0), r)
    else do (tier, r') ← read_bits 1 r; ok ((level, tier), r')

-- One operating point: its level and its tier.
unfoldable pub operating_point : Av1BitReader → Result ((ℕ × ℕ) × Av1BitReader)
operating_point r = do r ← skip_all (12 ∷ []) r; (level, r) ← read_bits 5 r; tier_of level r

unfoldable pub skip_points : ℕ → Av1BitReader → Result Av1BitReader
skip_points zero r = ok r
skip_points (suc n) r = do (point, r) ← operating_point r; skip_points n r

pub record Av1CodecInfo : Type 0 where
  pub profile : ℕ
  pub level : ℕ
  pub tier : ℕ
  pub bit_depth : ℕ
  pub width : ℕ
  pub height : ℕ

-- The level and the tier of the first operating point.
unfoldable pub read_points : Av1BitReader → Result ((ℕ × ℕ) × Av1BitReader)
read_points r = do
  (timing_info_present, r) ← read_bits 1 r
  r ← when timing_info_present skip_timing r
  r ← skip_all (1 ∷ []) r
  (op_cnt_minus_1, r) ← read_bits 5 r
  (point, r) ← operating_point r
  r ← skip_points op_cnt_minus_1 r
  ok (point, r)

-- The level and the tier, those of a still picture in the other case.
unfoldable pub read_level : ℕ → Av1BitReader → Result ((ℕ × ℕ) × Av1BitReader)
read_level reduced r =
    if reduced == 0 then read_points r else do (level, r) ← read_bits 5 r; ok ((level, 0), r)

unfoldable pub skip_screen_content : ℕ → Av1BitReader → Result Av1BitReader
skip_screen_content force r = if force == 0 then ok r else do
  (choose_integer_mv, r) ← read_bits 1 r
  if choose_integer_mv == 0 then skip_all (1 ∷ []) r else ok r

-- The tools of a sequence that is no still picture.
unfoldable pub skip_tools : Av1BitReader → Result Av1BitReader
skip_tools r = do
  r ← skip_all (1 ∷ (1 ∷ (1 ∷ (1 ∷ [])))) r
  (enable_order_hint, r) ← read_bits 1 r
  r ← when enable_order_hint (skip_all (1 ∷ (1 ∷ []))) r
  (choose, r) ← read_bits 1 r
  (force, r) ← (if choose == 0 then read_bits 1 r else ok (2, r))
  r ← skip_screen_content force r
  when enable_order_hint (skip_all (3 ∷ [])) r

unfoldable pub skip_frame_ids : Av1BitReader → Result Av1BitReader
skip_frame_ids r = do
  (frame_id_numbers_present, r) ← read_bits 1 r
  when frame_id_numbers_present (skip_all (4 ∷ (3 ∷ []))) r

unfoldable pub depth_of : ℕ → ℕ → Av1BitReader → Result (ℕ × Av1BitReader)
depth_of profile high_bit_depth r =
    if not (profile == 2) || high_bit_depth == 0
    then ok ((if high_bit_depth == 0 then 8 else 10), r)
    else do (twelve_bit, r') ← read_bits 1 r; ok ((if twelve_bit == 0 then 10 else 12), r')

unfoldable pub read_bit_depth : ℕ → Av1BitReader → Result (ℕ × Av1BitReader)
read_bit_depth profile r = do (high_bit_depth, r) ← read_bits 1 r; depth_of profile high_bit_depth r

-- `max_frame_width` and `max_frame_height`.
unfoldable pub read_size : Av1BitReader → Result ((ℕ × ℕ) × Av1BitReader)
read_size r = do
  (width_bits_minus_1, r) ← read_bits 4 r
  (height_bits_minus_1, r) ← read_bits 4 r
  (width_minus_1, r) ← read_bits (width_bits_minus_1 + 1) r
  (height_minus_1, r) ← read_bits (height_bits_minus_1 + 1) r
  ok ((width_minus_1 + 1, height_minus_1 + 1), r)

abbrev pub unless : ℕ → (Av1BitReader → Result Av1BitReader) → Av1BitReader → Result Av1BitReader
unless flag action r = if flag == 0 then action r else ok r

-- The fields behind the OBU's header.
unfoldable pub parse_fields : Av1BitReader → Result Av1CodecInfo
parse_fields r = do
  (profile, r) ← read_bits 3 r
  r ← skip_all (1 ∷ []) r
  (reduced, r) ← read_bits 1 r
  (point, r) ← read_level reduced r
  (size, r) ← read_size r
  r ← unless reduced skip_frame_ids r
  r ← skip_all (1 ∷ (1 ∷ (1 ∷ []))) r
  r ← unless reduced skip_tools r
  r ← skip_all (1 ∷ (1 ∷ (1 ∷ []))) r
  (bit_depth, r) ← read_bit_depth profile r
  ok (record {
    profile = profile;
    level = point.0;
    tier = point.1;
    bit_depth = bit_depth;
    width = size.0;
    height = size.1;
  })

-- Where the fields start: behind the header byte, its extension and the size.
unfoldable pub fields_start : List ℕ → Result ℕ
fields_start [] = throw range_error
fields_start (header ∷ rest) =
    let pos = if header / 4 % 2 == 0 then 1 else 2 in
    if header / 2 % 2 == 0 then ok pos else do (size, pos) ← read_leb128 (header ∷ rest) pos; ok pos

unfoldable pub parse_av1_sequence_header : List ℕ → Result Av1CodecInfo
parse_av1_sequence_header bytes = do
  pos ← fields_start bytes
  parse_fields (record { bytes = bytes; bit_pos = pos * 8 })
