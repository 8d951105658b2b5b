-- ===== src/Bitstream.antt =====
-- The players' view of a NAL unit: app/player/naluScanner.ts finds where one starts in an Annex B
-- stream, and `stripEmulationPrevention` of app/player/h264-utils.ts undoes the escapes in it.
pub mod Emulation
pub mod StartCode
pub mod Scanner
pub mod Av1
mod Tests
use proxmoxwhatsapp.Prelude.{
  ℕ, ◌+◌, List, [], ◌∷◌, length, Bool, true, false, ◌&&◌, Option, none, some, ◌==◌, ltb,
  if◌then◌else◌, get_elem?, ℤ, pos, negsuc,
}

-- One round of the loop on the bytes from `i` on: where there are three, 00 00 03 gives two zeros.
unfoldable pub strip_emulation_prevention : List ℕ → List ℕ
strip_emulation_prevention [] = []
strip_emulation_prevention (a ∷ []) = a ∷ []
strip_emulation_prevention (a ∷ (b ∷ [])) = a ∷ (b ∷ [])
strip_emulation_prevention (a ∷ (b ∷ (c ∷ rest))) = elim (a == 0 && (b == 0 && c == 3)) [
  | true ↦ 0 ∷ (0 ∷ strip_emulation_prevention rest)
  | false ↦ a ∷ strip_emulation_prevention (b ∷ (c ∷ rest))
]

-- `data[i + 3] === 1`, which is false past the end.
abbrev starts_with_one : List ℕ → Bool
starts_with_one [] = false
starts_with_one (b ∷ bs) = b == 1

-- The length of the start code at the front of the bytes, if there is one.
unfoldable pub start_code : List ℕ → Option ℕ
start_code (a ∷ (b ∷ (c ∷ rest))) =
    if a == 0 && b == 0
    then if c == 1 then some 3 else if c == 0 && starts_with_one rest then some 4 else none
    else none
start_code _ = none

-- `offset < data.length && match(data[offset])`.
abbrev pub header_at : (ℕ → Bool) → ℕ → Option ℕ → Option ℕ
header_at match offset none = none
header_at match offset (some header) = if match header then some offset else none

abbrev pub behind_code : (ℕ → Bool) → List ℕ → Option ℕ → Option ℕ
behind_code match bytes none = none
behind_code match bytes (some offset) = header_at match offset (get_elem? bytes offset)

-- What the body of the loop returns from the bytes at `i`, counted from there.
unfoldable pub nalu_here : (ℕ → Bool) → List ℕ → Option ℕ
unfolding start_code
nalu_here match bytes = behind_code match bytes (start_code bytes)

-- The loop returns what a round finds, or goes on.
abbrev pub or_later : ℕ → Option ℕ → Option ℕ → Option ℕ
or_later i none later = later
or_later i (some offset) later = some (i + offset)

unfoldable pub scan_from : (ℕ → Bool) → ℕ → List ℕ → Option ℕ
unfolding nalu_here
scan_from match i [] = none
scan_from match i (b ∷ bs) = or_later i (nalu_here match (b ∷ bs)) (scan_from match (i + 1) bs)

abbrev pub offset_or_minus_one : Option ℕ → ℤ
offset_or_minus_one none = negsuc 0
offset_or_minus_one (some offset) = pos offset

unfoldable pub find_nalu_by_header : List ℕ → (ℕ → Bool) → ℤ
unfolding scan_from
find_nalu_by_header bytes match = offset_or_minus_one (scan_from match 0 bytes)

unfoldable pub find_first_nalu_offset : List ℕ → ℤ
unfolding find_nalu_by_header
find_first_nalu_offset bytes = find_nalu_by_header bytes (λ _. true)
