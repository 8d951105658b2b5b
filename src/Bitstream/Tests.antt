-- ===== src/Bitstream/Tests.antt =====
-- A payload with every kind of escape, and a stream with two NAL units.
use proxmoxwhatsapp.Prelude.{
  ℕ, ◌%◌, ◌≤◌, ◌+◌, List, [], ◌∷◌, ◌++◌, length, Bool, ◌==◌, pos, ◌≡◌, refl,
}
use proxmoxwhatsapp.Bitstream.{strip_emulation_prevention, find_nalu_by_header}
use proxmoxwhatsapp.Bitstream.Emulation.{
  no_zero, with_emulation_prevention, strip-with_emulation_prevention,
}
use proxmoxwhatsapp.Bitstream.Scanner.{NaluAt, find_nalu_by_header-first}

abbrev payload : List ℕ
payload = 103 ∷ (0 ∷ (0 ∷ (0 ∷ (0 ∷ (3 ∷ (0 ∷ (0 ∷ (9 ∷ []))))))))

escaped_payload :
    with_emulation_prevention no_zero payload
    ≡ 103 ∷ (0 ∷ (0 ∷ (3 ∷ (0 ∷ (0 ∷ (3 ∷ (3 ∷ (0 ∷ (0 ∷ (9 ∷ []))))))))))
unfolding with_emulation_prevention
escaped_payload = refl

strip-with_emulation_prevention_example :
    strip_emulation_prevention (with_emulation_prevention no_zero payload) ≡ payload
strip-with_emulation_prevention_example = strip-with_emulation_prevention payload

abbrev is_sps : ℕ → Bool
is_sps header = header % 32 == 7

abbrev delimiter : List ℕ
delimiter = 0 ∷ (0 ∷ (1 ∷ (9 ∷ (16 ∷ (0 ∷ [])))))

abbrev stream : List ℕ
stream = delimiter ++ (0 ∷ (0 ∷ (1 ∷ (103 ∷ (66 ∷ [])))))

found_sps : find_nalu_by_header stream is_sps ≡ pos 9
unfolding find_nalu_by_header
found_sps = refl

find_nalu_by_header-first_example :
    (offset : ℕ) × (find_nalu_by_header stream is_sps ≡ pos offset)
    × NaluAt is_sps stream offset
    × (offset ≤ length delimiter + 3)
find_nalu_by_header-first_example = find_nalu_by_header-first is_sps delimiter 103 (66 ∷ []) refl
