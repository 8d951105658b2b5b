-- ===== src/Bitstream/Av1/Tests.antt =====
-- A code of five bits, and the header of a picture of 1920 by 1080.
use proxmoxwhatsapp.Prelude.{
  ℕ, suc, List, Option, none, some, Bool, true, false, ◌&&◌, ==→eq, Bool-cases, inl, inr, ap, arith,
  ok, [], ◌∷◌, ◌≡◌, ◌==◌, refl,
}
use proxmoxwhatsapp.Bitstream.Av1.{bit_at, uvlc}
use proxmoxwhatsapp.Bitstream.Av1.Fields.{Has, field}
use proxmoxwhatsapp.Bitstream.Av1.Uvlc.{uvlc_code, uvlc-code}
use proxmoxwhatsapp.Bitstream.Av1.Sequence.{Sequence}

-- Whether bits stand in bytes, as a test.
abbrev is_bit : Option ℕ → ℕ → Bool
is_bit none b = false
is_bit (some bit) b = bit == b

abbrev stands : List ℕ → ℕ → List ℕ → Bool
stands bytes pos [] = true
stands bytes pos (b ∷ bs) = is_bit (bit_at bytes pos) b && stands bytes (suc pos) bs

is_bit-eq : (bit : Option ℕ) (b : ℕ) → is_bit bit b ≡ true → bit ≡ some b
is_bit-eq none b h = cc
is_bit-eq (some bit) b h = ap some (==→eq bit b h)

stands-Has :
    (bytes : List ℕ) (pos : ℕ) (bs : List ℕ) → stands bytes pos bs ≡ true → Has bytes pos bs
stands-Has bytes pos [] h = tt
stands-Has bytes pos (b ∷ bs) h = elim (Bool-cases (is_bit (bit_at bytes pos) b)) [
  | inl e ↦ (is_bit-eq (bit_at bytes pos) b e, stands-Has bytes (suc pos) bs (ground arith))
  | inr e ↦ absurd (ground arith)
]

code_stands : stands (40 ∷ []) 0 (uvlc_code 2 1) ≡ true
unfolding bit_at field
code_stands = refl

uvlc-code_example :
    uvlc (record { bytes = 40 ∷ []; bit_pos = 0 }) ≡ ok (4, record { bytes = 40 ∷ []; bit_pos = 5 })
unfolding field
uvlc-code_example =
    uvlc-code 2 1 0 (40 ∷ []) (omega arith) (omega arith)
      (stands-Has (40 ∷ []) 0 (uvlc_code 2 1) code_stands)

-- A picture of 1920 by 1080.
abbrev full_hd : Sequence
full_hd = record {
  profile = 0;
  still_picture = 0;
  point = 0;
  level = 8;
  tier = 0;
  width_bits = 10;
  height_bits = 10;
  width = 1919;
  height = 1079;
  intra_tools = (0, 1, 1);
  inter_tools = (1, 0, 1, 1);
  filters = (0, 1, 1);
  high_bit_depth = 0;
}

abbrev obu : List ℕ
obu = 10 ∷ (10 ∷ (0 ∷ (0 ∷ (0 ∷ (66 ∷ (171 ∷ (191 ∷ (195 ∷ (115 ∷ (182 ∷ (192 ∷ [])))))))))))
