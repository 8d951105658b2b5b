-- ===== src/Bitstream/Emulation.antt =====
-- `stripEmulationPrevention` against an encoder as the H.264 and H.265 standards describe it.
use proxmoxwhatsapp.Prelude.{
  ℕ, zero, suc, List, [], ◌∷◌, false, ◌≡◌, refl, ap, ◌∙◌, inl, inr, ◌==◌, leb, Bool-cases,
  if◌then◌else◌, arith,
}
use proxmoxwhatsapp.Bitstream.{strip_emulation_prevention}

-- How many zeros the bytes so far end with, as far as it matters.
pub data Zeros : Type 0 where
  no_zero one_zero two_zeros : Zeros

-- After two zeros a byte up to 3 is written behind a 3.
unfoldable pub with_emulation_prevention : Zeros → List ℕ → List ℕ
with_emulation_prevention z [] = []
with_emulation_prevention no_zero (zero ∷ bs) = 0 ∷ with_emulation_prevention one_zero bs
with_emulation_prevention one_zero (zero ∷ bs) = 0 ∷ with_emulation_prevention two_zeros bs
with_emulation_prevention two_zeros (zero ∷ bs) = 3 ∷ (0 ∷ with_emulation_prevention one_zero bs)
with_emulation_prevention no_zero (suc b ∷ bs) = suc b ∷ with_emulation_prevention no_zero bs
with_emulation_prevention one_zero (suc b ∷ bs) = suc b ∷ with_emulation_prevention no_zero bs
with_emulation_prevention two_zeros (suc b ∷ bs) =
    let rest = suc b ∷ with_emulation_prevention no_zero bs in
    if leb (suc b) 3 then 3 ∷ rest else rest

suc-zero : (b : ℕ) → (suc b == 0) ≡ false
suc-zero b = ground arith

strip-suc :
    (b : ℕ) (bs : List ℕ)
    → strip_emulation_prevention (suc b ∷ bs) ≡ suc b ∷ strip_emulation_prevention bs
unfolding strip_emulation_prevention
strip-suc b [] = refl
strip-suc b (c ∷ []) = refl
strip-suc b (c ∷ (d ∷ bs)) = rw (suc-zero b, strip_emulation_prevention) refl

strip-zero_suc :
    (b : ℕ) (bs : List ℕ)
    → strip_emulation_prevention (0 ∷ (suc b ∷ bs)) ≡ 0 ∷ (suc b ∷ strip_emulation_prevention bs)
unfolding strip_emulation_prevention
strip-zero_suc b [] = refl
strip-zero_suc b (c ∷ bs) =
    rw (suc-zero b, strip_emulation_prevention) (ap (λ xs. 0 ∷ xs) (strip-suc b (c ∷ bs)))

strip-zeros_suc :
    (b : ℕ) (bs : List ℕ)
    → (suc b == 3) ≡ false
    → strip_emulation_prevention (0 ∷ (0 ∷ (suc b ∷ bs)))
      ≡ 0 ∷ (0 ∷ (suc b ∷ strip_emulation_prevention bs))
unfolding strip_emulation_prevention
strip-zeros_suc b bs h =
    rw (h, strip_emulation_prevention) (ap (λ xs. 0 ∷ xs) (strip-zero_suc b bs))

abbrev behind : Zeros → List ℕ → List ℕ
behind no_zero xs = xs
behind one_zero xs = 0 ∷ xs
behind two_zeros xs = 0 ∷ (0 ∷ xs)

strip-behind :
    (z : Zeros) (bs : List ℕ)
    → strip_emulation_prevention (behind z (with_emulation_prevention z bs)) ≡ behind z bs
unfolding strip_emulation_prevention with_emulation_prevention
strip-behind no_zero [] = refl
strip-behind one_zero [] = refl
strip-behind two_zeros [] = refl
strip-behind no_zero (zero ∷ bs) = strip-behind one_zero bs
strip-behind one_zero (zero ∷ bs) = strip-behind two_zeros bs
strip-behind two_zeros (zero ∷ bs) = ap (λ xs. 0 ∷ (0 ∷ xs)) (strip-behind one_zero bs)
strip-behind no_zero (suc b ∷ bs) = strip-suc b _ ∙ ap (λ xs. suc b ∷ xs) (strip-behind no_zero bs)
strip-behind one_zero (suc b ∷ bs) =
    strip-zero_suc b _ ∙ ap (λ xs. 0 ∷ (suc b ∷ xs)) (strip-behind no_zero bs)
strip-behind two_zeros (suc b ∷ bs) =
    let kept = ap (λ xs. 0 ∷ (0 ∷ (suc b ∷ xs))) (strip-behind no_zero bs) in
    elim (Bool-cases (leb (suc b) 3)) [
      | inl e ↦ rw e (ap (λ xs. 0 ∷ (0 ∷ xs)) (strip-suc b _) ∙ kept)
      | inr e ↦ rw e (strip-zeros_suc b _ (ground arith) ∙ kept)
    ]

-- For every payload, stripEmulationPrevention gives the payload back from its form with emulation
-- prevention, in which a 3 stands before each byte up to 3 that follows two zeros.
pub strip-with_emulation_prevention :
    (payload : List ℕ)
    → strip_emulation_prevention (with_emulation_prevention no_zero payload) ≡ payload
strip-with_emulation_prevention payload = strip-behind no_zero payload
