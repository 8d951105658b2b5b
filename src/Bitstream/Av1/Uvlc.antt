-- ===== src/Bitstream/Av1/Uvlc.antt =====
-- The unsigned variable-length code of AV1.
use proxmoxwhatsapp.Prelude.{
  ℕ, zero, suc, ◌+◌, ◌-◌, ◌^◌, ◌≤◌, ◌<◌, List, [], ◌∷◌, ◌++◌, length, length-append, false, leb,
  some, ◌≡◌, refl, ap, ◌∙◌, arith, Result, ok,
}
use mathlib.Core.Path.{subst}
use proxmoxwhatsapp.Prelude.Bits.{two_pow-suc}
use proxmoxwhatsapp.Bitstream.Av1.{Av1BitReader, read_bits, count_zeros, uvlc_value, uvlc}
use proxmoxwhatsapp.Bitstream.Av1.Fields.{Has, Has-append, field, length-field, read_bits-field}

abbrev pub zeros : ℕ → List ℕ
zeros zero = []
zeros (suc n) = 0 ∷ zeros n

length-zeros : (n : ℕ) → length (zeros n) ≡ n
length-zeros zero = refl
length-zeros (suc n) = ap suc (length-zeros n)

-- The code of 2 ^ n - 1 + w, for w below 2 ^ n.
abbrev pub uvlc_code : ℕ → ℕ → List ℕ
uvlc_code n w = zeros n ++ (1 ∷ field n w)

read_bit :
    (b pos : ℕ) (bytes rest : List ℕ)
    → b < 2
    → Has bytes pos (b ∷ rest)
    → read_bits 1 (record { bytes = bytes; bit_pos = pos })
      ≡ ok (b, record { bytes = bytes; bit_pos = pos + 1 })
unfolding field
read_bit b pos bytes rest small h =
    read_bits-field 1 b pos bytes small (omega arith) (h.0 ∙ ap some (omega arith), tt)

abbrev done_at : ℕ → ℕ → List ℕ → Result (ℕ × Av1BitReader)
done_at value pos bytes = ok (value, record { bytes = bytes; bit_pos = pos })

same_place : (a b p q : ℕ) (bytes : List ℕ) → a ≡ b → p ≡ q → done_at a p bytes ≡ done_at b q bytes
same_place a b p q bytes e k = rw (e, k) refl

count_zeros-code :
    (n left count pos : ℕ) (bytes rest : List ℕ)
    → n < left
    → Has bytes pos (zeros n ++ (1 ∷ rest))
    → count_zeros left count (record { bytes = bytes; bit_pos = pos })
      ≡ ok (count + n, record { bytes = bytes; bit_pos = pos + suc n })
unfolding count_zeros
count_zeros-code n zero count pos bytes rest fits h = absurd (omega arith)
count_zeros-code zero (suc left) count pos bytes rest fits h =
    rw (read_bit 1 pos bytes rest (omega arith) h)
      (ap (λ k. ok (k, record { bytes = bytes; bit_pos = pos + 1 })) (omega arith))
count_zeros-code (suc n) (suc left) count pos bytes rest fits h =
    rw (read_bit 0 pos bytes (zeros n ++ (1 ∷ rest)) (omega arith) h) (
      count_zeros-code n left (suc count) (pos + 1) bytes rest (omega arith)
        (subst (λ p. Has bytes p (zeros n ++ (1 ∷ rest))) (omega arith) h.1)
      ∙ same_place (suc count + n) (count + suc n) (pos + 1 + suc n) (pos + suc (suc n)) bytes
          (omega arith) (omega arith))

small-leb : (n : ℕ) → n < 32 → leb 32 n ≡ false
small-leb n h = ground arith

same_power : (a b : ℕ) → a ≡ b → 2 ^ a ≡ 2 ^ b
same_power a b e = ap (λ m. 2 ^ m) e

pow_grows : (n k m : ℕ) → m ≡ n + k → 2 ^ n ≤ 2 ^ m
pow_grows n zero m e = omega (arith, same_power m n (omega arith))
pow_grows n (suc k) m e = omega (
  arith,
  same_power m (suc (n + k)) (omega arith),
  two_pow-suc (n + k),
  pow_grows n k (n + k) refl,
)

narrow : (n w : ℕ) → n < 32 → w < 2 ^ n → w < 2 ^ 32
narrow n w h k = omega (arith, pow_grows n (32 - n) 32 (omega arith))

-- For n below 32 and w below 2^n, where n zeros, a one and the n bits of w stand in the bytes, uvlc
-- gives 2^n - 1 + w and stops behind them.
pub uvlc-code :
    (n w pos : ℕ) (bytes : List ℕ)
    → n < 32
    → w < 2 ^ n
    → Has bytes pos (uvlc_code n w)
    → uvlc (record { bytes = bytes; bit_pos = pos })
      ≡ ok (2 ^ n - 1 + w, record { bytes = bytes; bit_pos = pos + length (uvlc_code n w) })
unfolding uvlc uvlc_value
uvlc-code n w pos bytes small below h =
    let counted =
      count_zeros-code n 32 0 pos bytes (field n w) small h
      ∙ same_place (0 + n) n (pos + suc n) (pos + suc n) bytes (omega arith) refl in
    let behind : Has bytes (pos + suc n) (field n w) =
      subst (λ p. Has bytes p (field n w)) (omega (arith, length-zeros n))
        (Has-append bytes pos (zeros n) (1 ∷ field n w) h).1.1 in
    rw counted (
      rw
        (
          small-leb n small,
          read_bits-field n w (pos + suc n) bytes below (narrow n w small below) behind,
          uvlc_value,
        )
        (same_place (2 ^ n - 1 + w) (2 ^ n - 1 + w) (pos + suc n + n) (pos + length (uvlc_code n w))
          bytes refl
          (omega
            (arith, length-append (zeros n) (1 ∷ field n w), length-zeros n, length-field n w))))
