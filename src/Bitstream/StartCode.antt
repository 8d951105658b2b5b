-- ===== src/Bitstream/StartCode.antt =====
-- The bytes at which `findNaluByHeader` sees a start code.
use proxmoxwhatsapp.Prelude.{
  ℕ, List, [], ◌∷◌, ◌&&◌, ◌≡◌, sym, ap, ap₂, ◌∙◌, inl, inr, Option, none, some, ◌==◌, ==→eq,
  Bool-cases, arith, if◌then◌else◌,
}
use mathlib.Core.Path.{subst}
use proxmoxwhatsapp.Bitstream.{start_code, starts_with_one}

-- The two start codes, and the bytes behind them.
pub data StartCode (bytes : List ℕ) (size : ℕ) : Type 0 where
  short : (rest : List ℕ) → bytes ≡ 0 ∷ (0 ∷ (1 ∷ rest)) → size ≡ 3 → StartCode bytes size
  long : (rest : List ℕ) → bytes ≡ 0 ∷ (0 ∷ (0 ∷ (1 ∷ rest))) → size ≡ 4 → StartCode bytes size

long_code :
    (rest : List ℕ) (size : ℕ)
    → (if starts_with_one rest then some 4 else none) ≡ some size
    → StartCode (0 ∷ (0 ∷ (0 ∷ rest))) size
long_code [] size h = absurd cc
long_code (d ∷ rest) size h = elim (Bool-cases (d == 1)) [
  | inl e ↦ long rest (ap (λ d. 0 ∷ (0 ∷ (0 ∷ (d ∷ rest)))) (==→eq d 1 e)) (ground arith)
  | inr e ↦ absurd (ground arith)
]

abbrev rest_code : ℕ → List ℕ → Option ℕ
rest_code c rest =
    if c == 1 then some 3 else if c == 0 && starts_with_one rest then some 4 else none

third_byte :
    (c : ℕ) (rest : List ℕ) (size : ℕ)
    → rest_code c rest ≡ some size
    → StartCode (0 ∷ (0 ∷ (c ∷ rest))) size
third_byte c rest size h = elim (Bool-cases (c == 1)) [
  | inl e ↦ short rest (ap (λ c. 0 ∷ (0 ∷ (c ∷ rest))) (==→eq c 1 e)) (ground arith)
  | inr e ↦ elim (Bool-cases (c == 0)) [
    | inl z ↦
        subst (λ c. StartCode (0 ∷ (0 ∷ (c ∷ rest))) size) (sym (==→eq c 0 z))
          (long_code rest size (ground arith))
    | inr n ↦ absurd (ground arith)
  ]
]

pub start_code-at :
    (bytes : List ℕ) (size : ℕ) → start_code bytes ≡ some size → StartCode bytes size
unfolding start_code
start_code-at [] size h = absurd cc
start_code-at (a ∷ []) size h = absurd cc
start_code-at (a ∷ (b ∷ [])) size h = absurd cc
start_code-at (a ∷ (b ∷ (c ∷ rest))) size h = elim (Bool-cases (a == 0 && b == 0)) [
  | inl e ↦
      let zeros : a ∷ (b ∷ (c ∷ rest)) ≡ 0 ∷ (0 ∷ (c ∷ rest)) =
        ap₂ (λ a b. a ∷ (b ∷ (c ∷ rest))) (==→eq a 0 (ground arith)) (==→eq b 0 (ground arith)) in
      subst (λ bytes. StartCode bytes size) (sym zeros)
        (third_byte c rest size (sym (ap (λ t. if t then rest_code c rest else none) e) ∙ h))
  | inr e ↦ absurd (ground arith)
]
