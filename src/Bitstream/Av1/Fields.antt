-- ===== src/Bitstream/Av1/Fields.antt =====
-- What the bit reader makes of bits that stand in the bytes.
use proxmoxwhatsapp.Prelude.{
  ℕ, zero, suc, ◌+◌, ◌*◌, ◌/◌, ◌%◌, ◌^◌, ◌<◌, List, [], ◌∷◌, ◌++◌, length, length-append, some, ◌≡◌,
  refl, ap, ◌∙◌, arith, ok,
}
use mathlib.Core.Path.{subst}
use proxmoxwhatsapp.Prelude.Bits.{two_pow-suc}
use proxmoxwhatsapp.Bitstream.Av1.{bit_at, read_on, read_bits}

-- The bits stand in the bytes from the position on.
abbrev pub Has : List ℕ → ℕ → List ℕ → Type 0
Has bytes pos [] = Unit {0}
Has bytes pos (b ∷ bs) = (bit_at bytes pos ≡ some b) × Has bytes (suc pos) bs

-- The last `n` bits of a number, the highest first.
unfoldable pub field : ℕ → ℕ → List ℕ
field zero v = []
field (suc n) v = field n (v / 2) ++ (v % 2 ∷ [])

-- The value that the reader collects from bits.
unfoldable pub collect : ℕ → List ℕ → ℕ
collect value [] = value
collect value (b ∷ bs) = collect (value * 2 % 2 ^ 32 + b) bs

pub Has-append :
    (bytes : List ℕ) (pos : ℕ) (xs ys : List ℕ)
    → Has bytes pos (xs ++ ys)
    → Has bytes pos xs × Has bytes (pos + length xs) ys
Has-append bytes pos [] ys h = (tt, subst (λ p. Has bytes p ys) (pos_zero pos) h)
  where
    pos_zero : (p : ℕ) → p ≡ p + 0
    pos_zero p = omega arith
Has-append bytes pos (x ∷ xs) ys h =
    let (front, back) = Has-append bytes (suc pos) xs ys h.1 in
    ((h.0, front), subst (λ p. Has bytes p ys) (moved_on pos (length xs)) back)
  where
    moved_on : (p n : ℕ) → suc p + n ≡ p + suc n
    moved_on p n = omega arith

collect-append :
    (value : ℕ) (xs : List ℕ) (b : ℕ)
    → collect value (xs ++ (b ∷ [])) ≡ collect value xs * 2 % 2 ^ 32 + b
unfolding collect
collect-append value [] b = refl
collect-append value (x ∷ xs) b = collect-append (value * 2 % 2 ^ 32 + x) xs b

pub length-field : (n v : ℕ) → length (field n v) ≡ n
unfolding field
length-field zero v = refl
length-field (suc n) v =
    length-append (field n (v / 2)) (v % 2 ∷ []) ∙ omega (arith, length-field n (v / 2))

collect-field : (n v : ℕ) → v < 2 ^ n → v < 2 ^ 32 → collect 0 (field n v) ≡ v
unfolding field collect
collect-field zero v h k = omega arith
collect-field (suc n) v h k =
    collect-append 0 (field n (v / 2)) (v % 2)
    ∙ rw (collect-field n (v / 2) (omega (arith, two_pow-suc n)) (omega arith)) (omega arith)

read_on-Has :
    (value pos : ℕ) (bytes bs : List ℕ)
    → Has bytes pos bs
    → read_on value (length bs) bytes pos ≡ ok (collect value bs, pos + length bs)
unfolding read_on collect
read_on-Has value pos bytes [] h = ap (λ p. ok (value, p)) (here pos)
  where
    here : (p : ℕ) → p ≡ p + 0
    here p = omega arith
read_on-Has value pos bytes (b ∷ bs) h =
    rw (h.0, read_on)
      (read_on-Has (value * 2 % 2 ^ 32 + b) (suc pos) bytes bs h.1
        ∙ ap (λ p. ok (collect (value * 2 % 2 ^ 32 + b) bs, p)) (further pos (length bs)))
  where
    further : (p n : ℕ) → suc p + n ≡ p + suc n
    further p n = omega arith

-- A field of `n` bits is read as the number in it, and the reader stands behind it.
pub read_bits-field :
    (n v pos : ℕ) (bytes : List ℕ)
    → v < 2 ^ n
    → v < 2 ^ 32
    → Has bytes pos (field n v)
    → read_bits n (record { bytes = bytes; bit_pos = pos })
      ≡ ok (v, record { bytes = bytes; bit_pos = pos + n })
unfolding read_bits
read_bits-field n v pos bytes h k has =
    let e : read_on 0 n bytes pos ≡ ok (v, pos + n) =
      subst (λ m. read_on 0 m bytes pos ≡ ok (collect 0 (field n v), pos + m)) (length-field n v)
        (read_on-Has 0 pos bytes (field n v) has)
      ∙ ap (λ x. ok (x, pos + n)) (collect-field n v h k) in
    rw e refl
