-- ===== src/Bitstream/Av1/Chain.antt =====
-- How parsers of fields are chained.
use proxmoxwhatsapp.Prelude.{
  ℕ, ◌+◌, ◌^◌, ◌<◌, List, [], ◌++◌, length, length-append, append_assoc, ◌≡◌, sym, ap, ◌∙◌, arith,
  Result, ok, ◌>>=◌,
}
use mathlib.Core.Path.{subst}
use proxmoxwhatsapp.Bitstream.Av1.{Av1BitReader, read_bits}
use proxmoxwhatsapp.Bitstream.Av1.Fields.{Has, Has-append, field, length-field, read_bits-field}

abbrev pub reader_at : List ℕ → ℕ → Av1BitReader
reader_at bytes pos = record { bytes = bytes; bit_pos = pos }

module _ (bytes : List ℕ) where
  -- The parser reads the bits as the value, whatever follows them, and stops behind them.
  abbrev pub Parses :
      {A : Type 0} → (Av1BitReader → Result (A × Av1BitReader)) → List ℕ → A → Type 0
  Parses {A} parser bits value =
      (pos : ℕ) (rest : List ℕ)
      → Has bytes pos (bits ++ rest)
      → (parser (reader_at bytes pos) ≡ ok (value, reader_at bytes (pos + length bits)))
        × Has bytes (pos + length bits) rest

  pub Parses-then :
      {A B : Type 0} (parser : Av1BitReader → Result (A × Av1BitReader))
      (next : A × Av1BitReader → Result (B × Av1BitReader)) (bits more : List ℕ) (value : A)
      (result : B)
      → Parses parser bits value
      → Parses (λ r. next (value, r)) more result
      → Parses (λ r. parser r >>= next) (bits ++ more) result
  Parses-then parser next bits more value result h k pos rest has =
      let (e, behind) =
        h pos (more ++ rest) (subst (Has bytes pos) (append_assoc bits more rest) has) in
      let (e', last) = k (pos + length bits) rest behind in
      let place : pos + length bits + length more ≡ pos + length (bits ++ more) =
        omega (arith, length-append bits more) in
      (
        rw e e' ∙ ap (λ p. ok (result, reader_at bytes p)) place,
        subst (λ p. Has bytes p rest) place last,
      )

  pub Parses-field : (n v : ℕ) → v < 2 ^ n → v < 2 ^ 32 → Parses (read_bits n) (field n v) v
  Parses-field n v h k pos rest has =
      let (front, behind) = Has-append bytes pos (field n v) rest has in
      (
        read_bits-field n v pos bytes h k front
            ∙ ap (λ m. ok (v, reader_at bytes (pos + m))) (sym (length-field n v)),
        behind,
      )

  pub Parses-done : {A : Type 0} (value : A) → Parses (λ r. ok (value, r)) [] value
  Parses-done value pos rest has = (
    ap (λ p. ok (value, reader_at bytes p)) (here pos),
    subst (λ p. Has bytes p rest) (here pos) has,
  )
    where
      here : (p : ℕ) → p ≡ p + 0
      here p = omega arith

  -- The same for a parser that only moves on.
  abbrev pub Skips : (Av1BitReader → Result Av1BitReader) → List ℕ → Type 0
  Skips parser bits =
      (pos : ℕ) (rest : List ℕ)
      → Has bytes pos (bits ++ rest)
      → (parser (reader_at bytes pos) ≡ ok (reader_at bytes (pos + length bits)))
        × Has bytes (pos + length bits) rest

  pub Skips-nothing : Skips (λ r. ok r) []
  Skips-nothing pos rest has =
      (ap (λ p. ok (reader_at bytes p)) (here pos), subst (λ p. Has bytes p rest) (here pos) has)
    where
      here : (p : ℕ) → p ≡ p + 0
      here p = omega arith

  pub Skips-then :
      {B : Type 0} (parser : Av1BitReader → Result Av1BitReader)
      (next : Av1BitReader → Result (B × Av1BitReader)) (bits more : List ℕ) (result : B)
      → Skips parser bits
      → Parses next more result
      → Parses (λ r. parser r >>= next) (bits ++ more) result
  Skips-then parser next bits more result h k pos rest has =
      let (e, behind) =
        h pos (more ++ rest) (subst (Has bytes pos) (append_assoc bits more rest) has) in
      let (e', last) = k (pos + length bits) rest behind in
      let place : pos + length bits + length more ≡ pos + length (bits ++ more) =
        omega (arith, length-append bits more) in
      (
        rw e e' ∙ ap (λ p. ok (result, reader_at bytes p)) place,
        subst (λ p. Has bytes p rest) place last,
      )

  pub field-Skips :
      {A : Type 0} (parser : Av1BitReader → Result (A × Av1BitReader))
      (next : A × Av1BitReader → Result Av1BitReader) (bits more : List ℕ) (value : A)
      → Parses parser bits value
      → Skips (λ r. next (value, r)) more
      → Skips (λ r. parser r >>= next) (bits ++ more)
  field-Skips parser next bits more value h k pos rest has =
      let (e, behind) =
        h pos (more ++ rest) (subst (Has bytes pos) (append_assoc bits more rest) has) in
      let (e', last) = k (pos + length bits) rest behind in
      let place : pos + length bits + length more ≡ pos + length (bits ++ more) =
        omega (arith, length-append bits more) in
      (rw e e' ∙ ap (λ p. ok (reader_at bytes p)) place, subst (λ p. Has bytes p rest) place last)

  pub Skips-both :
      (parser next : Av1BitReader → Result Av1BitReader) (bits more : List ℕ)
      → Skips parser bits
      → Skips next more
      → Skips (λ r. parser r >>= next) (bits ++ more)
  Skips-both parser next bits more h k pos rest has =
      let (e, behind) =
        h pos (more ++ rest) (subst (Has bytes pos) (append_assoc bits more rest) has) in
      let (e', last) = k (pos + length bits) rest behind in
      let place : pos + length bits + length more ≡ pos + length (bits ++ more) =
        omega (arith, length-append bits more) in
      (rw e e' ∙ ap (λ p. ok (reader_at bytes p)) place, subst (λ p. Has bytes p rest) place last)

  -- A parser at the end, which gives its result without the reader.
  abbrev pub Gives : {A : Type 0} → (Av1BitReader → Result A) → List ℕ → A → Type 0
  Gives parser bits value =
      (pos : ℕ) (rest : List ℕ)
      → Has bytes pos (bits ++ rest)
      → parser (reader_at bytes pos) ≡ ok value

  pub Gives-field :
      {A B : Type 0} (parser : Av1BitReader → Result (A × Av1BitReader))
      (next : A × Av1BitReader → Result B) (bits more : List ℕ) (value : A) (result : B)
      → Parses parser bits value
      → Gives (λ r. next (value, r)) more result
      → Gives (λ r. parser r >>= next) (bits ++ more) result
  Gives-field parser next bits more value result h k pos rest has =
      let (e, behind) =
        h pos (more ++ rest) (subst (Has bytes pos) (append_assoc bits more rest) has) in
      rw e (k (pos + length bits) rest behind)

  pub Gives-skip :
      {B : Type 0} (parser : Av1BitReader → Result Av1BitReader) (next : Av1BitReader → Result B)
      (bits more : List ℕ) (result : B)
      → Skips parser bits
      → Gives next more result
      → Gives (λ r. parser r >>= next) (bits ++ more) result
  Gives-skip parser next bits more result h k pos rest has =
      let (e, behind) =
        h pos (more ++ rest) (subst (Has bytes pos) (append_assoc bits more rest) has) in
      rw e (k (pos + length bits) rest behind)
