-- ===== src/Text.antt =====
-- JavaScript strings where the code only hands them on: an abstract type with the platform's
-- TextEncoder and TextDecoder, `trim`, and the test that a string is not empty.
use proxmoxwhatsapp.Prelude.{
  ℕ, ◌≡◌, refl, List, [], ◌∷◌, Bool, true, false, not, ◌&&◌, if◌then◌else◌, leb, ◌==◌, Option, none,
  some,
}

-- The UTF-16 units of a string: every high surrogate is followed by a low one, and no low surrogate
-- stands alone.
abbrev well_formed : Bool → List ℕ → Bool
well_formed after_high [] = not after_high
well_formed after_high (u ∷ us) =
    let low = leb 56320 u && leb u 57343 in
    let high = leb 55296 u && leb u 56319 in
    (if after_high then low else not low) && well_formed high us

-- The byte order mark U+FEFF at the start, which `new TextDecoder()` removes.
abbrev starts_with_mark : List ℕ → Bool
starts_with_mark [] = false
starts_with_mark (u ∷ us) = u == 65279

-- The strings that come through TextEncoder and TextDecoder as they were: no lone surrogate, which
-- the encoder replaces by U+FFFD, and no leading U+FEFF.
abbrev pub is_plain : List ℕ → Bool
is_plain units = well_formed false units && not (starts_with_mark units)

pub record TextCodec : Type 1 where
  pub Text : Type 0
  -- The UTF-16 units of a string.
  pub units : Text → List ℕ
  pub encode : Text → List ℕ
  pub decode : List ℕ → Text
  pub empty : Text
  pub is_empty : Text → Bool
  pub trim : Text → Text
  -- Documented: the encoder writes UTF-8, which the decoder reads back where no lone surrogate and
  -- no leading byte order mark stands; "" has no bytes, and is the only falsy string; `trim` is
  -- idempotent.
  pub decode-encode : (t : Text) → is_plain (units t) ≡ true → decode (encode t) ≡ t
  pub encode-empty : encode empty ≡ []
  pub is_empty-true : (t : Text) → is_empty t ≡ true → t ≡ empty
  pub is_empty-false : (t : Text) → is_empty t ≡ false → encode t ≡ [] → ⊥
  pub trim-trim : (t : Text) → trim (trim t) ≡ trim t

abbrev pub IsPlain : (codec : TextCodec) → codec.Text → Type 0
IsPlain codec t = is_plain (codec.units t) ≡ true

-- The same for a text that may be absent.
abbrev pub ArePlain : (codec : TextCodec) → Option codec.Text → Type 0
ArePlain codec none = Unit
ArePlain codec (some t) = IsPlain codec t

abbrev pub no_bytes : List ℕ → Bool
no_bytes [] = true
no_bytes (b ∷ bs) = false

pub bytes_is_empty-true : (t : List ℕ) → no_bytes t ≡ true → t ≡ []
bytes_is_empty-true [] h = refl
bytes_is_empty-true (b ∷ bs) h = cc

pub bytes_is_empty-false : (t : List ℕ) → no_bytes t ≡ false → t ≡ [] → ⊥
bytes_is_empty-false [] h e = cc
bytes_is_empty-false (b ∷ bs) h e = cc

-- A codec in which a text is its bytes: the assumptions can be met.
abbrev pub byte_text : TextCodec
byte_text = record {
  Text = List ℕ;
  units = λ t. t;
  encode = λ t. t;
  decode = λ t. t;
  empty = [];
  is_empty = no_bytes;
  trim = λ t. t;
  decode-encode = λ t h. refl;
  encode-empty = refl;
  is_empty-true = bytes_is_empty-true;
  is_empty-false = bytes_is_empty-false;
  trim-trim = λ t. refl;
}
