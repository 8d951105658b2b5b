-- ===== src/Security/Words.antt =====
-- An encoder's name stands in the server's command line without quotes.
use proxmoxwhatsapp.Prelude.{ℕ, [], ◌∷◌, ◌++◌, all, true, false, ◌==◌, some, ◌≡◌, ◌≢◌, refl, arith}
use proxmoxwhatsapp.Subnet.Text.{Str}
use proxmoxwhatsapp.Security.{quote, backslash}
use proxmoxwhatsapp.Security.Quoting.{bare, read_word, ends_word, is_special, ended}
use proxmoxwhatsapp.Security.DeviceInput.{
  text, is_alphanumeric, is_encoder_char, is_safe_encoder_name,
}

plain_char :
    (c : ℕ)
    → is_encoder_char c ≡ true
    → ((c == quote) ≡ false) × ((c == backslash) ≡ false) × (is_special c ≡ false)
unfolding is_encoder_char is_alphanumeric is_special
plain_char c h = (ground arith, ground arith, ground arith)

all_encoder-read_word :
    (s rest : Str)
    → all is_encoder_char s ≡ true
    → ends_word rest ≡ true
    → read_word bare (s ++ rest) ≡ some (s, rest)
unfolding read_word
all_encoder-read_word [] rest h e = ended rest e
all_encoder-read_word (x ∷ xs) rest h e =
    let (not_quote, not_backslash, plain) = plain_char x (ground arith) in
    rw (not_quote, not_backslash, plain, all_encoder-read_word xs rest (ground arith) e) refl

-- An encoder's name that is taken is not empty, and a POSIX shell that reads it without quotes
-- before a special character or the end reads one word, which is the name.
pub is_safe_encoder_name-read_word :
    (name rest : Str)
    → is_safe_encoder_name (text name) ≡ true
    → ends_word rest ≡ true
    → (name ≢ []) × (read_word bare (name ++ rest) ≡ some (name, rest))
unfolding is_safe_encoder_name
is_safe_encoder_name-read_word [] rest h e = absurd cc
is_safe_encoder_name-read_word (x ∷ xs) rest h e =
    ((λ q. cc), all_encoder-read_word (x ∷ xs) rest (ground arith) e)
