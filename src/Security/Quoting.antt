-- ===== src/Security/Quoting.antt =====
-- `shArg` against the way a POSIX shell reads a word.
use proxmoxwhatsapp.Prelude.{
  ℕ, ◌≡◌, refl, sym, ap, ◌∙◌, List, [], ◌∷◌, ◌++◌, Bool, true, false, any, Option, none, some, ◌==◌,
  if◌then◌else◌, arith, Bool-cases, inl, inr, ==→eq,
}
use proxmoxwhatsapp.Subnet.Text.{Str}
use proxmoxwhatsapp.Security.{quote, backslash, escape_quotes, sh_arg}

pub data Mode : Type 0 where
  bare escaped quoted : Mode

-- Blank, line feed and the characters with which the shell ends a word or expands something.
abbrev pub specials : List ℕ
specials =
    9
    ∷ (10
        ∷ (32
            ∷ (33
                ∷ (34
                    ∷ (35
                        ∷ (36
                            ∷ (38
                                ∷ (40
                                    ∷ (41
                                        ∷ (42
                                            ∷ (59
                                                ∷ (60
                                                    ∷ (62
                                                        ∷ (63
                                                            ∷ (91
                                                            ∷ (96
                                                            ∷ (123
                                                            ∷ (124 ∷ (126 ∷ [])))))))))))))))))))

unfoldable pub is_special : ℕ → Bool
is_special c = any (λ special. c == special) specials

abbrev literal : ℕ → Option (Str × Str) → Option (Str × Str)
literal c none = none
literal c (some (word, rest)) = some (c ∷ word, rest)

-- The quoting rules of POSIX: a word, up to a special character outside quotes, and the rest; none
-- if the quotes do not end.
unfoldable pub read_word : Mode → Str → Option (Str × Str)
read_word bare [] = some ([], [])
read_word bare (x ∷ xs) =
    let in_quotes = read_word quoted xs in
    let after_backslash = read_word escaped xs in
    let plain = read_word bare xs in
    if x == quote
    then in_quotes
    else if x == backslash
    then after_backslash
    else if is_special x
    then some ([], x ∷ xs)
    else literal x plain
read_word escaped [] = none
read_word escaped (x ∷ xs) = literal x (read_word bare xs)
read_word quoted [] = none
read_word quoted (x ∷ xs) =
    let closed = read_word bare xs in
    let inside = read_word quoted xs in if x == quote then closed else literal x inside

-- Where the word ends.
unfoldable pub ends_word : Str → Bool
ends_word [] = true
ends_word (x ∷ xs) = is_special x

-- A character that is not special is none of the special ones.
not_special : (x c : ℕ) → is_special c ≡ false → is_special x ≡ true → (x == c) ≡ false
not_special x c p h = elim (Bool-cases (x == c)) [
  | inl e ↦ absurd (true-false (sym h ∙ ap is_special (==→eq x c e) ∙ p))
  | inr e ↦ e
]
  where
    true-false : true ≡ false → ⊥
    true-false q = ground arith

pub ended : (rest : Str) → ends_word rest ≡ true → read_word bare rest ≡ some ([], rest)
unfolding ends_word read_word is_special
ended [] h = refl
ended (x ∷ xs) h = rw (not_special x quote refl h, not_special x backslash refl h) (rw h refl)

inside_quotes :
    (value rest : Str)
    → ends_word rest ≡ true
    → read_word quoted ((escape_quotes value ++ quote ∷ []) ++ rest) ≡ some (value, rest)
unfolding escape_quotes read_word
inside_quotes [] rest h = ended rest h
inside_quotes (x ∷ xs) rest h = elim (Bool-cases (x == quote)) [
  | inl e ↦ rw (e, inside_quotes xs rest h) (ap (λ c. some (c ∷ xs, rest)) (sym (==→eq x quote e)))
  | inr e ↦ rw (e, inside_quotes xs rest h) (rw e refl)
]

-- A POSIX shell that reads shArg(value) before a special character or the end of the command line
-- reads one word, which is value, whatever characters value has.
pub read_word-sh_arg :
    (value rest : Str)
    → ends_word rest ≡ true
    → read_word bare (sh_arg value ++ rest) ≡ some (value, rest)
unfolding sh_arg read_word
read_word-sh_arg value rest h = inside_quotes value rest h
