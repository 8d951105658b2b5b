-- ===== src/Subnet/Text.antt =====
-- JavaScript strings where the code looks into them: the list of the UTF-16 code units, with the
-- methods and patterns that SubnetParser.ts uses.
use proxmoxwhatsapp.Prelude.{
  ℕ, ◌+◌, ◌-◌, ◌*◌, ◌/◌, ◌%◌, List, [], ◌∷◌, ◌++◌, length, reverse, all, Bool, true, false, ◌&&◌,
  ◌||◌, Option, none, some, leb, ltb, ◌==◌, if◌then◌else◌, ℤ, pos, ◌-ℤ◌,
}

abbrev pub Str : Type 0
Str = List ℕ

abbrev pub plus_sign : ℕ
plus_sign = 43

abbrev pub dash : ℕ
dash = 45

abbrev pub dot : ℕ
dot = 46

abbrev pub slash : ℕ
slash = 47

abbrev pub zero_digit : ℕ
zero_digit = 48

-- `s.includes(c)`.
unfoldable pub includes : ℕ → Str → Bool
includes c [] = false
includes c (x ∷ xs) = if c == x then true else includes c xs

abbrev pub put_first : ℕ → List Str → List Str
put_first x [] = (x ∷ []) ∷ []
put_first x (piece ∷ pieces) = (x ∷ piece) ∷ pieces

-- `s.split(c)`: never empty.
unfoldable pub split : ℕ → Str → List Str
split c [] = [] ∷ []
split c (x ∷ xs) = let pieces = split c xs in if x == c then [] ∷ pieces else put_first x pieces

-- `pieces.join(c)`.
unfoldable pub join : ℕ → List Str → Str
join c [] = []
join c (piece ∷ []) = piece
join c (piece ∷ (next ∷ pieces)) = piece ++ (c ∷ join c (next ∷ pieces))

-- `s.slice(0, s.indexOf(c))` and `s.slice(s.indexOf(c) + 1)`, for a `c` that `s` includes.
unfoldable pub before : ℕ → Str → Str
before c [] = []
before c (x ∷ xs) = let rest = before c xs in if x == c then [] else x ∷ rest

unfoldable pub after : ℕ → Str → Str
after c [] = []
after c (x ∷ xs) = let rest = after c xs in if x == c then xs else rest

-- White space and line terminators of ECMAScript.
unfoldable pub is_space : ℕ → Bool
is_space c =
    (leb 9 c && leb c 13)
    || (c == 32)
    || (c == 160)
    || (c == 5760)
    || (leb 8192 c && leb c 8202)
    || (c == 8232)
    || (c == 8233)
    || (c == 8239)
    || (c == 8287)
    || (c == 12288)
    || (c == 65279)

unfoldable pub trim_start : Str → Str
trim_start [] = []
trim_start (x ∷ xs) = let rest = trim_start xs in if is_space x then rest else x ∷ xs

unfoldable pub trim : Str → Str
trim s = reverse (trim_start (reverse (trim_start s)))

unfoldable pub is_digit : ℕ → Bool
is_digit c = leb 48 c && leb c 57

-- The longest run of digits at the front, as a number on top of `n`.
unfoldable pub digits_value : ℕ → Str → ℕ
digits_value n [] = n
digits_value n (x ∷ xs) =
    let rest = digits_value (n * 10 + (x - zero_digit)) xs in if is_digit x then rest else n

unfoldable pub digits_of : Str → Option ℕ
digits_of [] = none
digits_of (x ∷ xs) = if is_digit x then some (digits_value 0 (x ∷ xs)) else none

unfoldable pub signed_digits : Str → Option ℤ
signed_digits [] = none
signed_digits (x ∷ xs) =
    if x == dash
    then elim (digits_of xs) [ none ↦ none | some n ↦ some (pos 0 -ℤ pos n) ]
    else if x == plus_sign
    then elim (digits_of xs) [ none ↦ none | some n ↦ some (pos n) ]
    else elim (digits_of (x ∷ xs)) [ none ↦ none | some n ↦ some (pos n) ]

-- `Number.parseInt(s, 10)`; none is NaN.
unfoldable pub parse_int : Str → Option ℤ
parse_int s = signed_digits (trim_start s)

-- `/^\d{1,3}$/.test(s)`.
unfoldable pub is_short_number : Str → Bool
is_short_number s = leb 1 (length s) && leb (length s) 3 && all is_digit s

-- A number below 1000 in decimal, as `join` writes it.
unfoldable pub decimal : ℕ → Str
decimal n =
    if ltb n 10
    then (zero_digit + n) ∷ []
    else if ltb n 100
    then (zero_digit + n / 10) ∷ ((zero_digit + n % 10) ∷ [])
    else (zero_digit + n / 100) ∷ ((zero_digit + n / 10 % 10) ∷ ((zero_digit + n % 10) ∷ []))
