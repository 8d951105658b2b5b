-- ===== src/Web/Text.antt =====
-- The methods of JavaScript strings that the guards use, on lists of code units.
use Prim.Native.String.{String}
use Prim.Native.Char.{code}
use proxmoxwhatsapp.Prelude.{
  ℕ, ◌+◌, ◌-◌, [], ◌∷◌, Bool, true, false, ◌&&◌, ◌||◌, not, Option, none, some, ◌==◌, leb,
  if◌then◌else◌, ◌≡◌, refl, ap₂, arith, ==→eq, ==-refl, Bool-cases, inl, inr,
}
use proxmoxwhatsapp.Subnet.Text.{Str}

-- A string literal of the source.
abbrev pub codes : String → Str
codes String.[] = []
codes (String.◌∷◌ c s) = code c ∷ codes s

-- `===`.
unfoldable pub eq_str : Str → Str → Bool
eq_str [] [] = true
eq_str [] (y ∷ ys) = false
eq_str (x ∷ xs) [] = false
eq_str (x ∷ xs) (y ∷ ys) = x == y && eq_str xs ys

pub eq_str_refl : (s : Str) → eq_str s s ≡ true
unfolding eq_str
eq_str_refl [] = refl
eq_str_refl (x ∷ xs) = rw (==-refl x, eq_str_refl xs) refl

pub eq_str→eq : (s t : Str) → eq_str s t ≡ true → s ≡ t
unfolding eq_str
eq_str→eq [] [] h = refl
eq_str→eq [] (y ∷ ys) h = cc
eq_str→eq (x ∷ xs) [] h = cc
eq_str→eq (x ∷ xs) (y ∷ ys) h = elim (Bool-cases (x == y)) [
  | inl e ↦ ap₂ ◌∷◌ (==→eq x y e) (eq_str→eq xs ys (ground arith))
  | inr e ↦ ground arith
]

-- `s.startsWith(p)`.
unfoldable pub starts_with : Str → Str → Bool
starts_with [] s = true
starts_with (p ∷ ps) [] = false
starts_with (p ∷ ps) (x ∷ xs) = p == x && starts_with ps xs

-- `toLowerCase` of a header, whose characters Node reads as Latin-1.
abbrev pub lower : ℕ → ℕ
lower x = if (leb 65 x && leb x 90) || (leb 192 x && leb x 222 && not (x == 215)) then x + 32 else x

unfoldable pub to_lower : Str → Str
to_lower [] = []
to_lower (x ∷ xs) = lower x ∷ to_lower xs

-- `toUpperCase`, where the result is compared with GET and HEAD, whose letters no other character
-- becomes.
abbrev pub upper : ℕ → ℕ
upper x = if leb 97 x && leb x 122 then x - 32 else x

unfoldable pub to_upper : Str → Str
to_upper [] = []
to_upper (x ∷ xs) = upper x ∷ to_upper xs

-- `s.slice(s.lastIndexOf(c))` for a `c` that is there.
unfoldable pub from_last : ℕ → Str → Option Str
from_last c [] = none
from_last c (x ∷ xs) = elim (from_last c xs) [
  | some rest ↦ some rest
  | none ↦ if x == c then some (x ∷ xs) else none
]
