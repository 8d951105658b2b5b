-- ===== src/Web/Cookie.antt =====
-- The Cookie header: `parseCookie` of server/auth/authState.ts, and `parseTokenFromCookie` of
-- server/security/instanceToken.ts.
use proxmoxwhatsapp.Prelude.{List, [], ◌∷◌, Option, none, some, if◌then◌else◌, ℕ}
use proxmoxwhatsapp.Subnet.Text.{Str, split, before, after, includes, trim}
use proxmoxwhatsapp.Web.Text.{eq_str}

abbrev pub semicolon : ℕ
semicolon = 59

abbrev pub equals : ℕ
equals = 61

-- The parts with a `=`, cut at the first one, in order.
unfoldable pub pairs : List Str → List (Str × Str)
pairs [] = []
pairs (part ∷ parts) =
    let rest = pairs parts in
    if includes equals part
    then (trim (before equals part), trim (after equals part)) ∷ rest
    else rest

unfoldable pub cookie_pairs : Option Str → List (Str × Str)
unfolding pairs
cookie_pairs none = []
cookie_pairs (some header) = pairs (split semicolon header)

-- `parseCookie(header)[name]`: a later pair overwrites an earlier one.
unfoldable pub last_value : Str → List (Str × Str) → Option Str
last_value name [] = none
last_value name ((key, value) ∷ rest) = elim (last_value name rest) [
  | some later ↦ some later
  | none ↦ if eq_str key name then some value else none
]

unfoldable pub parse_cookie : Option Str → Str → Option Str
unfolding cookie_pairs last_value
parse_cookie header name = last_value name (cookie_pairs header)

-- The first pair counts here.
unfoldable pub first_value : Str → List (Str × Str) → Option Str
first_value name [] = none
first_value name ((key, value) ∷ rest) =
    let later = first_value name rest in if eq_str key name then some value else later
