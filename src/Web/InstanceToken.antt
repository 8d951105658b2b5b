-- ===== src/Web/InstanceToken.antt =====
-- server/security/instanceToken.ts: the token of this run of the server, and its cookie.
use proxmoxwhatsapp.Prelude.{
  List, [], ◌∷◌, ◌++◌, length, Bool, true, false, not, ◌&&◌, ◌||◌, Option, none, some, ltb, ◌==◌,
  if◌then◌else◌,
}
use proxmoxwhatsapp.Subnet.Text.{Str, slash, dot}
use proxmoxwhatsapp.Web.Text.{codes, eq_str, to_upper, from_last}
use proxmoxwhatsapp.Web.Cookie.{cookie_pairs, first_value}
use proxmoxwhatsapp.Web.OriginGuard.{is_api}

abbrev pub cookie_name : Str
cookie_name = codes "ws_scrcpy_token"

-- `attrs.join('; ')`.
unfoldable pub join_attrs : List Str → Str
join_attrs [] = []
join_attrs (attr ∷ []) = attr
join_attrs (attr ∷ (next ∷ attrs)) = attr ++ (codes "; " ++ join_attrs (next ∷ attrs))

unfoldable pub build_token_cookie : Str → Bool → Str
build_token_cookie token secure = join_attrs (
    (cookie_name ++ (codes "=" ++ token))
    ∷ (codes "Path=/"
        ∷ (codes "SameSite=Strict"
            ∷ (codes "HttpOnly" ∷ (if secure then codes "Secure" ∷ [] else [])))))

unfoldable pub parse_token_from_cookie : Option Str → Option Str
unfolding cookie_pairs first_value
parse_token_from_cookie header = first_value cookie_name (cookie_pairs header)

-- The comparison of the UTF-8 bytes, as one of the strings: a header is Latin-1, on which the
-- encoding is injective.
unfoldable pub is_valid_token : Str → Option Str → Bool
is_valid_token expected none = false
is_valid_token expected (some []) = false
is_valid_token expected (some (x ∷ xs)) =
    if length (x ∷ xs) == length expected then eq_str (x ∷ xs) expected else false

-- `(method ?? 'GET').toUpperCase()` is GET or HEAD.
unfoldable pub is_get_or_head : Option Str → Bool
is_get_or_head none = true
is_get_or_head (some name) =
    eq_str (to_upper name) (codes "GET") || eq_str (to_upper name) (codes "HEAD")

unfoldable pub requires_token : Option Str → Str → Bool
requires_token method pathname =
    if is_api pathname
    then not (is_get_or_head method && eq_str pathname (codes "/api/config"))
    else false

-- What stands from the last dot on, if that is behind the last slash.
unfoldable pub path_extension : Str → Str
path_extension pathname = elim (from_last dot pathname) [
  | none ↦ []
  | some extension ↦ elim (from_last slash pathname) [
    | none ↦ extension
    | some segment ↦ if ltb (length extension) (length segment) then extension else []
  ]
]

abbrev is_page : Str → Bool
is_page [] = true
is_page (x ∷ xs) = eq_str (x ∷ xs) (codes ".html")

unfoldable pub should_set_token_cookie : Option Str → Str → Bool
should_set_token_cookie method pathname =
    is_get_or_head method && (not (is_api pathname) && is_page (path_extension pathname))
