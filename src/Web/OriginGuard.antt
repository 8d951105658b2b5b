-- ===== src/Web/OriginGuard.antt =====
-- server/security/originGuard.ts: the Host and Origin of a request.
use proxmoxwhatsapp.Prelude.{
  List, [], ◌∷◌, ◌++◌, reverse, Bool, true, false, not, ◌&&◌, ◌||◌, any, Option, none, some, ◌==◌,
  if◌then◌else◌,
}
use proxmoxwhatsapp.Subnet.Text.{Str, trim}
use proxmoxwhatsapp.Web.Text.{codes, eq_str, starts_with, to_lower, to_upper}

-- What the platform does: the hostname of `new URL("http://" + host)`, none where it throws, and
-- whether `isIP` of node:net is not 0.
pub record Platform : Type 0 where
  pub url_hostname : Str → Option Str
  pub is_ip : Str → Bool

pub data Reason : Type 0 where
  host_not_allowed cross_origin invalid_token : Reason

abbrev pub is_api : Str → Bool
is_api pathname = eq_str pathname (codes "/api") || starts_with (codes "/api/") pathname

unfoldable pub requires_origin_check : Option Str → Str → Bool
requires_origin_check method pathname = if is_api pathname then true else elim method [
  | none ↦ true
  | some name ↦ not (eq_str (to_upper name) (codes "GET") || eq_str (to_upper name) (codes "HEAD"))
]

-- `slice(1, -1)` of what starts with `[` and ends with `]`.
unfoldable pub strip_brackets : Str → Str
strip_brackets [] = []
strip_brackets (x ∷ xs) = elim (reverse xs) [
  | [] ↦ x ∷ xs
  | y ∷ ys ↦ if x == 91 && y == 93 then reverse ys else x ∷ xs
]

unfoldable pub hostname_of : Platform → Str → Option Str
hostname_of p host = elim (p.url_hostname host) [
  | none ↦ none
  | some hostname ↦ some (strip_brackets (to_lower hostname))
]

abbrev not_empty : Str → Bool
not_empty [] = false
not_empty (x ∷ xs) = true

abbrev keep_texts : List Str → List Str
keep_texts [] = []
keep_texts (h ∷ hs) = let rest = keep_texts hs in if not_empty h then h ∷ rest else rest

abbrev trimmed_hosts : List Str → List Str
trimmed_hosts [] = []
trimmed_hosts (h ∷ hs) = to_lower (trim h) ∷ trimmed_hosts hs

-- The set of names that `setAllowedHosts` leaves in `configuredAllowedHosts`.
unfoldable pub set_allowed_hosts : List Str → List Str
set_allowed_hosts hosts = keep_texts (trimmed_hosts hosts)

unfoldable pub is_hostname_allowed : Platform → List Str → Str → Bool
is_hostname_allowed p configured [] = false
is_hostname_allowed p configured (x ∷ xs) =
    eq_str (x ∷ xs) (codes "localhost")
    || p.is_ip (x ∷ xs)
    || any (λ h. eq_str h (x ∷ xs)) configured

unfoldable pub is_host_allowed : Platform → List Str → Option Str → Bool
is_host_allowed p configured none = false
is_host_allowed p configured (some []) = false
is_host_allowed p configured (some (x ∷ xs)) = elim (hostname_of p (x ∷ xs)) [
  | none ↦ false
  | some hostname ↦ is_hostname_allowed p configured hostname
]

-- The Host, where it is there, as a string.
abbrev pub text_of : Option Str → Str
text_of none = codes "undefined"
text_of (some s) = s

unfoldable pub is_same_origin : Str → Str → Bool
is_same_origin origin host =
    eq_str (to_lower origin) (to_lower (codes "http://" ++ host))
    || eq_str (to_lower origin) (to_lower (codes "https://" ++ host))

unfoldable pub origin_matches : Option Str → Str → Bool
origin_matches none host = true
origin_matches (some []) host = true
origin_matches (some (x ∷ xs)) host = is_same_origin (x ∷ xs) host

-- None is `allowed: true`.
unfoldable pub is_request_allowed : Platform → List Str → Option Str → Option Str → Option Reason
unfolding is_host_allowed origin_matches
is_request_allowed p configured origin host =
    if is_host_allowed p configured host
    then if origin_matches origin (text_of host) then none else some cross_origin
    else some host_not_allowed
