-- ===== src/Web/Bootstrap.antt =====
-- How a browser comes in: the document brings the token's cookie, and the page's calls send it back.
use proxmoxwhatsapp.Prelude.{
  ℕ, List, [], ◌∷◌, ◌++◌, all, reverse, Bool, true, false, ◌&&◌, ◌||◌, leb, none, some, ◌==◌, ◌≡◌,
  ◌≢◌, inl, inr, refl, sym, ap, ◌∙◌, arith, Bool-cases, All, ==→eq,
}
use mathlib.Core.Path.{subst}
use mathlib.Core.List.{reverse-reverse, reverse-cons}
use proxmoxwhatsapp.Subnet.Text.{Str, split, trim, trim_start, is_space, before, after, includes}
use proxmoxwhatsapp.Subnet.Splitting.{Lacks, split-piece, split-last}
use proxmoxwhatsapp.Web.Text.{codes, eq_str}
use proxmoxwhatsapp.Web.Cookie.{semicolon, equals, pairs, cookie_pairs, first_value}
use proxmoxwhatsapp.Web.OriginGuard.{is_host_allowed, text_of}
use proxmoxwhatsapp.Web.InstanceToken.{
  cookie_name, join_attrs, build_token_cookie, parse_token_from_cookie, requires_token,
}
use proxmoxwhatsapp.Web.RequestGate.{allowed, Instance, Request, check_token, evaluate_http_request}
use proxmoxwhatsapp.Web.Trusted.{IsSameOrigin, host-IsKnown}
use proxmoxwhatsapp.Web.Safety.{evaluate_http_request-IsTrusted}

abbrev is_hex : ℕ → Bool
is_hex c = (leb 48 c && leb c 57) || (leb 97 c && leb c 102)

-- `randomBytes(32).toString('hex')` is such a text.
abbrev pub IsHex : Str → Type 0
IsHex s = all is_hex s ≡ true

hex-not_space : (c : ℕ) → is_hex c ≡ true → is_space c ≡ false
unfolding is_space
hex-not_space c h = ground arith

true-false : false ≡ true → ⊥
true-false h = cc

hex-Lacks : (c : ℕ) (s : Str) → is_hex c ≡ false → IsHex s → Lacks c s
hex-Lacks c [] k h = refl
hex-Lacks c (x ∷ xs) k h = elim (Bool-cases (x == c)) [
  | inl e ↦ absurd (hex_clash (==→eq x c e) (ground arith))
  | inr e ↦ rw e (hex-Lacks c xs k (ground arith))
]
  where
    hex_clash : x ≡ c → is_hex x ≡ true → ⊥
    hex_clash q p = true-false (sym (ap is_hex q ∙ k) ∙ p)

trim_start-hex : (s : Str) → IsHex s → trim_start s ≡ s
unfolding trim_start
trim_start-hex [] h = refl
trim_start-hex (x ∷ xs) h = rw (hex-not_space x (ground arith)) refl

all-append : (xs ys : Str) → all is_hex xs ≡ true → all is_hex ys ≡ true → IsHex (xs ++ ys)
all-append [] ys h k = k
all-append (x ∷ xs) ys h k = ground (arith, all-append xs ys)

reverse-IsHex : (s : Str) → IsHex s → IsHex (reverse s)
reverse-IsHex [] h = refl
reverse-IsHex (x ∷ xs) h =
    rw (reverse-cons x xs)
      (all-append (reverse xs) (x ∷ []) (reverse-IsHex xs (ground arith)) (ground arith))

trim-hex : (s : Str) → IsHex s → trim s ≡ s
unfolding trim
trim-hex s h =
    rw (trim_start-hex s h, trim_start-hex (reverse s) (reverse-IsHex s h)) (reverse-reverse s)

-- The parts of a header after the first one begin with a space.
abbrev spaced : Bool → Str → Str
spaced true s = 32 ∷ s
spaced false s = s

-- A cookie of another name.
abbrev pub IsOther : Str → Type 0
IsOther piece = Lacks semicolon piece × (eq_str (trim (before equals piece)) cookie_name ≡ false)

abbrev token_piece : Str → Str
token_piece token = cookie_name ++ (codes "=" ++ token)

first_value-other :
    (b : Bool) (piece : Str) (parts : List Str)
    → IsOther piece
    → first_value cookie_name (pairs (spaced b piece ∷ parts))
      ≡ first_value cookie_name (pairs parts)
unfolding first_value pairs includes trim trim_start before is_space
first_value-other true piece parts h = elim (Bool-cases (includes equals piece)) [
  | inl e ↦ rw e (rw h.1 refl)
  | inr e ↦ rw e refl
]
first_value-other false piece parts h = elim (Bool-cases (includes equals piece)) [
  | inl e ↦ rw e (rw h.1 refl)
  | inr e ↦ rw e refl
]

first_value-token :
    (b : Bool) (token : Str) (parts : List Str)
    → IsHex token
    → first_value cookie_name (pairs (spaced b (token_piece token) ∷ parts)) ≡ some token
unfolding first_value pairs includes before after trim trim_start is_space eq_str
first_value-token true token parts h = ap some (trim-hex token h)
first_value-token false token parts h = ap some (trim-hex token h)

token_piece-Lacks : (token : Str) → IsHex token → Lacks semicolon (token_piece token)
token_piece-Lacks token h = hex-Lacks semicolon token refl h

spaced-Lacks : (b : Bool) (s : Str) → Lacks semicolon s → Lacks semicolon (spaced b s)
spaced-Lacks true s h = h
spaced-Lacks false s h = h

-- What a header of several cookies is cut into.
split-more :
    (b : Bool) (piece next : Str) (more : List Str)
    → Lacks semicolon piece
    → split semicolon (spaced b (join_attrs (piece ∷ (next ∷ more))))
      ≡ spaced b piece ∷ split semicolon (spaced true (join_attrs (next ∷ more)))
unfolding join_attrs
split-more true piece next more h =
    split-piece semicolon (32 ∷ piece) (32 ∷ join_attrs (next ∷ more)) h
split-more false piece next more h = split-piece semicolon piece (32 ∷ join_attrs (next ∷ more)) h

split-single :
    (b : Bool) (piece : Str)
    → Lacks semicolon piece
    → split semicolon (spaced b (join_attrs (piece ∷ []))) ≡ spaced b piece ∷ []
unfolding join_attrs
split-single b piece h = split-last semicolon (spaced b piece) (spaced-Lacks b piece h)

first_value-here :
    (b : Bool) (token : Str) (back : List Str)
    → IsHex token
    → first_value cookie_name
        (pairs (split semicolon (spaced b (join_attrs (token_piece token ∷ back)))))
      ≡ some token
first_value-here b token [] h =
    rw (split-single b (token_piece token) (token_piece-Lacks token h))
      (first_value-token b token [] h)
first_value-here b token (next ∷ more) h =
    rw (split-more b (token_piece token) next more (token_piece-Lacks token h))
      (first_value-token b token _ h)

first_value-behind :
    (b : Bool) (token : Str) (front back : List Str)
    → IsHex token
    → All IsOther front
    → first_value cookie_name
        (pairs (split semicolon (spaced b (join_attrs (front ++ (token_piece token ∷ back))))))
      ≡ some token
first_value-behind b token [] back h k = first_value-here b token back h
first_value-behind b token (piece ∷ []) back h k =
    rw (split-more b piece (token_piece token) back k.0.0)
      (first_value-other b piece _ k.0 ∙ first_value-here true token back h)
first_value-behind b token (piece ∷ (next ∷ front)) back h k =
    rw (split-more b piece next (front ++ (token_piece token ∷ back)) k.0.0)
      (first_value-other b piece _ k.0 ∙ first_value-behind true token (next ∷ front) back h k.1)

-- What a browser keeps of a Set-Cookie header: the pair before the attributes.
unfoldable pub stored_cookie : Str → Str
stored_cookie header = before semicolon header

-- What it sends with its other cookies.
unfoldable pub cookie_header : List Str → Str
cookie_header cookies = join_attrs cookies

before-append : (xs ys : Str) → Lacks semicolon xs → before semicolon (xs ++ (semicolon ∷ ys)) ≡ xs
unfolding before
before-append [] ys h = refl
before-append (x ∷ xs) ys h = elim (Bool-cases (x == semicolon)) [
  | inl e ↦ ground arith
  | inr e ↦ rw (e, before-append xs ys (ground arith)) refl
]

stored_cookie-build :
    (token : Str) (secure : Bool)
    → IsHex token
    → stored_cookie (build_token_cookie token secure) ≡ token_piece token
unfolding stored_cookie build_token_cookie join_attrs
stored_cookie-build token secure h = before-append (token_piece token) _ (token_piece-Lacks token h)

parse-stored :
    (token : Str) (secure : Bool) (front back : List Str)
    → IsHex token
    → All IsOther front
    → parse_token_from_cookie
        (some (cookie_header (front ++ (stored_cookie (build_token_cookie token secure) ∷ back))))
      ≡ some token
unfolding parse_token_from_cookie cookie_pairs cookie_header
parse-stored token secure front back h k =
    rw (stored_cookie-build token secure h) (first_value-behind false token front back h k)

page-parts :
    (i : Instance) (r : Request) (secure : Bool) (cookie : Str)
    → evaluate_http_request i r secure ≡ allowed (some cookie)
    → (is_host_allowed i.platform i.allowed_hosts r.host ≡ true)
      × (cookie ≡ build_token_cookie i.token secure)
unfolding evaluate_http_request check_token
page-parts i r secure cookie h = (ground arith, ground arith)

-- When a hexadecimal token that is not empty is handed out with a page, a call that needs the
-- token, to the same host and from its origin, whose Cookie header has the cookie behind others of
-- other names, is let through.
pub evaluate_http_request-bootstrap :
    (i : Instance) (page call : Request) (secure : Bool) (cookie : Str) (front back : List Str)
    → IsHex i.token
    → i.token ≢ []
    → evaluate_http_request i page secure ≡ allowed (some cookie)
    → All IsOther front
    → requires_token call.method call.pathname ≡ true
    → call.host ≡ page.host
    → IsSameOrigin (text_of page.host) call.origin
    → call.cookie ≡ some (cookie_header (front ++ (stored_cookie cookie ∷ back)))
    → evaluate_http_request i call secure ≡ allowed none
evaluate_http_request-bootstrap i page call secure cookie front back hex some_token served others
      guarded same_host same_origin sent =
    let parts = page-parts i page secure cookie served in
    let (host, name, e, n, f, k) = host-IsKnown i page.host parts.0 in
    (evaluate_http_request-IsTrusted i call secure some_token guarded).1 (record {
      sent = host;
      name = name;
      has_host = same_host ∙ e;
      not_blank = n;
      has_name = f;
      known = k;
      same_origin = subst (λ h. IsSameOrigin (text_of h) call.origin) e same_origin;
      has_token =
          ap parse_token_from_cookie sent
          ∙ ap
              (λ c.
                parse_token_from_cookie (some (cookie_header (front ++ (stored_cookie c ∷ back)))))
              parts.1
          ∙ parse-stored i.token secure front back hex others;
    })
