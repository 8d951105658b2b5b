-- ===== src/Web/Trusted.antt =====
-- A trusted request, and what the checks of its parts come to.
use proxmoxwhatsapp.Prelude.{
  List, [], ◌∷◌, ◌++◌, length, Bool, true, false, ◌||◌, any, Option, none, some, ==-refl, ◌≡◌, ◌≢◌,
  inl, inr, refl, sym, ap, ◌∙◌, arith, Bool-cases, Option-cases,
}
use proxmoxwhatsapp.Subnet.Text.{Str}
use proxmoxwhatsapp.Web.Text.{codes, eq_str, eq_str_refl, eq_str→eq, to_lower}
use proxmoxwhatsapp.Web.OriginGuard.{
  Platform, hostname_of, is_hostname_allowed, is_host_allowed, origin_matches, is_same_origin,
  is_request_allowed, text_of,
}
use proxmoxwhatsapp.Web.InstanceToken.{is_valid_token, parse_token_from_cookie}
use proxmoxwhatsapp.Web.RequestGate.{Instance}

-- No name that an attacker could point elsewhere.
pub data IsKnownName (p : Platform) (configured : List Str) (name : Str) : Type 0 where
  local : name ≡ codes "localhost" → IsKnownName p configured name
  address : name ≢ [] → p.is_ip name ≡ true → IsKnownName p configured name
  listed : name ≢ [] → any (λ h. eq_str h name) configured ≡ true → IsKnownName p configured name

-- The Origin is not sent, or is the host's own.
pub data IsSameOrigin (host : Str) : Option Str → Type 0 where
  absent : IsSameOrigin host none
  blank : IsSameOrigin host (some [])
  http :
      (origin : Str)
      → to_lower origin ≡ to_lower (codes "http://" ++ host)
      → IsSameOrigin host (some origin)
  https :
      (origin : Str)
      → to_lower origin ≡ to_lower (codes "https://" ++ host)
      → IsSameOrigin host (some origin)

pub record IsTrusted (i : Instance) (origin host cookie : Option Str) : Type 0 where
  pub sent : Str
  pub name : Str
  pub has_host : host ≡ some sent
  pub not_blank : sent ≢ []
  pub has_name : hostname_of i.platform sent ≡ some name
  pub known : IsKnownName i.platform i.allowed_hosts name
  pub same_origin : IsSameOrigin sent origin
  pub has_token : parse_token_from_cookie cookie ≡ some i.token

is_valid_token→eq : (t : Str) (c : Option Str) → is_valid_token t c ≡ true → c ≡ some t
unfolding is_valid_token
is_valid_token→eq t none h = cc
is_valid_token→eq t (some []) h = cc
is_valid_token→eq t (some (x ∷ xs)) h = ap some (eq_str→eq (x ∷ xs) t (ground arith))

eq→is_valid_token : (t : Str) → t ≢ [] → is_valid_token t (some t) ≡ true
unfolding is_valid_token
eq→is_valid_token [] h = absurd (h refl)
eq→is_valid_token (x ∷ xs) h = rw (==-refl (length (x ∷ xs)), eq_str_refl (x ∷ xs)) refl

name-IsKnown :
    (p : Platform) (configured : List Str) (name : Str)
    → is_hostname_allowed p configured name ≡ true
    → IsKnownName p configured name
unfolding is_hostname_allowed
name-IsKnown p configured [] h = absurd cc
name-IsKnown p configured (x ∷ xs) h = elim (Bool-cases (eq_str (x ∷ xs) (codes "localhost"))) [
  | inl e ↦ local (eq_str→eq (x ∷ xs) (codes "localhost") e)
  | inr e ↦ elim (Bool-cases (p.is_ip (x ∷ xs))) [
    | inl f ↦ address (λ q. cc) f
    | inr f ↦ listed (λ q. cc) (ground arith)
  ]
]

known-is_hostname_allowed :
    (p : Platform) (configured : List Str) (name : Str)
    → IsKnownName p configured name
    → is_hostname_allowed p configured name ≡ true
unfolding is_hostname_allowed
known-is_hostname_allowed p configured [] (local e) = absurd cc
known-is_hostname_allowed p configured [] (address e f) = absurd (e refl)
known-is_hostname_allowed p configured [] (listed e f) = absurd (e refl)
known-is_hostname_allowed p configured (x ∷ xs) (local e) =
    rw (e, eq_str_refl (codes "localhost")) refl
known-is_hostname_allowed p configured (x ∷ xs) (address e f) = ground arith
known-is_hostname_allowed p configured (x ∷ xs) (listed e f) = ground arith

origin-IsSame :
    (origin : Option Str) (host : Str)
    → origin_matches origin host ≡ true
    → IsSameOrigin host origin
unfolding origin_matches is_same_origin
origin-IsSame none host h = absent
origin-IsSame (some []) host h = blank
origin-IsSame (some (x ∷ xs)) host h =
    elim (Bool-cases (eq_str (to_lower (x ∷ xs)) (to_lower (codes "http://" ++ host)))) [
      | inl e ↦ http _ (eq_str→eq _ _ e)
      | inr e ↦ https _ (eq_str→eq _ _ (ground arith))
    ]

or_true : (b : Bool) → (b || true) ≡ true
or_true true = refl
or_true false = refl

same-origin_matches :
    (origin : Option Str) (host : Str)
    → IsSameOrigin host origin
    → origin_matches origin host ≡ true
unfolding origin_matches is_same_origin
same-origin_matches none host s = refl
same-origin_matches (some []) host s = refl
same-origin_matches (some (x ∷ xs)) host (http _ e) =
    rw (e, eq_str_refl (to_lower (codes "http://" ++ host))) refl
same-origin_matches (some (x ∷ xs)) host (https _ e) =
    rw (e, eq_str_refl (to_lower (codes "https://" ++ host))) (or_true _)

-- The host's part of a check that lets a request through.
pub host-IsKnown :
    (i : Instance) (host : Option Str)
    → is_host_allowed i.platform i.allowed_hosts host ≡ true
    → (sent : Str) × (name : Str) × (host ≡ some sent)
      × (sent ≢ [])
      × (hostname_of i.platform sent ≡ some name)
      × IsKnownName i.platform i.allowed_hosts name
unfolding is_host_allowed
host-IsKnown i none h = absurd cc
host-IsKnown i (some []) h = absurd cc
host-IsKnown i (some (x ∷ xs)) h = elim (Option-cases (hostname_of i.platform (x ∷ xs))) [
  | inl e ↦ absurd (ground arith)
  | inr (name, e) ↦ (
    x ∷ xs,
    name,
    refl,
    (λ q. cc),
    e,
    name-IsKnown i.platform i.allowed_hosts name (ground arith),
  )
]

known-is_host_allowed :
    (i : Instance) (sent name : Str)
    → sent ≢ []
    → hostname_of i.platform sent ≡ some name
    → IsKnownName i.platform i.allowed_hosts name
    → is_host_allowed i.platform i.allowed_hosts (some sent) ≡ true
unfolding is_host_allowed
known-is_host_allowed i [] name n e k = absurd (n refl)
known-is_host_allowed i (x ∷ xs) name n e k =
    rw (e, is_host_allowed) (known-is_hostname_allowed i.platform i.allowed_hosts name k)

pub request_allowed-parts :
    (i : Instance) (origin host : Option Str)
    → is_request_allowed i.platform i.allowed_hosts origin host ≡ none
    → (is_host_allowed i.platform i.allowed_hosts host ≡ true)
      × (origin_matches origin (text_of host) ≡ true)
unfolding is_request_allowed
request_allowed-parts i origin host h = (ground arith, ground arith)

-- Both layers together let a request through exactly if it is trusted.
pub passed-IsTrusted :
    (i : Instance) (origin host cookie : Option Str)
    → is_request_allowed i.platform i.allowed_hosts origin host ≡ none
    → is_valid_token i.token (parse_token_from_cookie cookie) ≡ true
    → IsTrusted i origin host cookie
passed-IsTrusted i origin host cookie h t =
    let parts = request_allowed-parts i origin host h in
    let (sent, name, e, n, f, k) = host-IsKnown i host parts.0 in
    record {
      sent = sent;
      name = name;
      has_host = e;
      not_blank = n;
      has_name = f;
      known = k;
      same_origin =
          origin-IsSame origin sent (sym (ap (λ x. origin_matches origin (text_of x)) e) ∙ parts.1);
      has_token = is_valid_token→eq i.token _ t;
    }

pub IsTrusted-request_allowed :
    (i : Instance) (origin host cookie : Option Str)
    → IsTrusted i origin host cookie
    → is_request_allowed i.platform i.allowed_hosts origin host ≡ none
unfolding is_request_allowed
IsTrusted-request_allowed i origin host cookie t =
    rw
      (
        t.has_host,
        known-is_host_allowed i t.sent t.name t.not_blank t.has_name t.known,
        same-origin_matches origin t.sent t.same_origin,
      )
      refl

pub IsTrusted-valid_token :
    (i : Instance) (origin host cookie : Option Str)
    → i.token ≢ []
    → IsTrusted i origin host cookie
    → is_valid_token i.token (parse_token_from_cookie cookie) ≡ true
IsTrusted-valid_token i origin host cookie n t = rw t.has_token (eq→is_valid_token i.token n)
