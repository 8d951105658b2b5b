-- ===== src/Web/Safety.antt =====
-- Which requests the gate lets through to the API, against a description of a trusted one.
use proxmoxwhatsapp.Prelude.{
  [], Bool, true, false, ◌&&◌, Option, none, ◌≡◌, ◌≢◌, ◌↔◌, ◌⊎◌, inl, inr, refl, arith, Bool-cases,
  Option-cases,
}
use proxmoxwhatsapp.Subnet.Text.{Str}
use proxmoxwhatsapp.Web.OriginGuard.{
  Reason, host_not_allowed, invalid_token, is_api, is_host_allowed, is_request_allowed,
  requires_origin_check,
}
use proxmoxwhatsapp.Web.InstanceToken.{
  is_valid_token, parse_token_from_cookie, requires_token, should_set_token_cookie, is_get_or_head,
}
use proxmoxwhatsapp.Web.RequestGate.{
  allowed, Instance, Request, check_token, evaluate_http_request, denied, evaluate_ws_connection,
}
use proxmoxwhatsapp.Web.Trusted.{
  IsTrusted, request_allowed-parts, passed-IsTrusted, IsTrusted-request_allowed,
  IsTrusted-valid_token,
}

-- With a token that is not empty, a WebSocket handshake is let through exactly if its Host is
-- localhost, an IP address or a configured name, its Origin is absent or the host's own, and its
-- cookie holds the token.
pub evaluate_ws_connection-IsTrusted :
    (i : Instance) (origin host cookie : Option Str)
    → i.token ≢ []
    → (evaluate_ws_connection i origin host cookie ≡ none) ↔ IsTrusted i origin host cookie
unfolding evaluate_ws_connection
evaluate_ws_connection-IsTrusted i origin host cookie n = (
  λ h. passed-IsTrusted i origin host cookie (ground arith) (ground arith),
  λ t.
      rw
        (
          IsTrusted-request_allowed i origin host cookie t,
          IsTrusted-valid_token i origin host cookie n t,
          evaluate_ws_connection,
        )
        refl,
)

api-checks :
    (r : Request)
    → requires_token r.method r.pathname ≡ true
    → (requires_origin_check r.method r.pathname ≡ true)
      × (should_set_token_cookie r.method r.pathname ≡ false)
unfolding requires_token requires_origin_check should_set_token_cookie
api-checks r t = elim (Bool-cases (is_api r.pathname)) [
  | inl a ↦ rw a (refl, and_false (is_get_or_head r.method))
  | inr a ↦ ground arith
]
  where
    and_false : (b : Bool) → (b && false) ≡ false
    and_false true = refl
    and_false false = refl

-- A call of the API is let through without a new cookie, or denied with status 403.
pub evaluate_http_request-cases :
    (i : Instance) (r : Request) (secure : Bool)
    → requires_token r.method r.pathname ≡ true
    → (evaluate_http_request i r secure ≡ allowed none)
      ⊎ ((reason : Reason) × (evaluate_http_request i r secure ≡ denied 403 reason))
unfolding evaluate_http_request check_token
evaluate_http_request-cases i r secure t =
    let (checked, plain) = api-checks r t in
    elim (Bool-cases (is_host_allowed i.platform i.allowed_hosts r.host)) [
      | inr e ↦ inr (host_not_allowed, rw (e, evaluate_http_request) refl)
      | inl e ↦
          elim (Option-cases (is_request_allowed i.platform i.allowed_hosts r.origin r.host)) [
            | inr (reason, q) ↦ inr (reason, rw (e, checked, q, evaluate_http_request) refl)
            | inl q ↦
                elim (Bool-cases (is_valid_token i.token (parse_token_from_cookie r.cookie))) [
                  | inl k ↦
                      inl (
                        rw (e, checked, q, t, k, evaluate_http_request, check_token)
                          (rw plain refl))
                  | inr k ↦ inr (
                    invalid_token,
                    rw (e, checked, q, t, k, evaluate_http_request, check_token) refl,
                  )
                ]
          ]
    ]

http_allowed-parts :
    (i : Instance) (r : Request) (secure : Bool)
    → requires_token r.method r.pathname ≡ true
    → evaluate_http_request i r secure ≡ allowed none
    → (is_request_allowed i.platform i.allowed_hosts r.origin r.host ≡ none)
      × (is_valid_token i.token (parse_token_from_cookie r.cookie) ≡ true)
unfolding evaluate_http_request check_token
http_allowed-parts i r secure t h = (ground (arith, api-checks r t), ground (arith, api-checks r t))

-- With a token that is not empty, a request that needs the token is let through exactly if its Host
-- is localhost, an IP address or a configured name, its Origin is absent or the host's own, and its
-- cookie holds the token.
pub evaluate_http_request-IsTrusted :
    (i : Instance) (r : Request) (secure : Bool)
    → i.token ≢ []
    → requires_token r.method r.pathname ≡ true
    → (evaluate_http_request i r secure ≡ allowed none) ↔ IsTrusted i r.origin r.host r.cookie
unfolding evaluate_http_request check_token
evaluate_http_request-IsTrusted i r secure n t = (
  λ h.
      let (a, b) = http_allowed-parts i r secure t h in
      passed-IsTrusted i r.origin r.host r.cookie a b,
  λ k.
      let a = IsTrusted-request_allowed i r.origin r.host r.cookie k in
      rw
        (
          (request_allowed-parts i r.origin r.host a).0,
          (api-checks r t).0,
          a,
          t,
          IsTrusted-valid_token i r.origin r.host r.cookie n k,
          evaluate_http_request,
          check_token,
        )
        (rw (api-checks r t).1 refl),
)
