-- ===== src/Web/RequestGate.antt =====
-- server/security/requestGate.ts: the composed decision on an HTTP request and on a WebSocket
-- handshake.
use proxmoxwhatsapp.Prelude.{List, Bool, not, ◌&&◌, Option, none, some, ℕ, if◌then◌else◌}
use proxmoxwhatsapp.Subnet.Text.{Str}
use proxmoxwhatsapp.Web.OriginGuard.{
  Platform, Reason, host_not_allowed, invalid_token, is_host_allowed, is_request_allowed,
  requires_origin_check,
}
use proxmoxwhatsapp.Web.InstanceToken.{
  is_valid_token, parse_token_from_cookie, requires_token, should_set_token_cookie,
  build_token_cookie,
}

pub data HttpGateDecision : Type 0 where
  allowed : Option Str → HttpGateDecision
  denied : ℕ → Reason → HttpGateDecision

-- The process: what the platform does, the configured hosts, and the token.
pub record Instance : Type 0 where
  pub platform : Platform
  pub allowed_hosts : List Str
  pub token : Str

pub record Request : Type 0 where
  pub method : Option Str
  pub pathname : Str
  pub origin : Option Str
  pub host : Option Str
  pub cookie : Option Str

-- The token, and the cookie of a document.
unfoldable pub check_token : Instance → Request → Bool → HttpGateDecision
check_token i r secure =
    if requires_token r.method r.pathname
      && not (is_valid_token i.token (parse_token_from_cookie r.cookie))
    then denied 403 invalid_token
    else if should_set_token_cookie r.method r.pathname
    then allowed (some (build_token_cookie i.token secure))
    else allowed none

unfoldable pub evaluate_http_request : Instance → Request → Bool → HttpGateDecision
unfolding check_token
evaluate_http_request i r secure =
    if is_host_allowed i.platform i.allowed_hosts r.host
    then if requires_origin_check r.method r.pathname
      then elim (is_request_allowed i.platform i.allowed_hosts r.origin r.host) [
        | some reason ↦ denied 403 reason
        | none ↦ check_token i r secure
      ]
      else check_token i r secure
    else denied 403 host_not_allowed

-- None is `allowed: true`.
unfoldable pub evaluate_ws_connection :
    Instance → Option Str → Option Str → Option Str → Option Reason
evaluate_ws_connection i origin host cookie =
    elim (is_request_allowed i.platform i.allowed_hosts origin host) [
      | some reason ↦ some reason
      | none ↦
          if is_valid_token i.token (parse_token_from_cookie cookie)
          then none
          else some invalid_token
    ]
