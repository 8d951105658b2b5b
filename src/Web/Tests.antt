-- ===== src/Web/Tests.antt =====
-- A server on localhost, a page of it, and a call that the page makes.
use proxmoxwhatsapp.Prelude.{[], ◌∷◌, true, false, none, some, ◌≡◌, ◌↔◌, refl}
use proxmoxwhatsapp.Subnet.Text.{Str, trim, trim_start, before, includes, is_space}
use proxmoxwhatsapp.Web.Text.{codes, eq_str, starts_with, to_lower, to_upper, from_last}
use proxmoxwhatsapp.Web.OriginGuard.{
  Platform, is_host_allowed, hostname_of, is_hostname_allowed, strip_brackets,
  requires_origin_check, is_request_allowed, origin_matches,
}
use proxmoxwhatsapp.Web.InstanceToken.{
  build_token_cookie, requires_token, should_set_token_cookie, is_get_or_head, path_extension,
}
use proxmoxwhatsapp.Web.RequestGate.{
  allowed, Instance, Request, evaluate_http_request, evaluate_ws_connection, check_token,
}
use proxmoxwhatsapp.Web.Trusted.{IsTrusted, absent}
use proxmoxwhatsapp.Web.Safety.{evaluate_http_request-IsTrusted, evaluate_ws_connection-IsTrusted}
use proxmoxwhatsapp.Web.Bootstrap.{
  stored_cookie, cookie_header, IsOther, evaluate_http_request-bootstrap,
}

abbrev platform : Platform
platform = record { url_hostname = λ host. some host; is_ip = λ name. false }

abbrev instance_of : Instance
instance_of = record { platform = platform; allowed_hosts = []; token = codes "ab12" }

abbrev page : Request
page = record {
  method = some (codes "GET");
  pathname = codes "/";
  origin = none;
  host = some (codes "localhost");
  cookie = none;
}

abbrev token_cookie : Str
token_cookie = build_token_cookie (codes "ab12") false

abbrev call : Request
call = record {
  method = some (codes "POST");
  pathname = codes "/api/users";
  origin = none;
  host = some (codes "localhost");
  cookie = some (cookie_header (codes "lang=en" ∷ (stored_cookie token_cookie ∷ [])));
}

call_requires : requires_token call.method call.pathname ≡ true
unfolding requires_token eq_str starts_with is_get_or_head to_upper
call_requires = refl

page_allowed : is_host_allowed platform [] page.host ≡ true
unfolding is_host_allowed hostname_of is_hostname_allowed strip_brackets to_lower eq_str
page_allowed = refl

page_checked : is_request_allowed platform [] page.origin page.host ≡ none
unfolding is_request_allowed origin_matches
page_checked = rw (page_allowed, is_request_allowed) refl

page_token : check_token instance_of page false ≡ allowed (some token_cookie)
unfolding check_token requires_token should_set_token_cookie is_get_or_head path_extension eq_str
    starts_with to_upper from_last
page_token = refl

page_served : evaluate_http_request instance_of page false ≡ allowed (some token_cookie)
unfolding evaluate_http_request requires_origin_check eq_str starts_with to_upper
page_served = rw (page_allowed, evaluate_http_request) page_token

lang-IsOther : IsOther (codes "lang=en")
unfolding eq_str trim trim_start before includes is_space
lang-IsOther = (refl, refl)

evaluate_http_request-IsTrusted_example :
    (evaluate_http_request instance_of call false ≡ allowed none)
    ↔ IsTrusted instance_of call.origin call.host call.cookie
evaluate_http_request-IsTrusted_example =
    evaluate_http_request-IsTrusted instance_of call false (λ h. cc) call_requires

evaluate_ws_connection-IsTrusted_example :
    (evaluate_ws_connection instance_of call.origin call.host call.cookie ≡ none)
    ↔ IsTrusted instance_of call.origin call.host call.cookie
evaluate_ws_connection-IsTrusted_example =
    evaluate_ws_connection-IsTrusted instance_of call.origin call.host call.cookie (λ h. cc)

evaluate_http_request-bootstrap_example :
    evaluate_http_request instance_of call false ≡ allowed none
evaluate_http_request-bootstrap_example =
    evaluate_http_request-bootstrap instance_of page call false token_cookie (codes "lang=en" ∷ [])
      [] refl (λ h. cc) page_served (lang-IsOther, tt) call_requires refl absent refl
