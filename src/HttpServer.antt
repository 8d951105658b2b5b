-- ===== src/HttpServer.antt =====
-- server/services/HttpServer.ts: the request handler, with the handlers that server/index.ts puts
-- first. `to_integer` gives the integer that `Number` reads from a text and `String` prints as it.
pub mod Paths
pub mod Guarded
pub mod Authorization
mod Tests
use proxmoxwhatsapp.Prelude.{
  ℕ, List, [], ◌∷◌, Bool, true, false, ◌&&◌, ◌||◌, Option, none, some, if◌then◌else◌, ℤ, drop,
}
use proxmoxwhatsapp.Subnet.Text.{Str}
use proxmoxwhatsapp.Web.Text.{codes, eq_str, starts_with}
use proxmoxwhatsapp.Web.OriginGuard.{Reason}
use proxmoxwhatsapp.Web.RequestGate.{
  HttpGateDecision, allowed, denied, Instance, Request, evaluate_http_request,
}
use proxmoxwhatsapp.Accounts.{Db}
use proxmoxwhatsapp.Accounts.Login.{Crypto}
use proxmoxwhatsapp.Accounts.Api.{
  Body, Draws, Call, login_call, change_password, create_call, logout, me, enable, disable,
  list_call, patch_call, delete_call, users_path, elsewhere, Reply, status, serve,
}

abbrev pub is_method : Str → Option Str → Bool
is_method name none = false
is_method name (some method) = eq_str method name

unfoldable pub auth_call : Option Str → Str → Body → Call
auth_call method pathname body =
    if is_method (codes "POST") method && eq_str pathname (codes "/api/auth/login")
    then login_call body
    else if is_method (codes "POST") method && eq_str pathname (codes "/api/auth/logout")
    then logout
    else if is_method (codes "GET") method && eq_str pathname (codes "/api/auth/me")
    then me
    else if is_method (codes "POST") method && eq_str pathname (codes "/api/auth/change-password")
    then change_password body
    else if is_method (codes "POST") method && eq_str pathname (codes "/api/auth/enable")
    then enable
    else if is_method (codes "POST") method && eq_str pathname (codes "/api/auth/disable")
    then disable
    else elsewhere pathname

abbrev pub users_prefix : Str
users_prefix = codes "/api/users/"

module _ (to_integer : Str → Option ℤ) where
  unfoldable pub users_call : Option Str → Str → Body → Call
  users_call method pathname body =
      let id_text = drop 11 pathname in
      if is_method (codes "GET") method && eq_str pathname (codes "/api/users")
      then list_call
      else if is_method (codes "POST") method && eq_str pathname (codes "/api/users")
      then create_call body
      else if is_method (codes "PATCH") method && starts_with users_prefix pathname
      then patch_call id_text (to_integer id_text) body
      else if is_method (codes "DELETE") method && starts_with users_prefix pathname
      then delete_call id_text (to_integer id_text)
      else users_path pathname

  -- Which handler takes the request, and for what.
  unfoldable pub call_of : Option Str → Str → Body → Call
  unfolding auth_call users_call
  call_of method pathname body =
      if starts_with (codes "/api/auth/") pathname
      then auth_call method pathname body
      else if eq_str pathname (codes "/api/users") || starts_with users_prefix pathname
      then users_call method pathname body
      else elsewhere pathname

  -- The cookie that the gate adds, the answer, and the tables afterwards.
  unfoldable pub answer_request :
      (c : Crypto)
      → HttpGateDecision
      → Draws
      → Request
      → Body
      → Db c.Hash
      → Option Str × Reply × Db c.Hash
  unfolding call_of
  answer_request c (denied code reason) draws r body db = (none, status code, db)
  answer_request c (allowed set_cookie) draws r body db =
      let (reply, after) = serve c draws r.cookie (call_of r.method r.pathname body) db in
      (set_cookie, reply, after)

  unfoldable pub handle_request :
      (c : Crypto)
      → Instance
      → Bool
      → Draws
      → Request
      → Body
      → Db c.Hash
      → Option Str × Reply × Db c.Hash
  unfolding answer_request
  handle_request c i secure draws r body db =
      answer_request c (evaluate_http_request i r secure) draws r body db
