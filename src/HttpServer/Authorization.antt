-- ===== src/HttpServer/Authorization.antt =====
-- With auth on, nothing but a trusted request of a signed-in admin administers the accounts.
use proxmoxwhatsapp.Prelude.{
  ℕ, [], Bool, true, false, Option, none, some, ℤ, Bool-cases, Option-cases, inl, inr, ◌≡◌, ◌≢◌,
  ◌⊎◌, refl, sym, ap, ◌∙◌, arith,
}
use mathlib.Core.Path.{subst}
use proxmoxwhatsapp.Subnet.Text.{Str}
use proxmoxwhatsapp.Web.Text.{codes, starts_with}
use proxmoxwhatsapp.Web.OriginGuard.{Reason}
use proxmoxwhatsapp.Web.RequestGate.{
  HttpGateDecision, allowed, denied, Instance, Request, evaluate_http_request,
}
use proxmoxwhatsapp.Web.Trusted.{IsTrusted}
use proxmoxwhatsapp.Web.Safety.{evaluate_http_request-cases, evaluate_http_request-IsTrusted}
use proxmoxwhatsapp.Accounts.{UserRow, Db, Role, admin, user, is_admin, get_by_id}
use proxmoxwhatsapp.Accounts.Login.{Crypto}
use proxmoxwhatsapp.Accounts.Gate.{
  Gated, through, unauthorized, login_page, blocked, admit, auth_gate,
}
use proxmoxwhatsapp.Accounts.Access.{HasAccess, auth_gate-HasAccess, guarded}
use proxmoxwhatsapp.Accounts.Staying.{guarded_db}
use proxmoxwhatsapp.Accounts.Api.{
  Body, Draws, Call, login_call, change_password, create_call, logout, me, enable, disable,
  list_call, patch_call, delete_call, users_path, elsewhere, path_of, Reply, status, require_admin,
  handle_call, after_gate, serve,
}
use proxmoxwhatsapp.HttpServer.{call_of, answer_request, handle_request}
use proxmoxwhatsapp.HttpServer.Paths.{path_of-call_of}
use proxmoxwhatsapp.HttpServer.Guarded.{
  is_admin_call, IsGuarded, admin_call-IsGuarded, guarded-requires_token,
}

pub data IsRefusal : Reply → Type 0 where
  not_signed_in : IsRefusal (status 401)
  forbidden : IsRefusal (status 403)

-- A request that passes the guards, with a session of an enabled admin.
pub record IsAuthorized (c : Crypto) (i : Instance) (r : Request) (now : ℕ) (db : Db c.Hash)
    : Type 0 where
  pub trusted : IsTrusted i r.origin r.host r.cookie
  pub id : ℕ
  pub signed_in : HasAccess c db r.cookie now id
  pub row : UserRow c.Hash
  pub owned : get_by_id id db.users ≡ some row
  pub is_admin_role : row.role ≡ admin

-- What a refused request leaves as it was.
pub record IsUntouched {Hash : Type 0} (db after : Db Hash) : Type 0 where
  pub same_users : after.users ≡ db.users
  pub same_mode : after.auth_enabled ≡ db.auth_enabled

is_admin-eq : (role : Role) → is_admin role ≡ true → role ≡ admin
is_admin-eq admin h = refl
is_admin-eq user h = absurd cc

module _ (c : Crypto) where
  admit-api :
      (pathname : Str) (row : Option (UserRow c.Hash)) (gated : Gated)
      → starts_with (codes "/api/") pathname ≡ true
      → admit pathname row ≡ gated
      → gated ≢ login_page
  unfolding admit blocked
  admit-api pathname none gated a h q = absurd (ground arith)
  admit-api pathname (some row) gated a h q = absurd (ground arith)

  -- The gate's part: who is let through has access.
  access-cases :
      (pathname : Str) (cookie : Option Str) (now : ℕ) (db : Db c.Hash) (gated : Gated)
      → db.auth_enabled ≡ true
      → IsGuarded pathname
      → (auth_gate c pathname cookie now db).0 ≡ gated
      → (gated ≡ unauthorized)
        ⊎ ((id : ℕ) × (gated ≡ through (some id)) × HasAccess c db cookie now id)
  access-cases pathname cookie now db unauthorized on g e = inl refl
  access-cases pathname cookie now db login_page on g e = absurd (
      admit-api pathname _ login_page g.api
        (sym (guarded c pathname cookie now db on g.not_listed) ∙ e) refl)
  access-cases pathname cookie now db (through acting) on g e =
      let (id, a, access) =
        (auth_gate-HasAccess c pathname cookie now acting db on g.not_listed).0 e in
      inr (id, ap through a, access)

  auth_gate-IsUntouched :
      (pathname : Str) (cookie : Option Str) (now : ℕ) (db : Db c.Hash)
      → db.auth_enabled ≡ true
      → IsGuarded pathname
      → IsUntouched db (auth_gate c pathname cookie now db).1
  auth_gate-IsUntouched pathname cookie now db on g =
      let e = guarded_db c pathname cookie now db on g.not_listed in
      record { same_users = ap (λ d. d.users) e; same_mode = ap (λ d. d.auth_enabled) e }

  -- An admin's call that reaches its handler without an admin.
  handle_call-forbidden :
      (draws : Draws) (acting : Option ℕ) (cookie : Option Str) (call : Call) (db : Db c.Hash)
      → is_admin_call call ≡ true
      → require_admin acting db ≡ false
      → handle_call c draws acting cookie call db ≡ (status 403, db)
  unfolding handle_call
  handle_call-forbidden draws acting cookie enable db h k = rw k refl
  handle_call-forbidden draws acting cookie disable db h k = rw k refl
  handle_call-forbidden draws acting cookie list_call db h k = rw k refl
  handle_call-forbidden draws acting cookie (create_call body) db h k = rw k refl
  handle_call-forbidden draws acting cookie (patch_call id_text id body) db h k = rw k refl
  handle_call-forbidden draws acting cookie (delete_call id_text id) db h k = rw k refl
  handle_call-forbidden draws acting cookie (users_path pathname) db h k = absurd cc
  handle_call-forbidden draws acting cookie (login_call body) db h k = absurd cc
  handle_call-forbidden draws acting cookie (change_password body) db h k = absurd cc
  handle_call-forbidden draws acting cookie logout db h k = absurd cc
  handle_call-forbidden draws acting cookie me db h k = absurd cc
  handle_call-forbidden draws acting cookie (elsewhere pathname) db h k = absurd cc

  -- An admin's row is what requireAdmin asks for.
  require_admin-row :
      (id : ℕ) (db : Db c.Hash)
      → require_admin (some id) db ≡ true
      → (row : UserRow c.Hash) × (get_by_id id db.users ≡ some row) × (row.role ≡ admin)
  unfolding require_admin
  require_admin-row id db h = elim (Option-cases (get_by_id id db.users)) [
    | inl e ↦ absurd (ground arith)
    | inr (row, e) ↦ (row, e, is_admin-eq row.role (ground arith))
  ]

  -- Access, and an admin's row.
  IsAdminOf : Db c.Hash → Option Str → ℕ → Type 0
  IsAdminOf db cookie now =
      (id : ℕ) × HasAccess c db cookie now id
      × ((row : UserRow c.Hash) × (get_by_id id db.users ≡ some row) × (row.role ≡ admin))

  IsRefused : Db c.Hash → Reply × Db c.Hash → Type 0
  IsRefused db result = IsRefusal result.0 × IsUntouched db result.1

  after_gate-cases :
      (draws : Draws) (cookie : Option Str) (call : Call) (gated : Gated) (db after : Db c.Hash)
      → is_admin_call call ≡ true
      → IsUntouched db after
      → (gated ≡ unauthorized)
        ⊎ ((id : ℕ) × (gated ≡ through (some id)) × HasAccess c db cookie draws.now id)
      → IsAdminOf db cookie draws.now ⊎ IsRefused db (after_gate c draws cookie call (gated, after))
  unfolding after_gate IsAdminOf IsRefused
  after_gate-cases draws cookie call gated db after h u (inl e) = inr (
      subst (λ g. IsRefused db (after_gate c draws cookie call (g, after))) (sym e)
        (not_signed_in, u))
  after_gate-cases draws cookie call gated db after h u (inr (id, e, access)) =
      elim (Bool-cases (require_admin (some id) after)) [
        | inl k ↦ inl (
          id,
          access,
          subst (λ us. (row : UserRow c.Hash) × (get_by_id id us ≡ some row) × (row.role ≡ admin))
              u.same_users (require_admin-row id after k),
        )
        | inr k ↦ inr (
            subst (λ g. IsRefused db (after_gate c draws cookie call (g, after))) (sym e)
              (subst (IsRefused db)
                (sym (handle_call-forbidden draws (some id) cookie call after h k)) (forbidden, u)))
      ]

  serve-cases :
      (draws : Draws) (cookie : Option Str) (call : Call) (db : Db c.Hash)
      → db.auth_enabled ≡ true
      → is_admin_call call ≡ true
      → IsAdminOf db cookie draws.now ⊎ IsRefused db (serve c draws cookie call db)
  unfolding serve
  serve-cases draws cookie call db on h =
      let g = admin_call-IsGuarded call h in
      let gated = auth_gate c (path_of call) cookie draws.now db in
      after_gate-cases draws cookie call gated.0 db gated.1 h
        (auth_gate-IsUntouched (path_of call) cookie draws.now db on g)
        (access-cases (path_of call) cookie draws.now db gated.0 on g refl)

  module _ (to_integer : Str → Option ℤ) where
    answer_request-cases :
        (i : Instance) (draws : Draws) (r : Request) (body : Body) (db : Db c.Hash)
        (decision : HttpGateDecision)
        → ((decision ≡ allowed none) × IsTrusted i r.origin r.host r.cookie)
          ⊎ ((reason : Reason) × (decision ≡ denied 403 reason))
        → db.auth_enabled ≡ true
        → is_admin_call (call_of to_integer r.method r.pathname body) ≡ true
        → IsAuthorized c i r draws.now db
          ⊎ (IsRefusal (answer_request to_integer c decision draws r body db).1
              × IsUntouched db (answer_request to_integer c decision draws r body db).2)
    unfolding answer_request IsAdminOf IsRefused
    answer_request-cases i draws r body db decision (inr (reason, e)) on h = inr (
        subst
          (λ d.
            IsRefusal (answer_request to_integer c d draws r body db).1
            × IsUntouched db (answer_request to_integer c d draws r body db).2)
          (sym e) (forbidden, record { same_users = refl; same_mode = refl }))
    answer_request-cases i draws r body db decision (inl (e, trusted)) on h =
        elim (serve-cases draws r.cookie (call_of to_integer r.method r.pathname body) db on h) [
          | inl (id, access, (row, owned, is)) ↦ inl (record {
            trusted = trusted;
            id = id;
            signed_in = access;
            row = row;
            owned = owned;
            is_admin_role = is;
          })
          | inr refused ↦ inr (
              subst
                (λ d.
                  IsRefusal (answer_request to_integer c d draws r body db).1
                  × IsUntouched db (answer_request to_integer c d draws r body db).2)
                (sym e) refused)
        ]

    -- With auth on and a token that is not empty, a request for a call of the admins either comes
    -- from a known host and its own origin with the instance's token, and carries the session, not
    -- over, of an enabled user whose role is admin; or it is answered by status 401 or 403, and no
    -- user and no mode is changed.
    pub handle_request-IsAuthorized :
        (i : Instance) (secure : Bool) (draws : Draws) (r : Request) (body : Body) (db : Db c.Hash)
        → i.token ≢ []
        → db.auth_enabled ≡ true
        → is_admin_call (call_of to_integer r.method r.pathname body) ≡ true
        → IsAuthorized c i r draws.now db
          ⊎ (IsRefusal (handle_request to_integer c i secure draws r body db).1
              × IsUntouched db (handle_request to_integer c i secure draws r body db).2)
    unfolding handle_request
    handle_request-IsAuthorized i secure draws r body db n on h =
        let call = call_of to_integer r.method r.pathname body in
        let t = guarded-requires_token r.method r.pathname (
          subst IsGuarded (path_of-call_of to_integer r.method r.pathname body)
            (admin_call-IsGuarded call h)) in
        answer_request-cases i draws r body db (evaluate_http_request i r secure)
          (elim (evaluate_http_request-cases i r secure t) [
            | inl e ↦ inl (e, (evaluate_http_request-IsTrusted i r secure n t).0 e)
            | inr denial ↦ inr denial
          ])
          on h
