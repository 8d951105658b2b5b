-- ===== src/Accounts/Api.antt =====
-- server/api/AuthApi.ts and server/api/UsersApi.ts behind the gate, and currentUser.ts and
-- requireAdmin.ts. A call is a request whose method and path a handler matches; a handler runs to its
-- end before the next request.
pub mod Calls
pub mod Users
pub use proxmoxwhatsapp.Accounts.Api.Calls.{
  Json, absent, other, text, flag, Body, text_or_blank, is_blank, role_of, is_true, Draws, Call,
  login_call, change_password, create_call, logout, me, enable, disable, list_call, patch_call,
  delete_call, users_path, elsewhere, path_of, Summary, Reply, status, session_cookie_set,
  login_failed, users_list, created, who, login_form, next_handler,
}
unfoldable pub use proxmoxwhatsapp.Accounts.Api.Users.{
  resolve_user_id, require_admin, find_row, summaries, is_last_enabled_admin, patch_role,
  patch_disabled, patch_unlock, delete_target, delete_user, patch_password, patch_target,
  patch_user, new_role, lockdown_params, lockdown_answer, first_user, create_answer, further_user,
  create_account,
}
use proxmoxwhatsapp.Prelude.{
  ℕ, List, [], ◌∷◌, ◌++◌, length, Bool, true, false, not, ◌&&◌, ◌||◌, Option, none, some, ◌==◌, leb,
  if◌then◌else◌, ℤ, pos, negsuc,
}
use proxmoxwhatsapp.Subnet.Text.{Str}
use proxmoxwhatsapp.Web.Text.{codes, eq_str}
use proxmoxwhatsapp.Web.Cookie.{parse_cookie}
use proxmoxwhatsapp.Auth.{LoginResult, cleared_state}
use proxmoxwhatsapp.Accounts.{
  Role, user, admin, is_admin, UserRow, Session, Db, implicit_admin_id, get_by_id, update_where,
  with_password, with_role, with_disabled, with_lockout, create_user, delete_where,
  count_enabled_admins, count_enabled_admins_with_password, delete_session, delete_for_user,
  has_hash,
}
use proxmoxwhatsapp.Accounts.Login.{
  Crypto, LoginReply, logged_in_as, refused, threw, login_service, LockdownParams, lockdown,
}
use proxmoxwhatsapp.Accounts.Gate.{
  Gated, through, unauthorized, login_page, session_cookie, session_of, user_of, auth_gate,
}

module _ (c : Crypto) where
  unfoldable pub change_row : Draws → Body → UserRow c.Hash → Db c.Hash → Reply × Db c.Hash
  change_row draws body row db = elim row.account.password_hash [
    | none ↦ (status 400, db)
    | some hash ↦
        if c.verify_password (text_or_blank body.current_password) hash
        then (
          status 200,
          record db {
            users =
                update_where row.id
                  (with_password (c.hash_password draws.salt (text_or_blank body.new_password)))
                  db.users;
          },
        )
        else (status 400, db)
  ]

  unfoldable pub change_own_password : Draws → Option ℕ → Body → Db c.Hash → Reply × Db c.Hash
  unfolding change_row
  change_own_password draws acting body db =
      if is_blank (text_or_blank body.new_password)
      then (status 400, db)
      else elim (get_by_id (resolve_user_id acting) db.users) [
        | none ↦ (status 400, db)
        | some row ↦ change_row draws body row db
      ]

  unfoldable pub enable_auth : Db c.Hash → Reply × Db c.Hash
  enable_auth db =
      if leb 1 (count_enabled_admins_with_password db.users)
      then (status 200, record db { auth_enabled = true })
      else (status 409, db)

  abbrev login_answer : Str → LoginReply → Reply
  login_answer token (logged_in_as id) = session_cookie_set token
  login_answer token (refused reason) = login_failed reason
  login_answer token threw = status 500

  -- `if (token)`: a cookie that is there and not empty.
  unfoldable pub end_session : Option Str → List Session → List Session
  end_session none sessions = sessions
  end_session (some []) sessions = sessions
  end_session (some (x ∷ xs)) sessions = delete_session (c.hash_token (x ∷ xs)) sessions

  abbrev name_and_role : Option (UserRow c.Hash) → Option (Str × Role)
  name_and_role none = none
  name_and_role (some row) = some (row.username, row.role)

  unfoldable pub who_am_i : Draws → Option Str → Db c.Hash → Reply × Db c.Hash
  who_am_i draws token db =
      let (user_id, sessions) = session_of c.hash_token token draws.now db.sessions in
      if db.auth_enabled
      then (who true (name_and_role (user_of user_id db.users)), record db { sessions = sessions })
      else (who false (name_and_role (get_by_id implicit_admin_id db.users)), db)

  abbrev as_admin : Option ℕ → Db c.Hash → Reply × Db c.Hash → Reply × Db c.Hash
  as_admin acting db result = if require_admin acting db then result else (status 403, db)

  -- The two handlers, for a request that the gate lets through with `acting` attached.
  unfoldable pub handle_call : Draws → Option ℕ → Option Str → Call → Db c.Hash → Reply × Db c.Hash
  handle_call draws acting cookie (login_call body) db =
      let (answer, db') =
        login_service c (text_or_blank body.username) (text_or_blank body.password) draws.token
          draws.now db in
      (login_answer draws.token answer, db')
  handle_call draws acting cookie logout db = (
    status 200,
    record db { sessions = end_session (parse_cookie cookie session_cookie) db.sessions },
  )
  handle_call draws acting cookie me db = who_am_i draws (parse_cookie cookie session_cookie) db
  handle_call draws acting cookie (change_password body) db =
      change_own_password draws acting body db
  handle_call draws acting cookie enable db = as_admin acting db (enable_auth db)
  handle_call draws acting cookie disable db =
      as_admin acting db (status 200, record db { auth_enabled = false })
  handle_call draws acting cookie list_call db =
      as_admin acting db (users_list (summaries db.users), db)
  handle_call draws acting cookie (create_call body) db =
      as_admin acting db (create_account c draws body db)
  handle_call draws acting cookie (patch_call id_text id body) db =
      as_admin acting db (patch_user c draws id body db)
  handle_call draws acting cookie (delete_call id_text id) db =
      as_admin acting db (delete_user id db)
  handle_call draws acting cookie (users_path pathname) db =
      as_admin acting db (next_handler acting, db)
  handle_call draws acting cookie (elsewhere pathname) db = (next_handler acting, db)

  unfoldable pub after_gate : Draws → Option Str → Call → Gated × Db c.Hash → Reply × Db c.Hash
  after_gate draws cookie call (through acting, db) = handle_call draws acting cookie call db
  after_gate draws cookie call (unauthorized, db) = (status 401, db)
  after_gate draws cookie call (login_page, db) = (login_form, db)

  -- The chain of handlers in HttpServer: the gate, then AuthApi, then UsersApi.
  unfoldable pub serve : Draws → Option Str → Call → Db c.Hash → Reply × Db c.Hash
  unfolding after_gate
  serve draws cookie call db =
      after_gate draws cookie call (auth_gate c (path_of call) cookie draws.now db)
