-- ===== src/Accounts/Api/Users.antt =====
-- The handlers of server/api/UsersApi.ts, and requireAdmin.ts.
use proxmoxwhatsapp.Prelude.{
  ℕ, List, [], ◌∷◌, Bool, false, not, ◌&&◌, ◌||◌, Option, none, some, ◌==◌, leb, if◌then◌else◌, ℤ,
  pos, negsuc,
}
use proxmoxwhatsapp.Subnet.Text.{Str}
use proxmoxwhatsapp.Web.Text.{codes, eq_str}
use proxmoxwhatsapp.Auth.{cleared_state}
use proxmoxwhatsapp.Accounts.{
  Role, user, is_admin, UserRow, Db, implicit_admin_id, get_by_id, update_where, with_password,
  with_role, with_disabled, with_lockout, create_user, delete_where, count_enabled_admins,
  count_enabled_admins_with_password, delete_for_user, has_hash,
}
use proxmoxwhatsapp.Accounts.Login.{Crypto, LockdownParams, lockdown}
use proxmoxwhatsapp.Accounts.Api.Calls.{
  Json, text, flag, Body, text_or_blank, is_blank, role_of, is_true, Draws, Summary, Reply, status,
  created,
}

-- `resolveUserId`.
abbrev pub resolve_user_id : Option ℕ → ℕ
resolve_user_id none = implicit_admin_id
resolve_user_id (some id) = id

module _ {Hash : Type 0} where
  abbrev role_is_admin : Option (UserRow Hash) → Bool
  role_is_admin none = false
  role_is_admin (some row) = is_admin row.role

  unfoldable pub require_admin : Option ℕ → Db Hash → Bool
  require_admin acting db = role_is_admin (get_by_id (resolve_user_id acting) db.users)

  -- Rows are found by a positive key.
  unfoldable pub find_row : ℤ → List (UserRow Hash) → Option (UserRow Hash)
  find_row (pos id) users = get_by_id id users
  find_row (negsuc n) users = none

  unfoldable pub summaries : List (UserRow Hash) → List Summary
  summaries [] = []
  summaries (row ∷ rows) =
      record {
        id = row.id;
        username = row.username;
        role = row.role;
        has_password = has_hash row;
        disabled = row.account.disabled;
        locked_until = row.account.lockout.locked_until;
        last_login = row.account.last_login;
      }
      ∷ summaries rows

  unfoldable pub is_last_enabled_admin : UserRow Hash → Db Hash → Bool
  is_last_enabled_admin target db =
      is_admin target.role && (not target.account.disabled && leb (count_enabled_admins db.users) 1)

  unfoldable pub patch_role : ℕ → Option Role → List (UserRow Hash) → List (UserRow Hash)
  patch_role id none users = users
  patch_role id (some role) users = update_where id (with_role role) users

  unfoldable pub patch_disabled : ℕ → Json → Db Hash → Db Hash
  patch_disabled id (flag disabled) db = record db {
    users = update_where id (with_disabled disabled) db.users;
    sessions = if disabled then delete_for_user id db.sessions else db.sessions;
  }
  patch_disabled id _ db = db

  unfoldable pub patch_unlock : ℕ → Bool → List (UserRow Hash) → List (UserRow Hash)
  patch_unlock id unlock users =
      if unlock then update_where id (with_lockout cleared_state) users else users

  -- DELETE of a row that is there; the sessions go with it by the foreign key.
  unfoldable pub delete_target : UserRow Hash → Db Hash → Reply × Db Hash
  unfolding is_last_enabled_admin
  delete_target target db = if is_last_enabled_admin target db then (status 409, db) else (
    status 200,
    record db {
      users = delete_where target.id db.users;
      sessions = delete_for_user target.id db.sessions;
    },
  )

  unfoldable pub delete_user : Option ℤ → Db Hash → Reply × Db Hash
  unfolding find_row delete_target
  delete_user none db = (status 400, db)
  delete_user (some id) db = elim (find_row id db.users) [
    | none ↦ (status 404, db)
    | some target ↦ delete_target target db
  ]

module _ (c : Crypto) where
  unfoldable pub patch_password : ℕ → Str → Json → List (UserRow c.Hash) → List (UserRow c.Hash)
  patch_password id salt (text (x ∷ xs)) users =
      update_where id (with_password (c.hash_password salt (x ∷ xs))) users
  patch_password id salt _ users = users

  -- PATCH of the row that was read before the body came.
  unfoldable pub patch_target : Draws → Body → UserRow c.Hash → Db c.Hash → Reply × Db c.Hash
  unfolding is_last_enabled_admin patch_role patch_password patch_disabled patch_unlock
  patch_target draws body target db =
      let users =
        patch_password target.id draws.salt body.password
          (patch_role target.id (role_of body.role) db.users) in
      let db' = patch_disabled target.id body.disabled (record db { users = users }) in
      if is_true body.disabled && is_last_enabled_admin target db
      then (status 409, db)
      else if eq_str (text_or_blank body.role) (codes "user") && is_last_enabled_admin target db
      then (status 409, db)
      else (
        status 200,
        record db' { users = patch_unlock target.id (is_true body.unlock) db'.users },
      )

  unfoldable pub patch_user : Draws → Option ℤ → Body → Db c.Hash → Reply × Db c.Hash
  unfolding find_row patch_target
  patch_user draws none body db = (status 400, db)
  patch_user draws (some id) body db = elim (find_row id db.users) [
    | none ↦ (status 404, db)
    | some target ↦ patch_target draws body target db
  ]

  -- `isRole(role) ? role : 'user'`.
  abbrev pub new_role : Json → Role
  new_role json = elim (role_of json) [ none ↦ user | some role ↦ role ]

  abbrev pub lockdown_params : Body → LockdownParams
  lockdown_params body = record {
    admin_username = text_or_blank body.admin_username;
    admin_password = text_or_blank body.admin_password;
    new_username = text_or_blank body.username;
    new_role = new_role body.role;
    new_password = text_or_blank body.password;
  }

  -- The answer to what returned or threw.
  abbrev pub lockdown_answer : Option (Db c.Hash) → Db c.Hash → Reply × Db c.Hash
  lockdown_answer none db = (status 409, db)
  lockdown_answer (some secured) db = (status 201, secured)

  unfoldable pub first_user : Draws → Body → Db c.Hash → Reply × Db c.Hash
  first_user draws body db =
      if is_blank (text_or_blank body.admin_username)
        || is_blank (text_or_blank body.admin_password)
      then (status 400, db)
      else lockdown_answer
          (lockdown c (lockdown_params body) draws.admin_salt draws.salt draws.now db) db

  abbrev pub create_answer : Option (ℕ × List (UserRow c.Hash)) → Db c.Hash → Reply × Db c.Hash
  create_answer none db = (status 409, db)
  create_answer (some (id, users)) db = (created id, record db { users = users })

  unfoldable pub further_user : Draws → Body → Db c.Hash → Reply × Db c.Hash
  further_user draws body db =
      create_answer
        (create_user (text_or_blank body.username) (new_role body.role)
          (some (c.hash_password draws.salt (text_or_blank body.password))) draws.now db.users)
        db

  unfoldable pub create_account : Draws → Body → Db c.Hash → Reply × Db c.Hash
  unfolding first_user further_user
  create_account draws body db =
      if is_blank (text_or_blank body.username) || is_blank (text_or_blank body.password)
      then (status 400, db)
      else if count_enabled_admins_with_password db.users == 0
      then first_user draws body db
      else further_user draws body db
