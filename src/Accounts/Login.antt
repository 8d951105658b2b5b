-- ===== src/Accounts/Login.antt =====
-- server/auth/loginService.ts on the tables, and server/auth/lockdown.ts.
use proxmoxwhatsapp.Prelude.{ℕ, List, Bool, true, Option, none, some}
use proxmoxwhatsapp.Subnet.Text.{Str}
use proxmoxwhatsapp.Auth.{User, LoginResult, logged_in, invalid, login}
use proxmoxwhatsapp.Accounts.{
  Role, UserRow, Db, implicit_admin_id, get_by_id, get_by_username, update_where, with_password,
  set_username, create_user, create_session,
}

-- What the stores and handlers ask of password.ts and sessionToken.ts: to hash a password with a
-- fresh salt, to verify one, and the digest of a session's token. Nothing is assumed of them;
-- Accounts.Password has the code of password.ts.
pub record Crypto : Type 1 where
  pub Hash : Type 0
  pub hash_password : Str → Str → Hash
  pub verify_password : Str → Hash → Bool
  pub hash_token : Str → Str

pub data LoginReply : Type 0 where
  logged_in_as : ℕ → LoginReply
  refused : LoginResult → LoginReply
  threw : LoginReply

pub record LockdownParams : Type 0 where
  pub admin_username : Str
  pub admin_password : Str
  pub new_username : Str
  pub new_role : Role
  pub new_password : Str

module _ (c : Crypto) where
  -- The columns that `setLockout`, `clearLockout` and `setLastLogin` write.
  abbrev pub with_attempt : User c.Hash → UserRow c.Hash → UserRow c.Hash
  with_attempt account row = record row {
    account = record row.account { lockout = account.lockout; last_login = account.last_login };
  }

  -- The row is written, and a session made for who logged in. `token` is the new token.
  unfoldable pub finish_login :
      Str → ℕ → ℕ → LoginResult → User c.Hash → Db c.Hash → LoginReply × Db c.Hash
  finish_login token now id logged_in account db =
      let db' = record db { users = update_where id (with_attempt account) db.users } in
      elim (create_session (c.hash_token token) id now db.sessions) [
        | none ↦ (threw, db')
        | some sessions ↦ (logged_in_as id, record db' { sessions = sessions })
      ]
  finish_login token now id result account db =
      (refused result, record db { users = update_where id (with_attempt account) db.users })

  unfoldable pub login_as :
      Str → Str → ℕ → Option (UserRow c.Hash) → Db c.Hash → LoginReply × Db c.Hash
  unfolding finish_login
  login_as password token now none db = (refused invalid, db)
  login_as password token now (some row) db =
      let (result, account) = login c.Hash Str c.verify_password password now row.account in
      finish_login token now row.id result account db

  unfoldable pub login_service : Str → Str → Str → ℕ → Db c.Hash → LoginReply × Db c.Hash
  unfolding login_as
  login_service username password token now db =
      login_as password token now (get_by_username username db.users) db

  -- The statements of the transaction; none where one throws, and all is rolled back.
  unfoldable pub lockdown_users :
      LockdownParams → Str → Str → ℕ → List (UserRow c.Hash) → Option (List (UserRow c.Hash))
  lockdown_users p admin_salt user_salt now users =
      elim (set_username implicit_admin_id p.admin_username users) [
        | none ↦ none
        | some renamed ↦
            elim (create_user p.new_username p.new_role
              (some (c.hash_password user_salt p.new_password)) now
              (update_where implicit_admin_id
                (with_password (c.hash_password admin_salt p.admin_password)) renamed)) [
                  | none ↦ none
                  | some (id, added) ↦ some added
                ]
      ]

  -- `lockdown`: none where it throws, and the tables are as before.
  unfoldable pub lockdown : LockdownParams → Str → Str → ℕ → Db c.Hash → Option (Db c.Hash)
  unfolding lockdown_users
  lockdown p admin_salt user_salt now db = elim (get_by_id implicit_admin_id db.users) [
    | none ↦ none
    | some admin_row ↦ elim admin_row.account.password_hash [
      | some hash ↦ none
      | none ↦ elim (lockdown_users p admin_salt user_salt now db.users) [
        | none ↦ none
        | some users ↦ some (record db { users = users; auth_enabled = true })
      ]
    ]
  ]
