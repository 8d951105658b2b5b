-- ===== src/Accounts.antt =====
-- The accounts: server/db/UserStore.ts and server/auth/session.ts on the tables that
-- server/db/migrations/001_initial.ts makes. A table is the list of its rows in the order of their
-- insertion, and a statement what SQLite documents for it. Times are milliseconds.
pub mod Login
pub mod Password
pub mod Gate
pub mod Api
pub mod Rows
pub mod Membership
pub mod Admins
pub mod Live
pub mod Steps
pub mod Patching
pub mod Patched
pub mod Enrolment
pub mod Enrolled
pub mod Reachable
pub mod Access
pub mod Sessions
pub mod Staying
pub mod FirstUser
mod Tests
use proxmoxwhatsapp.Prelude.{
  ℕ, zero, suc, ◌+◌, ◌*◌, max, List, [], ◌∷◌, ◌++◌, Bool, true, false, not, ◌&&◌, Option, none,
  some, ◌==◌, leb, if◌then◌else◌,
}
use proxmoxwhatsapp.Subnet.Text.{Str}
use proxmoxwhatsapp.Web.Text.{codes, eq_str}
use proxmoxwhatsapp.Auth.{User, LockoutState, cleared_state}

pub data Role : Type 0 where
  user admin : Role

abbrev pub is_admin : Role → Bool
is_admin admin = true
is_admin user = false

pub record UserRow (Hash : Type 0) : Type 0 where
  pub id : ℕ
  pub username : Str
  pub role : Role
  pub account : User Hash
  pub created_at : ℕ

pub record Session : Type 0 where
  pub token_hash : Str
  pub user_id : ℕ
  pub created_at : ℕ
  pub expires_at : ℕ
  pub last_seen_at : ℕ

pub record Db (Hash : Type 0) : Type 0 where
  pub users : List (UserRow Hash)
  pub sessions : List Session
  pub auth_enabled : Bool

abbrev pub implicit_admin_id : ℕ
implicit_admin_id = 1

abbrev pub session_ttl_ms : ℕ
session_ttl_ms = 2592000000

-- `COLLATE NOCASE`: ASCII letters are compared without their case.
abbrev fold_case : ℕ → ℕ
fold_case x = if leb 65 x && leb x 90 then x + 32 else x

unfoldable pub same_name : Str → Str → Bool
same_name [] [] = true
same_name [] (y ∷ ys) = false
same_name (x ∷ xs) [] = false
same_name (x ∷ xs) (y ∷ ys) = fold_case x == fold_case y && same_name xs ys

module _ {Hash : Type 0} where
  unfoldable pub get_by_id : ℕ → List (UserRow Hash) → Option (UserRow Hash)
  get_by_id id [] = none
  get_by_id id (row ∷ rows) = if row.id == id then some row else get_by_id id rows

  unfoldable pub get_by_username : Str → List (UserRow Hash) → Option (UserRow Hash)
  get_by_username name [] = none
  get_by_username name (row ∷ rows) =
      if same_name row.username name then some row else get_by_username name rows

  -- `UPDATE users SET ... WHERE id = ?`.
  unfoldable pub update_where :
      ℕ → (UserRow Hash → UserRow Hash) → List (UserRow Hash) → List (UserRow Hash)
  update_where id f [] = []
  update_where id f (row ∷ rows) = (if row.id == id then f row else row) ∷ update_where id f rows

  unfoldable pub with_password : Hash → UserRow Hash → UserRow Hash
  with_password hash row = record row { account = record row.account { password_hash = some hash } }

  unfoldable pub with_role : Role → UserRow Hash → UserRow Hash
  with_role role row = record row { role = role }

  unfoldable pub with_disabled : Bool → UserRow Hash → UserRow Hash
  with_disabled disabled row = record row { account = record row.account { disabled = disabled } }

  unfoldable pub with_lockout : LockoutState → UserRow Hash → UserRow Hash
  with_lockout lockout row = record row { account = record row.account { lockout = lockout } }

  unfoldable pub with_username : Str → UserRow Hash → UserRow Hash
  with_username name row = record row { username = name }

  -- Whether another row has the name, which the UNIQUE constraint refuses.
  unfoldable pub is_name_taken : ℕ → Str → List (UserRow Hash) → Bool
  is_name_taken id name [] = false
  is_name_taken id name (row ∷ rows) =
      if not (row.id == id) && same_name row.username name then true else is_name_taken id name rows

  unfoldable pub set_username : ℕ → Str → List (UserRow Hash) → Option (List (UserRow Hash))
  unfolding with_username
  set_username id name rows =
      if is_name_taken id name rows then none else some (update_where id (with_username name) rows)

  -- The key of a new row: one more than the largest.
  unfoldable pub next_row_id : List (UserRow Hash) → ℕ
  next_row_id [] = 1
  next_row_id (row ∷ rows) = max (row.id + 1) (next_row_id rows)

  unfoldable pub new_row : ℕ → Str → Role → Option Hash → ℕ → UserRow Hash
  new_row id name role hash now = record {
    id = id;
    username = name;
    role = role;
    account = record {
      disabled = false;
      password_hash = hash;
      lockout = cleared_state;
      last_login = none;
    };
    created_at = now;
  }

  -- `create`: the new row's id, or none where the name is taken.
  unfoldable pub create_user :
      Str → Role → Option Hash → ℕ → List (UserRow Hash) → Option (ℕ × List (UserRow Hash))
  unfolding new_row
  create_user name role hash now rows =
      let id = next_row_id rows in
      if is_name_taken id name rows
      then none
      else some (id, rows ++ new_row id name role hash now ∷ [])

  unfoldable pub delete_where : ℕ → List (UserRow Hash) → List (UserRow Hash)
  delete_where id [] = []
  delete_where id (row ∷ rows) =
      let rest = delete_where id rows in if row.id == id then rest else row ∷ rest

  unfoldable pub is_enabled_admin : UserRow Hash → Bool
  is_enabled_admin row = is_admin row.role && not row.account.disabled

  unfoldable pub has_hash : UserRow Hash → Bool
  has_hash row = elim row.account.password_hash [ none ↦ false | some hash ↦ true ]

  unfoldable pub count_rows : (UserRow Hash → Bool) → List (UserRow Hash) → ℕ
  count_rows test [] = 0
  count_rows test (row ∷ rows) = (if test row then 1 else 0) + count_rows test rows

  unfoldable pub count_enabled_admins : List (UserRow Hash) → ℕ
  unfolding count_rows is_enabled_admin
  count_enabled_admins rows = count_rows is_enabled_admin rows

  unfoldable pub count_enabled_admins_with_password : List (UserRow Hash) → ℕ
  unfolding count_rows is_enabled_admin has_hash
  count_enabled_admins_with_password rows =
      count_rows (λ row. is_enabled_admin row && has_hash row) rows

-- SessionStore. A row is found by the hash of its token.
unfoldable pub find_session : Str → List Session → Option Session
find_session hash [] = none
find_session hash (s ∷ rest) = if eq_str s.token_hash hash then some s else find_session hash rest

unfoldable pub delete_session : Str → List Session → List Session
delete_session hash [] = []
delete_session hash (s ∷ rest) =
    let kept = delete_session hash rest in if eq_str s.token_hash hash then kept else s ∷ kept

unfoldable pub delete_for_user : ℕ → List Session → List Session
delete_for_user id [] = []
delete_for_user id (s ∷ rest) =
    let kept = delete_for_user id rest in if s.user_id == id then kept else s ∷ kept

unfoldable pub touch_session : Str → ℕ → ℕ → List Session → List Session
touch_session hash now ttl [] = []
touch_session hash now ttl (s ∷ rest) =
    (if eq_str s.token_hash hash
      then record s { last_seen_at = now; expires_at = now + ttl }
      else s)
    ∷ touch_session hash now ttl rest

abbrev pub new_session : Str → ℕ → ℕ → Session
new_session hash user_id now = record {
  token_hash = hash;
  user_id = user_id;
  created_at = now;
  expires_at = now + session_ttl_ms;
  last_seen_at = now;
}

abbrev pub add_new : Option Session → Session → List Session → Option (List Session)
add_new (some old) s sessions = none
add_new none s sessions = some (sessions ++ s ∷ [])

-- None where the primary key refuses the hash.
unfoldable pub create_session : Str → ℕ → ℕ → List Session → Option (List Session)
create_session hash user_id now sessions =
    add_new (find_session hash sessions) (new_session hash user_id now) sessions

-- What `findValid` does with the row that it finds.
unfoldable pub check_session : Str → ℕ → Option Session → List Session → Option ℕ × List Session
check_session hash now none sessions = (none, sessions)
check_session hash now (some s) sessions =
    if leb s.expires_at now
    then (none, delete_session hash sessions)
    else (some s.user_id, touch_session hash now session_ttl_ms sessions)

unfoldable pub find_valid : Str → ℕ → List Session → Option ℕ × List Session
unfolding check_session
find_valid hash now sessions = check_session hash now (find_session hash sessions) sessions

-- The tables after the first migration, with auth off.
unfoldable pub initial_db : (Hash : Type 0) → ℕ → Db Hash
unfolding new_row
initial_db Hash now = record {
  users = new_row implicit_admin_id (codes "admin") admin none now ∷ [];
  sessions = [];
  auth_enabled = false;
}
