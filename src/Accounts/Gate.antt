-- ===== src/Accounts/Gate.antt =====
-- server/auth/AuthGate.ts with the allow list of authState.ts: the first handler of every request.
use proxmoxwhatsapp.Prelude.{ℕ, List, [], ◌∷◌, Bool, ◌||◌, Option, none, some, if◌then◌else◌}
use proxmoxwhatsapp.Subnet.Text.{Str}
use proxmoxwhatsapp.Web.Text.{codes, eq_str, starts_with}
use proxmoxwhatsapp.Web.Cookie.{parse_cookie}
use proxmoxwhatsapp.Accounts.{UserRow, Session, Db, get_by_id, find_valid}
use proxmoxwhatsapp.Accounts.Login.{Crypto}

abbrev pub session_cookie : Str
session_cookie = codes "wsscrcpy_sid"

unfoldable pub is_allowlisted : Str → Bool
is_allowlisted pathname =
    eq_str pathname (codes "/api/auth/login")
    || eq_str pathname (codes "/api/auth/me")
    || eq_str pathname (codes "/api/whoami")
    || starts_with (codes "/login-assets/") pathname

-- A request goes on to the next handler, with the id of the user that is attached to it, if any; or
-- it is answered by status 401, or by the login page.
pub data Gated : Type 0 where
  through : Option ℕ → Gated
  unauthorized login_page : Gated

unfoldable pub blocked : Str → Gated
blocked pathname = if starts_with (codes "/api/") pathname then unauthorized else login_page

-- `token ? findValid(token, now) : undefined`.
unfoldable pub session_of : (Str → Str) → Option Str → ℕ → List Session → Option ℕ × List Session
session_of hash_token none now sessions = (none, sessions)
session_of hash_token (some []) now sessions = (none, sessions)
session_of hash_token (some (x ∷ xs)) now sessions = find_valid (hash_token (x ∷ xs)) now sessions

module _ {Hash : Type 0} where
  -- `session ? getById(session.userId) : undefined`.
  unfoldable pub user_of : Option ℕ → List (UserRow Hash) → Option (UserRow Hash)
  user_of none users = none
  user_of (some id) users = get_by_id id users

  unfoldable pub admit : Str → Option (UserRow Hash) → Gated
  admit pathname none = blocked pathname
  admit pathname (some row) =
      if row.account.disabled then blocked pathname else through (some row.id)

module _ (c : Crypto) where
  unfoldable pub check_user : Str → Option Str → ℕ → Db c.Hash → Gated × Db c.Hash
  unfolding session_of user_of admit
  check_user pathname token now db =
      let (user_id, sessions) = session_of c.hash_token token now db.sessions in
      (admit pathname (user_of user_id db.users), record db { sessions = sessions })

  unfoldable pub auth_gate : Str → Option Str → ℕ → Db c.Hash → Gated × Db c.Hash
  unfolding check_user
  auth_gate pathname cookie now db =
      if db.auth_enabled
      then if is_allowlisted pathname
        then (through none, db)
        else check_user pathname (parse_cookie cookie session_cookie) now db
      else (through none, db)
