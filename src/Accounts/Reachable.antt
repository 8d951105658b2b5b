-- ===== src/Accounts/Reachable.antt =====
-- Every state that requests can lead to, from the first start on, is sound.
use proxmoxwhatsapp.Prelude.{
  ℕ, ◌≤◌, [], ◌∷◌, Bool, true, false, Option, none, some, ◌≡◌, inr, refl, arith, if◌then◌else◌,
}
use proxmoxwhatsapp.Subnet.Text.{Str}
use proxmoxwhatsapp.Web.Cookie.{parse_cookie}
use proxmoxwhatsapp.Accounts.{
  Db, initial_db, new_row, count_enabled_admins, count_enabled_admins_with_password, count_rows,
  is_enabled_admin,
}
use proxmoxwhatsapp.Accounts.Admins.{count-with_password}
use proxmoxwhatsapp.Accounts.Live.{IsLive, AllLive, find_valid-AllLive, delete_session-All}
use proxmoxwhatsapp.Accounts.Login.{Crypto}
use proxmoxwhatsapp.Accounts.Gate.{
  Gated, through, unauthorized, login_page, is_allowlisted, session_cookie, session_of, check_user,
  auth_gate,
}
use proxmoxwhatsapp.Accounts.Api.{
  Call, login_call, logout, me, change_password, enable, disable, list_call, create_call,
  patch_call, delete_call, users_path, elsewhere, path_of, Draws, Reply, status, require_admin,
  end_session, who_am_i, handle_call, after_gate, serve,
}
use proxmoxwhatsapp.Accounts.Steps.{IsSound, delete_user-IsSound}
use proxmoxwhatsapp.Accounts.Patched.{patch_user-IsSound}
use proxmoxwhatsapp.Accounts.Enrolment.{login_service-IsSound}
use proxmoxwhatsapp.Accounts.Enrolled.{
  enable_auth-IsSound, change_own_password-IsSound, create_account-IsSound,
}

-- Requests one after the other: what they ask, which cookies they carry, and what the server draws.
pub data Reachable (c : Crypto) : Db c.Hash → Type 0 where
  started : (now : ℕ) → Reachable c (initial_db c.Hash now)
  served :
      {db : Db c.Hash} (draws : Draws) (cookie : Option Str) (call : Call)
      → Reachable c db
      → Reachable c (serve c draws cookie call db).1

either-IsSound :
    {A Hash : Type 0} (test : Bool) (x y : A × Db Hash)
    → IsSound x.1
    → IsSound y.1
    → IsSound (if test then x else y).1
either-IsSound true x y s t = s
either-IsSound false x y s t = t

disabled-IsSound :
    {Hash : Type 0} (db : Db Hash) → IsSound db → IsSound (record db { auth_enabled = false })
disabled-IsSound db s = record {
  secure = record {
    unique = s.secure.unique;
    some_admin = s.secure.some_admin;
    passwords = s.secure.passwords;
    secured = λ on. cc;
  };
  live = s.live;
}

module _ (c : Crypto) where
  initial_db-IsSound : (now : ℕ) → IsSound (initial_db c.Hash now)
  unfolding initial_db new_row count_enabled_admins count_rows is_enabled_admin
  initial_db-IsSound now = record {
    secure = record {
      unique = (tt, tt);
      some_admin = omega arith;
      passwords = inr refl;
      secured = λ on. cc;
    };
    live = tt;
  }

  sessions-IsSound :
      (db : Db c.Hash) (token : Option Str) (now : ℕ)
      → IsSound db
      → IsSound (record db { sessions = (session_of c.hash_token token now db.sessions).1 })
  unfolding session_of
  sessions-IsSound db none now s = record { secure = s.secure; live = s.live }
  sessions-IsSound db (some []) now s = record { secure = s.secure; live = s.live }
  sessions-IsSound db (some (x ∷ xs)) now s = record {
    secure = s.secure;
    live = find_valid-AllLive db.users (c.hash_token (x ∷ xs)) now db.sessions s.live;
  }

  end_session-AllLive :
      (db : Db c.Hash) (token : Option Str)
      → IsSound db
      → AllLive db.users (end_session c token db.sessions)
  unfolding end_session
  end_session-AllLive db none s = s.live
  end_session-AllLive db (some []) s = s.live
  end_session-AllLive db (some (x ∷ xs)) s =
      delete_session-All (IsLive db.users) (c.hash_token (x ∷ xs)) db.sessions s.live

  who_am_i-IsSound :
      (draws : Draws) (token : Option Str) (db : Db c.Hash)
      → IsSound db
      → IsSound (who_am_i c draws token db).1
  unfolding who_am_i
  who_am_i-IsSound draws token db s =
      either-IsSound db.auth_enabled _ _ (sessions-IsSound db token draws.now s) s

  as_admin-IsSound :
      (acting : Option ℕ) (db : Db c.Hash) (result : Reply × Db c.Hash)
      → IsSound db
      → IsSound result.1
      → IsSound (if require_admin acting db then result else (status 403, db)).1
  as_admin-IsSound acting db result s t = either-IsSound (require_admin acting db) result _ t s

  handle_call-IsSound :
      (draws : Draws) (acting : Option ℕ) (cookie : Option Str) (call : Call) (db : Db c.Hash)
      → IsSound db
      → IsSound (handle_call c draws acting cookie call db).1
  unfolding handle_call
  handle_call-IsSound draws acting cookie (login_call body) db s =
      login_service-IsSound c _ _ _ _ db s
  handle_call-IsSound draws acting cookie logout db s = record {
    secure = s.secure;
    live = end_session-AllLive db (parse_cookie cookie session_cookie) s;
  }
  handle_call-IsSound draws acting cookie me db s =
      who_am_i-IsSound draws (parse_cookie cookie session_cookie) db s
  handle_call-IsSound draws acting cookie (change_password body) db s =
      change_own_password-IsSound c draws acting body db s
  handle_call-IsSound draws acting cookie enable db s =
      as_admin-IsSound acting db _ s (enable_auth-IsSound c db s)
  handle_call-IsSound draws acting cookie disable db s =
      as_admin-IsSound acting db _ s (disabled-IsSound db s)
  handle_call-IsSound draws acting cookie list_call db s = as_admin-IsSound acting db _ s s
  handle_call-IsSound draws acting cookie (create_call body) db s =
      as_admin-IsSound acting db _ s (create_account-IsSound c draws body db s)
  handle_call-IsSound draws acting cookie (patch_call id_text id body) db s =
      as_admin-IsSound acting db _ s (patch_user-IsSound c draws id body db s)
  handle_call-IsSound draws acting cookie (delete_call id_text id) db s =
      as_admin-IsSound acting db _ s (delete_user-IsSound id db s)
  handle_call-IsSound draws acting cookie (users_path pathname) db s =
      as_admin-IsSound acting db _ s s
  handle_call-IsSound draws acting cookie (elsewhere pathname) db s = s

  auth_gate-IsSound :
      (pathname : Str) (cookie : Option Str) (now : ℕ) (db : Db c.Hash)
      → IsSound db
      → IsSound (auth_gate c pathname cookie now db).1
  unfolding auth_gate check_user
  auth_gate-IsSound pathname cookie now db s =
      either-IsSound db.auth_enabled _ _
        (either-IsSound (is_allowlisted pathname) _ _ s
          (sessions-IsSound db (parse_cookie cookie session_cookie) now s))
        s

  after_gate-IsSound :
      (draws : Draws) (cookie : Option Str) (call : Call) (gated : Gated) (db : Db c.Hash)
      → IsSound db
      → IsSound (after_gate c draws cookie call (gated, db)).1
  unfolding after_gate
  after_gate-IsSound draws cookie call (through acting) db s =
      handle_call-IsSound draws acting cookie call db s
  after_gate-IsSound draws cookie call unauthorized db s = s
  after_gate-IsSound draws cookie call login_page db s = s

  serve-IsSound :
      (draws : Draws) (cookie : Option Str) (call : Call) (db : Db c.Hash)
      → IsSound db
      → IsSound (serve c draws cookie call db).1
  unfolding serve
  serve-IsSound draws cookie call db s =
      let gated = auth_gate c (path_of call) cookie draws.now db in
      after_gate-IsSound draws cookie call gated.0 gated.1
        (auth_gate-IsSound (path_of call) cookie draws.now db s)

pub Reachable-IsSound : (c : Crypto) {db : Db c.Hash} → Reachable c db → IsSound db
Reachable-IsSound c (started now) = initial_db-IsSound c now
Reachable-IsSound c (served draws cookie call r) =
    serve-IsSound c draws cookie call _ (Reachable-IsSound c r)

-- In every state that requests, one after the other, lead to from the first start, some admin is
-- enabled, and if auth is on, some enabled admin has a password.
pub Reachable-has_admin :
    (c : Crypto) (db : Db c.Hash)
    → Reachable c db
    → (1 ≤ count_enabled_admins db.users)
      × (db.auth_enabled ≡ true → 1 ≤ count_enabled_admins_with_password db.users)
Reachable-has_admin c db r =
    let s = (Reachable-IsSound c r).secure in
    (s.some_admin, λ on. omega (arith, count-with_password db.users (s.secured on), s.some_admin))

-- In every state that requests lead to from the first start, each session belongs to a user who
-- exists and is enabled, and ends 30 days after it was last seen.
pub Reachable-AllLive :
    (c : Crypto) (db : Db c.Hash) → Reachable c db → AllLive db.users db.sessions
Reachable-AllLive c db r = (Reachable-IsSound c r).live
