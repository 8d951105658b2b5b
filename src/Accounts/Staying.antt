-- ===== src/Accounts/Staying.antt =====
-- Who logs in gets through the gate, and stays in while asking at least every thirty days.
use proxmoxwhatsapp.Prelude.{ℕ, ◌+◌, ◌<◌, List, [], ◌∷◌, true, false, Option, ◌≡◌, refl}
use proxmoxwhatsapp.Subnet.Text.{Str}
use proxmoxwhatsapp.Web.Cookie.{parse_cookie}
use proxmoxwhatsapp.Accounts.{Db, session_ttl_ms}
use proxmoxwhatsapp.Accounts.Login.{Crypto}
use proxmoxwhatsapp.Accounts.Gate.{
  session_cookie, is_allowlisted, session_of, check_user, auth_gate,
}
use proxmoxwhatsapp.Accounts.Api.{Draws, elsewhere, Reply, serve}

-- Requests for pages and APIs behind the two account handlers, each with what the server draws for
-- it and its path: none is for a listed path, and each comes less than thirty days after the one
-- before.
abbrev pub Spaced : ℕ → List (Draws × Str) → Type 0
Spaced last [] = Unit {0}
Spaced last ((draws, pathname) ∷ visits) =
    (draws.now < last + session_ttl_ms)
    × (is_allowlisted pathname ≡ false)
    × Spaced draws.now visits

module _ (c : Crypto) where
  -- The server's answers to such requests, one after the other.
  unfoldable pub visit_all : Option Str → List (Draws × Str) → Db c.Hash → List Reply
  visit_all cookie [] db = []
  visit_all cookie ((draws, pathname) ∷ visits) db =
      let (reply, db') = serve c draws cookie (elsewhere pathname) db in
      reply ∷ visit_all cookie visits db'

  pub guarded_db :
      (pathname : Str) (cookie : Option Str) (now : ℕ) (db : Db c.Hash)
      → db.auth_enabled ≡ true
      → is_allowlisted pathname ≡ false
      → (auth_gate c pathname cookie now db).1 ≡ record db {
        sessions = (session_of c.hash_token (parse_cookie cookie session_cookie) now db.sessions).1;
      }
  unfolding auth_gate check_user
  guarded_db pathname cookie now db on guard = rw (on, guard) refl
