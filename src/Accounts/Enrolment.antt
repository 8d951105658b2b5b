-- ===== src/Accounts/Enrolment.antt =====
-- New users, new passwords and logins keep the tables sound.
use proxmoxwhatsapp.Prelude.{
  ℕ, List, [], ◌∷◌, ◌++◌, All, Bool, false, Option, some, Bool-cases, Option-cases, ◌≡◌, inl, inr,
  refl, sym, arith,
}
use mathlib.Core.Path.{subst}
use proxmoxwhatsapp.Subnet.Text.{Str}
use proxmoxwhatsapp.Auth.{User, LoginResult, logged_in, invalid, account_disabled, locked, login}
use proxmoxwhatsapp.Accounts.{
  Role, UserRow, Session, Db, get_by_id, get_by_username, update_where, with_username, set_username,
  is_name_taken, create_user, new_row, next_row_id, create_session, is_enabled_admin, has_hash,
}
use proxmoxwhatsapp.Accounts.Rows.{get_by_id-update_self}
use proxmoxwhatsapp.Accounts.Admins.{HasHash, IsSecure, append-IsSecure}
use proxmoxwhatsapp.Accounts.Live.{AllLive, append-AllLive, create_session-AllLive}
use proxmoxwhatsapp.Accounts.Login.{Crypto, with_attempt, finish_login, login_as, login_service}
use proxmoxwhatsapp.Accounts.Steps.{IsSound, update_where-IsSound, get_by_username-get_by_id}

module _ (c : Crypto) where
  -- Only an enabled user logs in.
  pub logged_in-enabled :
      (password : Str) (now : ℕ) (account : User c.Hash)
      → (login c.Hash Str c.verify_password password now account).0 ≡ logged_in
      → account.disabled ≡ false
  unfolding login
  logged_in-enabled password now account h = elim (Bool-cases account.disabled) [
    | inl e ↦ absurd (ground arith)
    | inr e ↦ e
  ]

  attempt-IsSound :
      (row : UserRow c.Hash) (account : User c.Hash) (db : Db c.Hash)
      → get_by_id row.id db.users ≡ some row
      → IsSound db
      → IsSound (record db { users = update_where row.id (with_attempt c account) db.users })
  unfolding has_hash is_enabled_admin
  attempt-IsSound row account db g s =
      update_where-IsSound row.id (with_attempt c account) db row (λ r. refl) (λ r h. h) (λ r h. h)
        g (λ a. inr a) s

  session-IsSound :
      (token : Str) (now : ℕ) (row : UserRow c.Hash) (account : User c.Hash) (db : Db c.Hash)
      → get_by_id row.id db.users ≡ some row
      → row.account.disabled ≡ false
      → IsSound db
      → IsSound (finish_login c token now row.id logged_in account db).1
  unfolding finish_login
  session-IsSound token now row account db g d s =
      let s' = attempt-IsSound row account db g s in
      elim (Option-cases (create_session (c.hash_token token) row.id now db.sessions)) [
        | inl e ↦ rw (e, finish_login) s'
        | inr (made, e) ↦
            rw (e, finish_login)
              (record {
                secure = s'.secure;
                live =
                    create_session-AllLive (update_where row.id (with_attempt c account) db.users)
                      (c.hash_token token) now (with_attempt c account row) db.sessions made
                      (get_by_id-update_self row.id (with_attempt c account) db.users row
                        (λ r. refl) g)
                      d e s'.live;
              })
      ]

  finish_login-IsSound :
      (token : Str) (now : ℕ) (row : UserRow c.Hash) (result : LoginResult) (account : User c.Hash)
      (db : Db c.Hash)
      → get_by_id row.id db.users ≡ some row
      → (result ≡ logged_in → row.account.disabled ≡ false)
      → IsSound db
      → IsSound (finish_login c token now row.id result account db).1
  unfolding finish_login
  finish_login-IsSound token now row logged_in account db g d s =
      session-IsSound token now row account db g (d refl) s
  finish_login-IsSound token now row invalid account db g d s = attempt-IsSound row account db g s
  finish_login-IsSound token now row account_disabled account db g d s =
      attempt-IsSound row account db g s
  finish_login-IsSound token now row locked account db g d s = attempt-IsSound row account db g s

  pub login_service-IsSound :
      (username password token : Str) (now : ℕ) (db : Db c.Hash)
      → IsSound db
      → IsSound (login_service c username password token now db).1
  unfolding login_service login_as
  login_service-IsSound username password token now db s =
      elim (Option-cases (get_by_username username db.users)) [
        | inl e ↦ rw (e, login_as) s
        | inr (row, e) ↦
            let account = (login c.Hash Str c.verify_password password now row.account).1 in
            let result = (login c.Hash Str c.verify_password password now row.account).0 in
            rw (e, login_as)
              (finish_login-IsSound token now row result account db
                (get_by_username-get_by_id username db.users row s.secure.unique e)
                (logged_in-enabled password now row.account) s)
      ]

  pub set_username-eq :
      (id : ℕ) (name : Str) (users renamed : List (UserRow c.Hash))
      → set_username id name users ≡ some renamed
      → renamed ≡ update_where id (with_username name) users
  unfolding set_username
  set_username-eq id name users renamed e = elim (Bool-cases (is_name_taken id name users)) [
    | inl t ↦ absurd (ground arith)
    | inr t ↦ ground arith
  ]

  pub create_user-eq :
      (name : Str) (role : Role) (hash : Option c.Hash) (now : ℕ)
      (users added : List (UserRow c.Hash)) (id : ℕ)
      → create_user name role hash now users ≡ some (id, added)
      → added ≡ users ++ (new_row (next_row_id users) name role hash now ∷ [])
  unfolding create_user
  create_user-eq name role hash now users added id e =
      elim (Bool-cases (is_name_taken (next_row_id users) name users)) [
        | inl t ↦ absurd (ground arith)
        | inr t ↦ ground arith
      ]

  -- A new user with a password, where everybody has one.
  pub added-IsSound :
      (name : Str) (role : Role) (hash : c.Hash) (now : ℕ) (users added : List (UserRow c.Hash))
      (sessions : List Session) (id : ℕ) (auth auth' : Bool)
      → create_user name role (some hash) now users ≡ some (id, added)
      → All HasHash users
      → IsSecure users auth
      → AllLive users sessions
      → IsSecure added auth' × AllLive added sessions
  unfolding new_row has_hash
  added-IsSound name role hash now users added sessions id auth auth' e all s l =
      let same = sym (create_user-eq name role (some hash) now users added id e) in
      let row = new_row (next_row_id users) name role (some hash) now in
      (
        subst (λ us. IsSecure us auth') same (append-IsSecure users auth auth' row refl refl all s),
        subst (λ us. AllLive us sessions) same (append-AllLive users (row ∷ []) sessions l),
      )
