-- ===== src/Accounts/FirstUser.antt =====
-- The first user's creation turns auth on, and the admin logs in with what was set there.
use proxmoxwhatsapp.Prelude.{
  ℕ, List, [], ◌∷◌, true, false, Option, none, some, Bool-cases, Option-cases, ◌≡◌, inl, inr, refl,
  sym, ap, ◌∙◌, arith, ◌==◌, ==-refl,
}
use mathlib.Core.Path.{subst}
use proxmoxwhatsapp.Subnet.Text.{Str}
use proxmoxwhatsapp.Auth.{User, LoginResult, logged_in, login, is_locked, has_password}
use proxmoxwhatsapp.Accounts.{
  UserRow, Db, implicit_admin_id, get_by_id, get_by_username, update_where, with_password,
  with_username, set_username, is_name_taken, next_row_id, new_row, create_user, same_name,
  find_session, has_hash, create_session, is_enabled_admin,
}
use proxmoxwhatsapp.Accounts.Rows.{get_by_id-id}
use proxmoxwhatsapp.Accounts.Admins.{HasHash, All-get_by_id, one_admin, single}
use proxmoxwhatsapp.Accounts.Login.{
  Crypto, logged_in_as, finish_login, login_as, login_service, LockdownParams, lockdown_users,
  lockdown,
}
use proxmoxwhatsapp.Accounts.Steps.{IsSound}
use proxmoxwhatsapp.Accounts.Password.{Platform, node_crypto, verify_password-hash_password}

same_name_refl : (s : Str) → same_name s s ≡ true
unfolding same_name
same_name_refl [] = refl
same_name_refl (x ∷ xs) = rw (==-refl _, same_name_refl xs) refl

module _ (c : Crypto) where
  -- The row of the admin after the lockdown.
  abbrev secured_row : LockdownParams → Str → UserRow c.Hash → UserRow c.Hash
  unfolding with_password with_username
  secured_row p salt row =
      with_password (c.hash_password salt p.admin_password) (with_username p.admin_username row)

  -- What the creation of the second row makes of the table of the admin.
  abbrev with_second : LockdownParams → Str → ℕ → UserRow c.Hash → Option (List (UserRow c.Hash))
  with_second p user_salt now row =
      elim (create_user p.new_username p.new_role (some (c.hash_password user_salt p.new_password))
        now (row ∷ [])) [ none ↦ none | some (id, added) ↦ some added ]

  with_second-front :
      (p : LockdownParams) (user_salt : Str) (now : ℕ) (row : UserRow c.Hash)
      (after : List (UserRow c.Hash))
      → with_second p user_salt now row ≡ some after
      → (more : List (UserRow c.Hash)) × (after ≡ row ∷ more)
  unfolding create_user
  with_second-front p user_salt now row after h =
      elim (Bool-cases (is_name_taken (next_row_id (row ∷ [])) p.new_username (row ∷ []))) [
        | inl e ↦ absurd (ground arith)
        | inr e ↦ (
          new_row (next_row_id (row ∷ [])) p.new_username p.new_role
                (some (c.hash_password user_salt p.new_password)) now
              ∷ [],
          ground arith,
        )
      ]

  set_username-alone :
      (name : Str) (row : UserRow c.Hash)
      → (row.id == implicit_admin_id) ≡ true
      → set_username implicit_admin_id name (row ∷ []) ≡ some (with_username name row ∷ [])
  unfolding set_username is_name_taken update_where with_username
  set_username-alone name row e = rw (e, set_username, is_name_taken, update_where) refl

  set_password-alone :
      (hash : c.Hash) (row : UserRow c.Hash)
      → (row.id == implicit_admin_id) ≡ true
      → update_where implicit_admin_id (with_password hash) (row ∷ []) ≡ with_password hash row ∷ []
  unfolding update_where
  set_password-alone hash row e = rw e refl

  lockdown_users-alone :
      (p : LockdownParams) (admin_salt user_salt : Str) (now : ℕ) (row : UserRow c.Hash)
      → (row.id == implicit_admin_id) ≡ true
      → lockdown_users c p admin_salt user_salt now (row ∷ [])
        ≡ with_second p user_salt now (secured_row p admin_salt row)
  unfolding lockdown_users with_username with_password
  lockdown_users-alone p admin_salt user_salt now row e =
      rw (set_username-alone p.admin_username row e, lockdown_users)
        (rw
          (
            set_password-alone (c.hash_password admin_salt p.admin_password)
                (with_username p.admin_username row) e,
            lockdown_users,
          )
          refl)

  -- That a password is verified against its own hash.
  abbrev Verifies : Type 0
  Verifies = (salt plain : Str) → c.verify_password plain (c.hash_password salt plain) ≡ true

  login-secured :
      (p : LockdownParams) (salt : Str) (now : ℕ) (row : UserRow c.Hash)
      → Verifies
      → row.account.disabled ≡ false
      → is_locked row.account.lockout now ≡ false
      → (login c.Hash Str c.verify_password p.admin_password now (secured_row p salt row).account).0
        ≡ logged_in
  unfolding login has_password with_password with_username
  login-secured p salt now row works d k = rw (d, k, works salt p.admin_password) refl

  finish_login-fresh :
      (token : Str) (now id : ℕ) (result : LoginResult) (account : User c.Hash) (db : Db c.Hash)
      → result ≡ logged_in
      → find_session (c.hash_token token) db.sessions ≡ none
      → (finish_login c token now id result account db).0 ≡ logged_in_as id
  unfolding finish_login create_session
  finish_login-fresh token now id result account db e f =
      subst (λ r. (finish_login c token now id r account db).0 ≡ logged_in_as id) (sym e)
        (rw (f, finish_login) refl)

  login_service-first :
      (p : LockdownParams) (salt token : Str) (now : ℕ) (row : UserRow c.Hash)
      (more : List (UserRow c.Hash)) (db : Db c.Hash)
      → Verifies
      → db.users ≡ secured_row p salt row ∷ more
      → row.account.disabled ≡ false
      → is_locked row.account.lockout now ≡ false
      → find_session (c.hash_token token) db.sessions ≡ none
      → (login_service c p.admin_username p.admin_password token now db).0 ≡ logged_in_as row.id
  unfolding login_service login_as get_by_username with_password with_username
  login_service-first p salt token now row more db works e d k f =
      let found : get_by_username p.admin_username db.users ≡ some (secured_row p salt row) =
        ap (get_by_username p.admin_username) e ∙ rw (same_name_refl p.admin_username) refl in
      ap (λ x. (login_as c p.admin_password token now x db).0) found
      ∙ finish_login-fresh token now row.id _ _ db (login-secured p salt now row works d k) f

  lockdown-parts :
      (p : LockdownParams) (admin_salt user_salt : Str) (now : ℕ) (db after : Db c.Hash)
      (row : UserRow c.Hash)
      → get_by_id implicit_admin_id db.users ≡ some row
      → lockdown c p admin_salt user_salt now db ≡ some after
      → (users : List (UserRow c.Hash)) × (has_hash row ≡ false)
        × (lockdown_users c p admin_salt user_salt now db.users ≡ some users)
        × (record db { users = users; auth_enabled = true } ≡ after)
  unfolding lockdown has_hash
  lockdown-parts p admin_salt user_salt now db after row g h =
      elim (Option-cases row.account.password_hash) [
        | inl e ↦ elim (Option-cases (lockdown_users c p admin_salt user_salt now db.users)) [
          | inl q ↦ absurd (ground arith)
          | inr (users, q) ↦ (users, rw e refl, q, ground arith)
        ]
        | inr (hash, e) ↦ absurd (ground arith)
      ]

  -- A first table has the admin alone.
  alone :
      (db : Db c.Hash) (row : UserRow c.Hash)
      → IsSound db
      → get_by_id implicit_admin_id db.users ≡ some row
      → has_hash row ≡ false
      → (db.users ≡ row ∷ []) × (row.account.disabled ≡ false)
  unfolding is_enabled_admin
  alone db row s g h = elim s.secure.passwords [
    | inl all ↦ absurd (ground (arith, All-get_by_id HasHash implicit_admin_id db.users row all g))
    | inr one ↦
        let e = single implicit_admin_id db.users row one g in
        (e, ground (arith, (one_admin db.users row e s.secure.some_admin).0))
  ]

  secured_login :
      (p : LockdownParams) (admin_salt user_salt token : Str) (now later : ℕ) (row : UserRow c.Hash)
      (db after : Db c.Hash)
      → Verifies
      → IsSound db
      → get_by_id implicit_admin_id db.users ≡ some row
      → is_locked row.account.lockout later ≡ false
      → find_session (c.hash_token token) db.sessions ≡ none
      → lockdown c p admin_salt user_salt now db ≡ some after
      → (after.auth_enabled ≡ true)
        × ((login_service c p.admin_username p.admin_password token later after).0
            ≡ logged_in_as implicit_admin_id)
  secured_login p admin_salt user_salt token now later row db after works s g k f h =
      let (users, bare, made, e) = lockdown-parts p admin_salt user_salt now db after row g h in
      let (only, enabled) = alone db row s g bare in
      let same = get_by_id-id implicit_admin_id db.users row g in
      let row_key : (row.id == implicit_admin_id) ≡ true =
        ap (λ i. i == implicit_admin_id) same ∙ ==-refl implicit_admin_id in
      let (more, front) = with_second-front p user_salt now (secured_row p admin_salt row) users (
        sym (lockdown_users-alone p admin_salt user_salt now row row_key)
        ∙ (ap (lockdown_users c p admin_salt user_salt now) (sym only) ∙ made)) in
      subst
        (λ d.
          (d.auth_enabled ≡ true)
          × ((login_service c p.admin_username p.admin_password token later d).0
              ≡ logged_in_as implicit_admin_id))
        e
        (
          refl,
          login_service-first p admin_salt token later row more
                (record db { users = users; auth_enabled = true }) works front enabled k f
              ∙ ap logged_in_as same,
        )

-- When the lockdown of a sound state succeeds, with password.ts over Node's scrypt and Base64, auth
-- is on, and the first admin's login by the new name and password works, provided that the row was
-- not locked out and the token is new.
pub lockdown-login_service :
    (node : Platform) (p : LockdownParams) (admin_salt user_salt token : Str) (now later : ℕ)
    (row : UserRow Str) (db after : Db Str)
    → IsSound db
    → get_by_id implicit_admin_id db.users ≡ some row
    → is_locked row.account.lockout later ≡ false
    → find_session (node.hash_token token) db.sessions ≡ none
    → lockdown (node_crypto node) p admin_salt user_salt now db ≡ some after
    → (after.auth_enabled ≡ true)
      × ((login_service (node_crypto node) p.admin_username p.admin_password token later after).0
          ≡ logged_in_as implicit_admin_id)
lockdown-login_service node p admin_salt user_salt token now later row db after s g k f h =
    secured_login (node_crypto node) p admin_salt user_salt token now later row db after
      (λ salt plain. (verify_password-hash_password node salt plain plain).1 refl) s g k f h
