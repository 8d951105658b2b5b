-- ===== src/Accounts/Enrolled.antt =====
-- The first user's lockdown, further users, and changes of a password keep the tables sound.
use proxmoxwhatsapp.Prelude.{
  ℕ, ◌≤◌, List, length, All, Bool, true, false, Option, none, some, Bool-cases, Option-cases, ◌≡◌,
  inl, inr, refl, sym, ap, ◌∙◌, arith, if◌then◌else◌, leb, leb→le, ◌==◌,
}
use mathlib.Core.Path.{subst}
use proxmoxwhatsapp.Subnet.Text.{Str}
use proxmoxwhatsapp.Accounts.{
  Role, UserRow, Session, Db, implicit_admin_id, get_by_id, update_where, with_password,
  with_username, set_username, create_user, is_enabled_admin, has_hash,
  count_enabled_admins_with_password,
}
use proxmoxwhatsapp.Accounts.Rows.{get_by_id-id, update_where-update_where, get_by_id-update_self}
use proxmoxwhatsapp.Accounts.Admins.{
  HasHash, IsSecure, update_where-IsSecure, single, with_password-HasHash,
}
use proxmoxwhatsapp.Accounts.Live.{AllLive, update_where-AllLive}
use proxmoxwhatsapp.Accounts.Login.{Crypto, LockdownParams, lockdown_users, lockdown}
use proxmoxwhatsapp.Accounts.Api.{
  Body, Draws, Reply, text_or_blank, resolve_user_id, lockdown_params, lockdown_answer,
  create_answer, new_role, first_user, further_user, create_account, change_row,
  change_own_password, enable_auth,
}
use proxmoxwhatsapp.Accounts.Steps.{IsSound, update_where-IsSound}
use proxmoxwhatsapp.Accounts.Enrolment.{set_username-eq, added-IsSound}

module _ {Hash : Type 0} where
  -- A refusal leaves the tables as they are.
  pub kept_or :
      (refused : Bool) (db : Db Hash) (reply : Reply) (result : Reply × Db Hash)
      → IsSound db
      → IsSound result.1
      → IsSound (if refused then (reply, db) else result).1
  kept_or true db reply result s t = s
  kept_or false db reply result s t = t

module _ (c : Crypto) where
  -- The two statements on the implicit admin.
  abbrev pub named_and_secured : Str → c.Hash → UserRow c.Hash → UserRow c.Hash
  named_and_secured name hash row = with_password hash (with_username name row)

  secured_users :
      (name : Str) (hash : c.Hash) (users renamed : List (UserRow c.Hash))
      → set_username implicit_admin_id name users ≡ some renamed
      → update_where implicit_admin_id (with_password hash) renamed
        ≡ update_where implicit_admin_id (named_and_secured name hash) users
  unfolding with_username
  secured_users name hash users renamed e =
      ap (update_where implicit_admin_id (with_password hash))
        (set_username-eq c implicit_admin_id name users renamed e)
      ∙ update_where-update_where implicit_admin_id (with_password hash) (with_username name) users
          (λ row. refl)

  -- After them everybody has a password.
  secured-IsSecure :
      (name : Str) (hash : c.Hash) (users : List (UserRow c.Hash)) (auth : Bool)
      (row : UserRow c.Hash)
      → get_by_id implicit_admin_id users ≡ some row
      → IsSecure users auth
      → IsSecure (update_where implicit_admin_id (named_and_secured name hash) users) auth
        × All HasHash (update_where implicit_admin_id (named_and_secured name hash) users)
  unfolding with_password with_username has_hash is_enabled_admin
  secured-IsSecure name hash users auth row g s =
      let f = named_and_secured name hash in
      let users' = update_where implicit_admin_id f users in
      let s' : IsSecure users' auth =
        update_where-IsSecure implicit_admin_id f users auth row (λ r. refl) (λ r h. refl) g
          (λ a. inr a) s in
      let all : All HasHash users' = elim s'.passwords [
        | inl all ↦ all
        | inr one ↦
            subst (λ us. All HasHash us)
              (sym (
                single implicit_admin_id users' (f row) one
                  (get_by_id-update_self implicit_admin_id f users row (λ r. refl) g)))
              (refl, tt)
      ] in
      (s', all)

  secured-AllLive :
      (name : Str) (hash : c.Hash) (users : List (UserRow c.Hash)) (sessions : List Session)
      → AllLive users sessions
      → AllLive (update_where implicit_admin_id (named_and_secured name hash) users) sessions
  unfolding with_password with_username
  secured-AllLive name hash users sessions l =
      update_where-AllLive implicit_admin_id (named_and_secured name hash) users sessions
        (λ r. refl) (λ r h. h) l

  lockdown_users-IsSound :
      (p : LockdownParams) (admin_salt user_salt : Str) (now : ℕ)
      (users locked : List (UserRow c.Hash)) (sessions : List Session) (auth : Bool)
      (row : UserRow c.Hash)
      → get_by_id implicit_admin_id users ≡ some row
      → lockdown_users c p admin_salt user_salt now users ≡ some locked
      → IsSecure users auth
      → AllLive users sessions
      → IsSecure locked true × AllLive locked sessions
  unfolding lockdown_users
  lockdown_users-IsSound p admin_salt user_salt now users locked sessions auth row g e s l =
      elim (Option-cases (set_username implicit_admin_id p.admin_username users)) [
        | inl n ↦ absurd (ground arith)
        | inr (renamed, n) ↦
            elim (Option-cases (
              create_user p.new_username p.new_role
                (some (c.hash_password user_salt p.new_password)) now
                (update_where implicit_admin_id
                  (with_password (c.hash_password admin_salt p.admin_password)) renamed))) [
                    | inl m ↦ absurd (ground arith)
                    | inr ((id, added), m) ↦
                        let hash = c.hash_password admin_salt p.admin_password in
                        let users' = update_where implicit_admin_id (with_password hash) renamed in
                        let ready : (IsSecure users' auth × All HasHash users')
                            × AllLive users' sessions =
                          subst (λ us. (IsSecure us auth × All HasHash us) × AllLive us sessions)
                            (sym (secured_users p.admin_username hash users renamed n))
                            (
                              secured-IsSecure p.admin_username hash users auth row g s,
                              secured-AllLive p.admin_username hash users sessions l,
                            ) in
                        let same : added ≡ locked = ground arith in
                        subst (λ us. IsSecure us true × AllLive us sessions) same
                          (added-IsSound c p.new_username p.new_role
                            (c.hash_password user_salt p.new_password) now users' added sessions id
                            auth true m ready.0.1 ready.0.0 ready.1)
                  ]
      ]

  pub enable_auth-IsSound : (db : Db c.Hash) → IsSound db → IsSound (enable_auth c db).1
  unfolding enable_auth
  enable_auth-IsSound db s =
      elim (Bool-cases (leb 1 (count_enabled_admins_with_password db.users))) [
        | inl e ↦
            let all = with_password-HasHash db.users db.auth_enabled s.secure (leb→le 1 _ e) in
            rw e (record {
              secure = record {
                unique = s.secure.unique;
                some_admin = s.secure.some_admin;
                passwords = inl all;
                secured = λ on. all;
              };
              live = s.live;
            })
        | inr e ↦ rw e s
      ]

  new_password-IsSound :
      (hash : c.Hash) (row : UserRow c.Hash) (db : Db c.Hash)
      → get_by_id row.id db.users ≡ some row
      → IsSound db
      → IsSound (record db { users = update_where row.id (with_password hash) db.users })
  unfolding with_password has_hash is_enabled_admin
  new_password-IsSound hash row db g s =
      update_where-IsSound row.id (with_password hash) db row (λ r. refl) (λ r h. refl) (λ r h. h) g
        (λ a. inr a) s

  change_row-IsSound :
      (draws : Draws) (body : Body) (row : UserRow c.Hash) (db : Db c.Hash)
      → get_by_id row.id db.users ≡ some row
      → IsSound db
      → IsSound (change_row c draws body row db).1
  unfolding change_row
  change_row-IsSound draws body row db g s = elim (Option-cases row.account.password_hash) [
    | inl e ↦ rw (e, change_row) s
    | inr (hash, e) ↦
        elim (Bool-cases (c.verify_password (text_or_blank body.current_password) hash)) [
          | inl v ↦ rw (e, v, change_row) (new_password-IsSound _ row db g s)
          | inr v ↦ rw (e, v, change_row) s
        ]
  ]

  pub change_own_password-IsSound :
      (draws : Draws) (acting : Option ℕ) (body : Body) (db : Db c.Hash)
      → IsSound db
      → IsSound (change_own_password c draws acting body db).1
  unfolding change_own_password
  change_own_password-IsSound draws acting body db s =
      elim (Bool-cases (length (text_or_blank body.new_password) == 0)) [
        | inl e ↦ rw e s
        | inr e ↦ elim (Option-cases (get_by_id (resolve_user_id acting) db.users)) [
          | inl n ↦ rw (e, n, change_own_password) s
          | inr (row, n) ↦
              rw (e, n, change_own_password)
                (change_row-IsSound draws body row db
                  (subst (λ x. get_by_id x db.users ≡ some row)
                    (sym (get_by_id-id (resolve_user_id acting) db.users row n)) n)
                  s)
        ]
      ]

  -- A lockdown that is not refused leaves sound tables with auth on.
  pub lockdown-IsSound :
      (p : LockdownParams) (admin_salt user_salt : Str) (now : ℕ) (db after : Db c.Hash)
      → lockdown c p admin_salt user_salt now db ≡ some after
      → IsSound db
      → IsSound after
  unfolding lockdown
  lockdown-IsSound p admin_salt user_salt now db after e s =
      elim (Option-cases (get_by_id implicit_admin_id db.users)) [
        | inl n ↦ absurd (ground arith)
        | inr (row, n) ↦ elim (Option-cases row.account.password_hash) [
          | inr (hash, m) ↦ absurd (ground arith)
          | inl m ↦ elim (Option-cases (lockdown_users c p admin_salt user_salt now db.users)) [
            | inl k ↦ absurd (ground arith)
            | inr (users, k) ↦
                let same : record db { users = users; auth_enabled = true } ≡ after =
                  ground arith in
                let (secure, live) =
                  lockdown_users-IsSound p admin_salt user_salt now db.users users db.sessions
                    db.auth_enabled row n k s.secure s.live in
                subst IsSound same (record { secure = secure; live = live })
          ]
        ]
      ]

  lockdown_answer-IsSound :
      (p : LockdownParams) (admin_salt user_salt : Str) (now : ℕ) (db : Db c.Hash)
      (result : Option (Db c.Hash))
      → lockdown c p admin_salt user_salt now db ≡ result
      → IsSound db
      → IsSound (lockdown_answer c result db).1
  lockdown_answer-IsSound p admin_salt user_salt now db none e s = s
  lockdown_answer-IsSound p admin_salt user_salt now db (some after) e s =
      lockdown-IsSound p admin_salt user_salt now db after e s

  first_user-IsSound :
      (draws : Draws) (body : Body) (db : Db c.Hash)
      → IsSound db
      → IsSound (first_user c draws body db).1
  unfolding first_user
  first_user-IsSound draws body db s = kept_or _ db _ _ s (
      lockdown_answer-IsSound (lockdown_params c body) draws.admin_salt draws.salt draws.now db
        (lockdown c (lockdown_params c body) draws.admin_salt draws.salt draws.now db) refl s)

  create_answer-IsSound :
      (name : Str) (role : Role) (hash : c.Hash) (now : ℕ) (db : Db c.Hash)
      (result : Option (ℕ × List (UserRow c.Hash)))
      → create_user name role (some hash) now db.users ≡ result
      → All HasHash db.users
      → IsSound db
      → IsSound (create_answer c result db).1
  create_answer-IsSound name role hash now db none e all s = s
  create_answer-IsSound name role hash now db (some (id, users)) e all s =
      let (secure, live) =
        added-IsSound c name role hash now db.users users db.sessions id db.auth_enabled
          db.auth_enabled e all s.secure s.live in
      record { secure = secure; live = live }

  further_user-IsSound :
      (draws : Draws) (body : Body) (db : Db c.Hash)
      → 1 ≤ count_enabled_admins_with_password db.users
      → IsSound db
      → IsSound (further_user c draws body db).1
  unfolding further_user
  further_user-IsSound draws body db h s =
      create_answer-IsSound (text_or_blank body.username) (new_role c body.role)
        (c.hash_password draws.salt (text_or_blank body.password)) draws.now db _ refl
        (with_password-HasHash db.users db.auth_enabled s.secure h) s

  pub create_account-IsSound :
      (draws : Draws) (body : Body) (db : Db c.Hash)
      → IsSound db
      → IsSound (create_account c draws body db).1
  unfolding create_account
  create_account-IsSound draws body db s =
      elim (Bool-cases (count_enabled_admins_with_password db.users == 0)) [
        | inl e ↦ rw e (kept_or _ db _ _ s (first_user-IsSound draws body db s))
        | inr e ↦ rw e (kept_or _ db _ _ s (further_user-IsSound draws body db (ground arith) s))
      ]
