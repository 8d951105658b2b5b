-- ===== src/Accounts/Patching.antt =====
-- A PATCH of a user, as one change of its row, keeps the tables sound.
use proxmoxwhatsapp.Prelude.{
  ℕ, List, [], ◌∷◌, Bool, true, false, Option, none, some, Bool-cases, ◌≡◌, inl, inr, refl, sym, ap,
  ◌∙◌, arith,
}
use proxmoxwhatsapp.Subnet.Text.{Str}
use proxmoxwhatsapp.Web.Text.{codes, eq_str}
use proxmoxwhatsapp.Auth.{cleared_state}
use proxmoxwhatsapp.Accounts.{
  Role, UserRow, Db, update_where, with_password, with_role, with_disabled, with_lockout,
  is_enabled_admin, is_admin, has_hash,
}
use proxmoxwhatsapp.Accounts.Rows.{KeepsId, update_where-update_where, update_where-id}
use proxmoxwhatsapp.Accounts.Admins.{KeepsHash}
use proxmoxwhatsapp.Accounts.Live.{KeepsEnabled}
use proxmoxwhatsapp.Accounts.Login.{Crypto}
use proxmoxwhatsapp.Accounts.Api.{
  Json, absent, other, text, flag, Body, Draws, role_of, is_true, text_or_blank, patch_role,
  patch_password, patch_disabled, patch_unlock,
}

module _ (c : Crypto) where
  -- What the fields of the body do to the row.
  pub role_change : Option Role → UserRow c.Hash → UserRow c.Hash
  role_change none row = row
  role_change (some role) row = with_role role row

  pub password_change : Str → Json → UserRow c.Hash → UserRow c.Hash
  password_change salt (text (x ∷ xs)) row = with_password (c.hash_password salt (x ∷ xs)) row
  password_change salt _ row = row

  pub disabled_change : Json → UserRow c.Hash → UserRow c.Hash
  disabled_change (flag disabled) row = with_disabled disabled row
  disabled_change _ row = row

  pub unlock_change : Bool → UserRow c.Hash → UserRow c.Hash
  unlock_change true row = with_lockout cleared_state row
  unlock_change false row = row

  patch_role-eq :
      (id : ℕ) (role : Option Role) (users : List (UserRow c.Hash))
      → patch_role id role users ≡ update_where id (role_change role) users
  unfolding patch_role role_change
  patch_role-eq id none users = sym (update_where-id id users)
  patch_role-eq id (some role) users = refl

  patch_password-eq :
      (id : ℕ) (salt : Str) (password : Json) (users : List (UserRow c.Hash))
      → patch_password c id salt password users
        ≡ update_where id (password_change salt password) users
  unfolding patch_password password_change
  patch_password-eq id salt (text (x ∷ xs)) users = refl
  patch_password-eq id salt (text []) users = sym (update_where-id id users)
  patch_password-eq id salt absent users = sym (update_where-id id users)
  patch_password-eq id salt other users = sym (update_where-id id users)
  patch_password-eq id salt (flag b) users = sym (update_where-id id users)

  patch_unlock-eq :
      (id : ℕ) (unlock : Bool) (users : List (UserRow c.Hash))
      → patch_unlock id unlock users ≡ update_where id (unlock_change unlock) users
  unfolding patch_unlock unlock_change
  patch_unlock-eq id true users = refl
  patch_unlock-eq id false users = sym (update_where-id id users)

  role_change-keeps :
      (role : Option Role)
      → KeepsId (role_change role) × KeepsHash (role_change role) × KeepsEnabled (role_change role)
  unfolding role_change with_role has_hash
  role_change-keeps none = ((λ row. refl), (λ row h. h), (λ row h. h))
  role_change-keeps (some role) = ((λ row. refl), (λ row h. h), (λ row h. h))

  password_change-keeps :
      (salt : Str) (password : Json)
      → KeepsId (password_change salt password)
        × KeepsHash (password_change salt password)
        × KeepsEnabled (password_change salt password)
  unfolding password_change with_password has_hash
  password_change-keeps salt (text (x ∷ xs)) = ((λ row. refl), (λ row h. refl), (λ row h. h))
  password_change-keeps salt (text []) = ((λ row. refl), (λ row h. h), (λ row h. h))
  password_change-keeps salt absent = ((λ row. refl), (λ row h. h), (λ row h. h))
  password_change-keeps salt other = ((λ row. refl), (λ row h. h), (λ row h. h))
  password_change-keeps salt (flag b) = ((λ row. refl), (λ row h. h), (λ row h. h))

  disabled_change-keeps :
      (json : Json) → KeepsId (disabled_change json) × KeepsHash (disabled_change json)
  unfolding disabled_change with_disabled has_hash
  disabled_change-keeps (flag b) = ((λ row. refl), (λ row h. h))
  disabled_change-keeps absent = ((λ row. refl), (λ row h. h))
  disabled_change-keeps other = ((λ row. refl), (λ row h. h))
  disabled_change-keeps (text t) = ((λ row. refl), (λ row h. h))

  pub unlock_change-keeps :
      (unlock : Bool)
      → KeepsId (unlock_change unlock)
        × KeepsHash (unlock_change unlock)
        × KeepsEnabled (unlock_change unlock)
  unfolding unlock_change with_lockout has_hash
  unlock_change-keeps true = ((λ row. refl), (λ row h. h), (λ row h. h))
  unlock_change-keeps false = ((λ row. refl), (λ row h. h), (λ row h. h))

  -- The change before the field `disabled`, and the whole.
  abbrev pub renewed : Draws → Body → UserRow c.Hash → UserRow c.Hash
  renewed draws body row =
      password_change draws.salt body.password (role_change (role_of body.role) row)

  abbrev pub patched : Draws → Body → UserRow c.Hash → UserRow c.Hash
  patched draws body row =
      unlock_change (is_true body.unlock) (disabled_change body.disabled (renewed draws body row))

  patch_disabled-users :
      (id : ℕ) (json : Json) (db : Db c.Hash)
      → (patch_disabled id json db).users ≡ update_where id (disabled_change json) db.users
  unfolding patch_disabled disabled_change
  patch_disabled-users id (flag b) db = refl
  patch_disabled-users id absent db = sym (update_where-id id db.users)
  patch_disabled-users id other db = sym (update_where-id id db.users)
  patch_disabled-users id (text t) db = sym (update_where-id id db.users)

  renewed-KeepsId : (draws : Draws) (body : Body) → KeepsId (renewed draws body)
  renewed-KeepsId draws body row =
      (password_change-keeps draws.salt body.password).0 _
      ∙ (role_change-keeps (role_of body.role)).0 row

  pub disabled-KeepsId :
      (draws : Draws) (body : Body)
      → KeepsId (λ row. disabled_change body.disabled (renewed draws body row))
  disabled-KeepsId draws body row =
      (disabled_change-keeps body.disabled).0 _ ∙ renewed-KeepsId draws body row

  pub patched-KeepsId : (draws : Draws) (body : Body) → KeepsId (patched draws body)
  patched-KeepsId draws body row =
      (unlock_change-keeps (is_true body.unlock)).0 _ ∙ disabled-KeepsId draws body row

  pub patched-KeepsHash : (draws : Draws) (body : Body) → KeepsHash (patched draws body)
  patched-KeepsHash draws body row h = (unlock_change-keeps (is_true body.unlock)).1 _ (
      (disabled_change-keeps body.disabled).1 _ (
        (password_change-keeps draws.salt body.password).1 _
          ((role_change-keeps (role_of body.role)).1 row h)))

  pub renewed-KeepsEnabled : (draws : Draws) (body : Body) → KeepsEnabled (renewed draws body)
  renewed-KeepsEnabled draws body row h =
      (password_change-keeps draws.salt body.password).2 _
        ((role_change-keeps (role_of body.role)).2 row h)

  patched-users :
      (draws : Draws) (body : Body) (id : ℕ) (users : List (UserRow c.Hash))
      → update_where id (unlock_change (is_true body.unlock)) (
          update_where id (disabled_change body.disabled) (
            update_where id
              (password_change draws.salt body.password)
              (update_where id (role_change (role_of body.role)) users)))
        ≡ update_where id (patched draws body) users
  patched-users draws body id users =
      ap
        (λ us.
          update_where id (unlock_change (is_true body.unlock))
            (update_where id (disabled_change body.disabled) us))
        (update_where-update_where id (password_change draws.salt body.password)
          (role_change (role_of body.role)) users (role_change-keeps (role_of body.role)).0)
      ∙ ap (λ us. update_where id (unlock_change (is_true body.unlock)) us)
          (update_where-update_where id (disabled_change body.disabled) (renewed draws body) users
            (renewed-KeepsId draws body))
      ∙ update_where-update_where id (unlock_change (is_true body.unlock))
          (λ row. disabled_change body.disabled (renewed draws body row)) users
          (disabled-KeepsId draws body)

  -- The users after a PATCH that is not refused.
  pub after-users :
      (draws : Draws) (body : Body) (id : ℕ) (db : Db c.Hash)
      → patch_unlock id
          (is_true body.unlock)
          (patch_disabled id body.disabled (record db {
            users =
                patch_password c id draws.salt body.password
                  (patch_role id (role_of body.role) db.users);
          })).users
        ≡ update_where id (patched draws body) db.users
  after-users draws body id db =
      patch_unlock-eq id (is_true body.unlock) _
      ∙ ap (update_where id (unlock_change (is_true body.unlock))) (
          patch_disabled-users id body.disabled _
          ∙ ap (update_where id (disabled_change body.disabled)) (
              patch_password-eq id draws.salt body.password _
              ∙ ap (update_where id (password_change draws.salt body.password))
                  (patch_role-eq id (role_of body.role) db.users)))
      ∙ patched-users draws body id db.users

  role_stays :
      (role : Json) (row : UserRow c.Hash)
      → is_admin row.role ≡ true
      → eq_str (text_or_blank role) (codes "user") ≡ false
      → is_admin (role_change (role_of role) row).role ≡ true
  unfolding role_change with_role
  role_stays absent row a n = a
  role_stays other row a n = a
  role_stays (flag b) row a n = a
  role_stays (text s) row a n = elim (Bool-cases (eq_str s (codes "admin"))) [
    | inl e ↦ rw (n, e) refl
    | inr e ↦ rw (n, e) a
  ]

  pub enabled_stays :
      (json : Json) (row : UserRow c.Hash)
      → row.account.disabled ≡ false
      → is_true json ≡ false
      → (disabled_change json row).account.disabled ≡ false
  unfolding disabled_change with_disabled
  enabled_stays absent row d n = d
  enabled_stays other row d n = d
  enabled_stays (text s) row d n = d
  enabled_stays (flag b) row d n = n

  password_change-role :
      (salt : Str) (json : Json) (row : UserRow c.Hash)
      → (password_change salt json row).role ≡ row.role
  unfolding password_change with_password
  password_change-role salt absent row = refl
  password_change-role salt other row = refl
  password_change-role salt (flag b) row = refl
  password_change-role salt (text []) row = refl
  password_change-role salt (text (x ∷ xs)) row = refl

  disabled_change-role :
      (json : Json) (row : UserRow c.Hash) → (disabled_change json row).role ≡ row.role
  unfolding disabled_change with_disabled
  disabled_change-role absent row = refl
  disabled_change-role other row = refl
  disabled_change-role (text s) row = refl
  disabled_change-role (flag b) row = refl

  unlock_change-role : (b : Bool) (row : UserRow c.Hash) → (unlock_change b row).role ≡ row.role
  unfolding unlock_change with_lockout
  unlock_change-role true row = refl
  unlock_change-role false row = refl

  pub patched-is_enabled_admin :
      (draws : Draws) (body : Body) (row : UserRow c.Hash)
      → is_enabled_admin row ≡ true
      → is_true body.disabled ≡ false
      → eq_str (text_or_blank body.role) (codes "user") ≡ false
      → is_enabled_admin (patched draws body row) ≡ true
  unfolding is_enabled_admin
  patched-is_enabled_admin draws body row a d r =
      let role : is_admin (patched draws body row).role ≡ true =
        ap is_admin (
          unlock_change-role (is_true body.unlock) _
          ∙ disabled_change-role body.disabled _
          ∙ password_change-role draws.salt body.password _)
        ∙ role_stays body.role row (ground arith) r in
      let on : (patched draws body row).account.disabled ≡ false =
        (unlock_change-keeps (is_true body.unlock)).2 _
          (enabled_stays body.disabled _ (renewed-KeepsEnabled draws body row (ground arith)) d) in
      rw (role, on) refl
