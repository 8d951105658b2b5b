-- ===== src/Accounts/Steps.antt =====
-- Each handler keeps the tables sound.
use proxmoxwhatsapp.Prelude.{
  ℕ, ◌≤◌, List, [], ◌∷◌, All, true, false, Option, none, some, Bool-cases, Option-cases, ◌≡◌, ◌≢◌,
  inl, inr, sym, ◌∙◌, arith, ℤ, pos, negsuc, ==-refl, ne→==,
}
use mathlib.Core.Path.{subst}
use proxmoxwhatsapp.Subnet.Text.{Str}
use proxmoxwhatsapp.Accounts.{
  UserRow, Db, get_by_id, get_by_username, update_where, is_enabled_admin, same_name,
  count_enabled_admins,
}
use proxmoxwhatsapp.Accounts.Rows.{UniqueIds, KeepsId, get-here, get-behind, get_by_id-id}
use proxmoxwhatsapp.Accounts.Admins.{
  KeepsHash, IsSecure, LeavesAdmin, update_where-IsSecure, delete_where-IsSecure,
}
use proxmoxwhatsapp.Accounts.Live.{
  AllLive, KeepsEnabled, update_where-AllLive, delete_where-AllLive,
}
use proxmoxwhatsapp.Accounts.Api.{is_last_enabled_admin, find_row, delete_target, delete_user}

pub record IsSound {Hash : Type 0} (db : Db Hash) : Type 0 where
  pub secure : IsSecure db.users db.auth_enabled
  pub live : AllLive db.users db.sessions

module _ {Hash : Type 0} where
  -- One row is changed so that it stays as enabled as it was.
  pub update_where-IsSound :
      (id : ℕ) (f : UserRow Hash → UserRow Hash) (db : Db Hash) (row : UserRow Hash)
      → KeepsId f
      → KeepsHash f
      → KeepsEnabled f
      → get_by_id id db.users ≡ some row
      → LeavesAdmin row (f row) db.users
      → IsSound db
      → IsSound (record db { users = update_where id f db.users })
  update_where-IsSound id f db row k h e g l s = record {
    secure = update_where-IsSecure id f db.users db.auth_enabled row k h g l s.secure;
    live = update_where-AllLive id f db.users db.sessions k e s.live;
  }

  All-get_by_username {κ} :
      (P : UserRow Hash → Type κ) (name : Str) (users : List (UserRow Hash)) (row : UserRow Hash)
      → All P users
      → get_by_username name users ≡ some row
      → P row
  unfolding get_by_username
  All-get_by_username P name [] row h g = absurd cc
  All-get_by_username P name (r ∷ users) row h g = elim (Bool-cases (same_name r.username name)) [
    | inl e ↦ subst P (picked r row (ground arith)) h.0
    | inr e ↦ All-get_by_username P name users row h.1 (ground arith)
  ]
    where
      picked : (a b : UserRow Hash) → some a ≡ some b → a ≡ b
      picked a b q = cc

  -- Who is found by name is found by key.
  pub get_by_username-get_by_id :
      (name : Str) (users : List (UserRow Hash)) (row : UserRow Hash)
      → UniqueIds users
      → get_by_username name users ≡ some row
      → get_by_id row.id users ≡ some row
  unfolding get_by_username
  get_by_username-get_by_id name [] row u g = absurd cc
  get_by_username-get_by_id name (r ∷ users) row u g =
      elim (Bool-cases (same_name r.username name)) [
        | inl e ↦
            subst (λ x. get_by_id x.id (r ∷ users) ≡ some x) (picked r row (ground arith))
              (get-here r.id r users (==-refl r.id))
        | inr e ↦
            let rest : get_by_username name users ≡ some row = ground arith in
            get-behind row.id r users (
              ne→== r.id row.id
                (λ q. All-get_by_username (λ x. x.id ≢ r.id) name users row u.0 rest (sym q)))
            ∙ get_by_username-get_by_id name users row u.1 rest
      ]
    where
      picked : (a b : UserRow Hash) → some a ≡ some b → a ≡ b
      picked a b q = cc

  pub several :
      (target : UserRow Hash) (db : Db Hash)
      → is_enabled_admin target ≡ true
      → is_last_enabled_admin target db ≡ false
      → 2 ≤ count_enabled_admins db.users
  unfolding is_last_enabled_admin is_enabled_admin
  several target db a e = ground arith

  delete_target-IsSound :
      (target : UserRow Hash) (db : Db Hash)
      → get_by_id target.id db.users ≡ some target
      → IsSound db
      → IsSound (delete_target target db).1
  unfolding delete_target is_last_enabled_admin is_enabled_admin
  delete_target-IsSound target db g s = elim (Bool-cases (is_last_enabled_admin target db)) [
    | inl e ↦ rw e s
    | inr e ↦ rw e (record {
      secure =
          delete_where-IsSecure target.id db.users db.auth_enabled target g
            (λ a. several target db a e) s.secure;
      live = delete_where-AllLive target.id db.users db.sessions s.live;
    })
  ]

  pub found_row-get_by_id :
      (id : ℤ) (db : Db Hash) (target : UserRow Hash)
      → find_row id db.users ≡ some target
      → get_by_id target.id db.users ≡ some target
  unfolding find_row
  found_row-get_by_id (pos id) db target e =
      subst (λ x. get_by_id x db.users ≡ some target) (sym (get_by_id-id id db.users target e)) e
  found_row-get_by_id (negsuc n) db target e = absurd cc

  pub delete_user-IsSound :
      (id : Option ℤ) (db : Db Hash) → IsSound db → IsSound (delete_user id db).1
  unfolding delete_user
  delete_user-IsSound none db s = s
  delete_user-IsSound (some id) db s = elim (Option-cases (find_row id db.users)) [
    | inl e ↦ rw (e, delete_user) s
    | inr (target, e) ↦
        rw (e, delete_user) (delete_target-IsSound target db (found_row-get_by_id id db target e) s)
  ]
