-- ===== src/Accounts/Patched.antt =====
-- A PATCH keeps the tables sound.
use proxmoxwhatsapp.Prelude.{
  ℕ, true, false, ◌&&◌, Option, none, some, Bool-cases, Option-cases, ◌≡◌, inl, inr, refl, sym,
  arith, ℤ,
}
use mathlib.Core.Path.{subst}
use proxmoxwhatsapp.Web.Text.{codes, eq_str}
use proxmoxwhatsapp.Accounts.{UserRow, Db, get_by_id, update_where}
use proxmoxwhatsapp.Accounts.Rows.{KeepsId}
use proxmoxwhatsapp.Accounts.Admins.{IsSecure, LeavesAdmin, update_where-IsSecure}
use proxmoxwhatsapp.Accounts.Live.{
  AllLive, KeepsEnabled, update_where-AllLive, delete_for_user-AllLive,
}
use proxmoxwhatsapp.Accounts.Login.{Crypto}
use proxmoxwhatsapp.Accounts.Api.{
  Json, absent, other, text, flag, Body, Draws, role_of, is_true, text_or_blank, find_row,
  is_last_enabled_admin, patch_role, patch_password, patch_disabled, patch_target, patch_user,
}
use proxmoxwhatsapp.Accounts.Patching.{
  patched, renewed-KeepsEnabled, patched-KeepsId, patched-KeepsHash, patched-is_enabled_admin,
  after-users, unlock_change-keeps, enabled_stays,
}
use proxmoxwhatsapp.Accounts.Steps.{IsSound, several, found_row-get_by_id}

module _ (c : Crypto) where
  patch_disabled-auth :
      (id : ℕ) (json : Json) (db : Db c.Hash)
      → (patch_disabled id json db).auth_enabled ≡ db.auth_enabled
  unfolding patch_disabled
  patch_disabled-auth id absent db = refl
  patch_disabled-auth id other db = refl
  patch_disabled-auth id (text s) db = refl
  patch_disabled-auth id (flag b) db = refl

  -- Disabling a user deletes its sessions; any other change leaves the user enabled.
  patched-AllLive :
      (f : UserRow c.Hash → UserRow c.Hash) (id : ℕ) (json : Json) (db before : Db c.Hash)
      → KeepsId f
      → (is_true json ≡ false → KeepsEnabled f)
      → before.sessions ≡ db.sessions
      → AllLive db.users db.sessions
      → AllLive (update_where id f db.users) (patch_disabled id json before).sessions
  unfolding patch_disabled
  patched-AllLive f id (flag true) db before k e q h =
      rw q (delete_for_user-AllLive id f db.users db.sessions k h)
  patched-AllLive f id (flag false) db before k e q h =
      rw q (update_where-AllLive id f db.users db.sessions k (e refl) h)
  patched-AllLive f id absent db before k e q h =
      rw q (update_where-AllLive id f db.users db.sessions k (e refl) h)
  patched-AllLive f id other db before k e q h =
      rw q (update_where-AllLive id f db.users db.sessions k (e refl) h)
  patched-AllLive f id (text s) db before k e q h =
      rw q (update_where-AllLive id f db.users db.sessions k (e refl) h)

  patched-KeepsEnabled :
      (draws : Draws) (body : Body)
      → is_true body.disabled ≡ false
      → KeepsEnabled (patched c draws body)
  patched-KeepsEnabled draws body e row h =
      (unlock_change-keeps c (is_true body.unlock)).2 _
        (enabled_stays c body.disabled _ (renewed-KeepsEnabled c draws body row h) e)

  -- The table when `disabled` is looked at.
  abbrev renewed_db : Draws → Body → ℕ → Db c.Hash → Db c.Hash
  renewed_db draws body id db = record db {
    users =
        patch_password c id draws.salt body.password (patch_role id (role_of body.role) db.users);
  }

  -- What the two refusals leave.
  patched-LeavesAdmin :
      (draws : Draws) (body : Body) (target : UserRow c.Hash) (db : Db c.Hash)
      → (is_true body.disabled && is_last_enabled_admin target db) ≡ false
      → (eq_str (text_or_blank body.role) (codes "user") && is_last_enabled_admin target db) ≡ false
      → LeavesAdmin target (patched c draws body target) db.users
  patched-LeavesAdmin draws body target db d r a =
      elim (Bool-cases (is_last_enabled_admin target db)) [
        | inl last ↦
            inr (patched-is_enabled_admin c draws body target a (ground arith) (ground arith))
        | inr many ↦ inl (several target db a many)
      ]

  patch_target-IsSound :
      (draws : Draws) (body : Body) (target : UserRow c.Hash) (db : Db c.Hash)
      → get_by_id target.id db.users ≡ some target
      → IsSound db
      → IsSound (patch_target c draws body target db).1
  unfolding patch_target
  patch_target-IsSound draws body target db g s =
      elim (Bool-cases (is_true body.disabled && is_last_enabled_admin target db)) [
        | inl e ↦ rw (e, patch_target) s
        | inr d ↦
            elim (Bool-cases (
              eq_str (text_or_blank body.role) (codes "user") && is_last_enabled_admin target db)) [
                | inl e ↦ rw (d, e, patch_target) s
                | inr r ↦
                    rw (d, r, patch_target)
                      (record {
                        secure =
                            subst
                              (λ us.
                                IsSecure us
                                  (patch_disabled target.id body.disabled
                                    (renewed_db draws body target.id db)).auth_enabled)
                              (sym (after-users c draws body target.id db))
                              (subst
                                (IsSecure (update_where target.id (patched c draws body) db.users))
                                (sym (
                                  patch_disabled-auth target.id body.disabled
                                    (renewed_db draws body target.id db)))
                                (update_where-IsSecure target.id (patched c draws body) db.users
                                  db.auth_enabled target (patched-KeepsId c draws body)
                                  (patched-KeepsHash c draws body) g
                                  (patched-LeavesAdmin draws body target db d r) s.secure));
                        live =
                            subst
                              (λ us.
                                AllLive us
                                  (patch_disabled target.id body.disabled
                                    (renewed_db draws body target.id db)).sessions)
                              (sym (after-users c draws body target.id db))
                              (patched-AllLive (patched c draws body) target.id body.disabled db
                                (renewed_db draws body target.id db) (patched-KeepsId c draws body)
                                (patched-KeepsEnabled draws body) refl s.live);
                      })
              ]
      ]

  pub patch_user-IsSound :
      (draws : Draws) (id : Option ℤ) (body : Body) (db : Db c.Hash)
      → IsSound db
      → IsSound (patch_user c draws id body db).1
  unfolding patch_user
  patch_user-IsSound draws none body db s = s
  patch_user-IsSound draws (some id) body db s = elim (Option-cases (find_row id db.users)) [
    | inl e ↦ rw (e, patch_user) s
    | inr (target, e) ↦
        rw (e, patch_user)
          (patch_target-IsSound draws body target db (found_row-get_by_id id db target e) s)
  ]
