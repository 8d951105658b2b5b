-- ===== src/HttpServer/Guarded.antt =====
-- The paths of the admins' calls stand behind the gate and the token.
use proxmoxwhatsapp.Prelude.{[], ◌++◌, Bool, true, false, ◌&&◌, ◌||◌, Option, ◌≡◌, refl}
use proxmoxwhatsapp.Subnet.Text.{Str}
use proxmoxwhatsapp.Web.Text.{codes, eq_str, starts_with}
use proxmoxwhatsapp.Web.InstanceToken.{requires_token, is_get_or_head}
use proxmoxwhatsapp.Accounts.Gate.{is_allowlisted}
use proxmoxwhatsapp.Accounts.Api.{
  Call, login_call, change_password, create_call, logout, me, enable, disable, list_call,
  patch_call, delete_call, users_path, elsewhere, path_of,
}

-- The calls that only an admin may make.
abbrev pub is_admin_call : Call → Bool
is_admin_call enable = true
is_admin_call disable = true
is_admin_call list_call = true
is_admin_call (create_call body) = true
is_admin_call (patch_call id_text id body) = true
is_admin_call (delete_call id_text id) = true
is_admin_call _ = false

-- The guards of the paths of these calls, which stand under `/api/`.
pub record IsGuarded (pathname : Str) : Type 0 where
  pub api : starts_with (codes "/api/") pathname ≡ true
  pub not_config : eq_str pathname (codes "/api/config") ≡ false
  pub not_listed : is_allowlisted pathname ≡ false

-- A path that a call of UsersApi has.
users_path-IsGuarded : (rest : Str) → IsGuarded (codes "/api/users" ++ rest)
unfolding eq_str starts_with is_allowlisted
users_path-IsGuarded rest = record { api = refl; not_config = refl; not_listed = refl }

pub admin_call-IsGuarded : (call : Call) → is_admin_call call ≡ true → IsGuarded (path_of call)
unfolding eq_str starts_with is_allowlisted
admin_call-IsGuarded enable h = record { api = refl; not_config = refl; not_listed = refl }
admin_call-IsGuarded disable h = record { api = refl; not_config = refl; not_listed = refl }
admin_call-IsGuarded list_call h = users_path-IsGuarded []
admin_call-IsGuarded (create_call body) h = users_path-IsGuarded []
admin_call-IsGuarded (patch_call id_text id body) h = users_path-IsGuarded (codes "/" ++ id_text)
admin_call-IsGuarded (delete_call id_text id) h = users_path-IsGuarded (codes "/" ++ id_text)
admin_call-IsGuarded (login_call body) h = absurd cc
admin_call-IsGuarded (change_password body) h = absurd cc
admin_call-IsGuarded logout h = absurd cc
admin_call-IsGuarded me h = absurd cc
admin_call-IsGuarded (users_path pathname) h = absurd cc
admin_call-IsGuarded (elsewhere pathname) h = absurd cc

and_false : (b : Bool) → (b && false) ≡ false
and_false true = refl
and_false false = refl

or_true : (b : Bool) → (b || true) ≡ true
or_true true = refl
or_true false = refl

pub guarded-requires_token :
    (method : Option Str) (pathname : Str)
    → IsGuarded pathname
    → requires_token method pathname ≡ true
unfolding requires_token
guarded-requires_token method pathname g =
    rw
      (
        g.api,
        g.not_config,
        or_true (eq_str pathname (codes "/api")),
        and_false (is_get_or_head method),
      )
      refl
