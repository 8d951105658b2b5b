-- ===== src/Accounts/Api/Calls.antt =====
-- The calls of server/api/AuthApi.ts and server/api/UsersApi.ts: their bodies and their answers.
use proxmoxwhatsapp.Prelude.{
  ℕ, List, [], ◌++◌, length, Bool, false, Option, none, some, ◌==◌, if◌then◌else◌, ℤ,
}
use proxmoxwhatsapp.Subnet.Text.{Str}
use proxmoxwhatsapp.Web.Text.{codes, eq_str}
use proxmoxwhatsapp.Auth.{LoginResult}
use proxmoxwhatsapp.Accounts.{Role, user, admin}

-- A field of a JSON body.
pub data Json : Type 0 where
  absent other : Json
  text : Str → Json
  flag : Bool → Json

pub record Body : Type 0 where
  pub username : Json
  pub password : Json
  pub role : Json
  pub admin_username : Json
  pub admin_password : Json
  pub current_password : Json
  pub new_password : Json
  pub disabled : Json
  pub unlock : Json

-- `typeof field === 'string' ? field : ''`.
abbrev pub text_or_blank : Json → Str
text_or_blank (text s) = s
text_or_blank _ = []

abbrev pub is_blank : Str → Bool
is_blank s = length s == 0

-- `isRole(field) ? field : undefined`.
abbrev role_of_text : Str → Option Role
role_of_text s =
    if eq_str s (codes "user")
    then some user
    else if eq_str s (codes "admin")
    then some admin
    else none

abbrev pub role_of : Json → Option Role
role_of (text s) = role_of_text s
role_of _ = none

abbrev pub is_true : Json → Bool
is_true (flag b) = b
is_true _ = false

-- The random values of a request, and its time: one for the gate and the handler.
pub record Draws : Type 0 where
  pub now : ℕ
  pub token : Str
  pub salt : Str
  pub admin_salt : Str

pub data Call : Type 0 where
  login_call change_password create_call : Body → Call
  logout me enable disable list_call : Call
  -- The text behind `/api/users/`, with the integer whose decimal it is, if it is one.
  patch_call : Str → Option ℤ → Body → Call
  delete_call : Str → Option ℤ → Call
  -- Another method on a path of UsersApi, which asks for an admin before it passes the request on.
  users_path : Str → Call
  -- Anything else goes on to the handlers after these two.
  elsewhere : Str → Call

abbrev pub path_of : Call → Str
path_of (login_call body) = codes "/api/auth/login"
path_of logout = codes "/api/auth/logout"
path_of me = codes "/api/auth/me"
path_of (change_password body) = codes "/api/auth/change-password"
path_of enable = codes "/api/auth/enable"
path_of disable = codes "/api/auth/disable"
path_of list_call = codes "/api/users"
path_of (create_call body) = codes "/api/users"
path_of (patch_call id_text id body) = codes "/api/users/" ++ id_text
path_of (delete_call id_text id) = codes "/api/users/" ++ id_text
path_of (users_path pathname) = pathname
path_of (elsewhere pathname) = pathname

pub record Summary : Type 0 where
  pub id : ℕ
  pub username : Str
  pub role : Role
  pub has_password : Bool
  pub disabled : Bool
  pub locked_until : Option ℕ
  pub last_login : Option ℕ

-- The status of an answer, with what it says beside.
pub data Reply : Type 0 where
  status : ℕ → Reply
  session_cookie_set : Str → Reply
  login_failed : LoginResult → Reply
  users_list : List Summary → Reply
  created : ℕ → Reply
  who : Bool → Option (Str × Role) → Reply
  login_form : Reply
  next_handler : Option ℕ → Reply
