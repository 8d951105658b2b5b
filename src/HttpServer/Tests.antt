-- ===== src/HttpServer/Tests.antt =====
-- An admin who is signed in turns auth off, on a server on localhost.
use proxmoxwhatsapp.Prelude.{[], ◌∷◌, true, false, Option, none, some, ◌≡◌, ◌⊎◌, refl, ℤ}
use proxmoxwhatsapp.Subnet.Text.{Str}
use proxmoxwhatsapp.Web.Text.{codes, eq_str, starts_with}
use proxmoxwhatsapp.Web.OriginGuard.{Platform}
use proxmoxwhatsapp.Web.RequestGate.{Instance, Request}
use proxmoxwhatsapp.Accounts.{Db, admin}
use proxmoxwhatsapp.Accounts.Login.{Crypto}
use proxmoxwhatsapp.Accounts.Api.{Body, Draws, absent}
use proxmoxwhatsapp.HttpServer.{auth_call, users_call, call_of, handle_request}
use proxmoxwhatsapp.HttpServer.Guarded.{is_admin_call}
use proxmoxwhatsapp.HttpServer.Authorization.{
  IsAuthorized, IsRefusal, IsUntouched, handle_request-IsAuthorized,
}

abbrev crypto : Crypto
crypto = record {
  Hash = Str;
  hash_password = λ salt plain. plain;
  verify_password = eq_str;
  hash_token = λ token. token;
}

abbrev platform : Platform
platform = record { url_hostname = λ host. some host; is_ip = λ name. false }

abbrev instance_of : Instance
instance_of = record { platform = platform; allowed_hosts = []; token = codes "ab12" }

abbrev no_integer : Str → Option ℤ
no_integer id_text = none

abbrev empty_body : Body
empty_body = record {
  username = absent;
  password = absent;
  role = absent;
  admin_username = absent;
  admin_password = absent;
  current_password = absent;
  new_password = absent;
  disabled = absent;
  unlock = absent;
}

abbrev draws : Draws
draws = record { now = 30; token = codes "t2"; salt = []; admin_salt = [] }

abbrev db : Db Str
db = record {
  users =
      record {
        id = 1;
        username = codes "root";
        role = admin;
        account = record {
          disabled = false;
          password_hash = some (codes "r");
          lockout = record {
            failed_attempts = 0;
            lockout_window_start = none;
            locked_until = none;
          };
          last_login = none;
        };
        created_at = 0;
      }
      ∷ [];
  sessions =
      record {
        token_hash = codes "t1";
        user_id = 1;
        created_at = 20;
        expires_at = 2592000020;
        last_seen_at = 20;
      }
      ∷ [];
  auth_enabled = true;
}

abbrev request : Request
request = record {
  method = some (codes "POST");
  pathname = codes "/api/auth/disable";
  origin = none;
  host = some (codes "localhost");
  cookie = some (codes "ws_scrcpy_token=ab12; wsscrcpy_sid=t1");
}

for_admins : is_admin_call (call_of no_integer request.method request.pathname empty_body) ≡ true
unfolding call_of auth_call users_call eq_str starts_with
for_admins = refl

handle_request-IsAuthorized_example :
    IsAuthorized crypto instance_of request 30 db
    ⊎ (IsRefusal (handle_request no_integer crypto instance_of false draws request empty_body db).1
        × IsUntouched db
            (handle_request no_integer crypto instance_of false draws request empty_body db).2)
handle_request-IsAuthorized_example =
    handle_request-IsAuthorized crypto no_integer instance_of false draws request empty_body db
      (λ h. cc) refl for_admins
