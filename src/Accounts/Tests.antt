-- ===== src/Accounts/Tests.antt =====
-- A first start, the creation of the user bob, and the admin's login, with passwords as their hashes.
use proxmoxwhatsapp.Prelude.{
  ℕ, ◌+◌, ◌-◌, ◌≤◌, List, length-replicate, replicate, if◌then◌else◌, ne→==, [], ◌∷◌, true, false,
  Option, none, some, ◌≡◌, ◌↔◌, refl, arith,
}
use proxmoxwhatsapp.Subnet.Text.{Str}
use proxmoxwhatsapp.Web.Text.{codes, eq_str, starts_with}
use proxmoxwhatsapp.Auth.{cleared_state, is_locked, login, has_password}
use proxmoxwhatsapp.Accounts.{
  UserRow, Db, Role, user, implicit_admin_id, admin, new_row, initial_db, get_by_id,
  get_by_username, is_name_taken, set_username, with_username, with_password, update_where,
  create_user, next_row_id, same_name, find_session, create_session, session_ttl_ms,
  count_enabled_admins, count_enabled_admins_with_password,
}
use proxmoxwhatsapp.Accounts.Login.{
  Crypto, logged_in_as, lockdown, lockdown_users, login_service, login_as, finish_login,
}
use proxmoxwhatsapp.Accounts.Gate.{through, is_allowlisted, auth_gate, check_user}
use proxmoxwhatsapp.Accounts.Api.{
  after_gate, handle_call, require_admin, create_account, login_call, Body, create_call, absent,
  text, Draws, serve, lockdown_params,
}
use proxmoxwhatsapp.Accounts.Live.{AllLive}
use proxmoxwhatsapp.Accounts.Reachable.{
  Reachable, started, served, Reachable-has_admin, Reachable-AllLive, Reachable-IsSound,
}
use proxmoxwhatsapp.Accounts.Access.{HasAccess, auth_gate-HasAccess}
use proxmoxwhatsapp.Subnet.Splitting.{Lacks}
use proxmoxwhatsapp.Accounts.Password.{
  verify_password, verify_password-hash_password, Platform, node_crypto, hash_password, dollar,
  n_text, r_text, p_text,
}
use proxmoxwhatsapp.Accounts.FirstUser.{lockdown-login_service}

abbrev crypto : Crypto
crypto = record {
  Hash = Str;
  hash_password = λ salt plain. plain;
  verify_password = eq_str;
  hash_token = λ token. token;
}

abbrev new_user : Body
new_user = record {
  username = text (codes "bob");
  password = text (codes "b");
  role = absent;
  admin_username = text (codes "root");
  admin_password = text (codes "r");
  current_password = absent;
  new_password = absent;
  disabled = absent;
  unlock = absent;
}

abbrev draws : Draws
draws = record { now = 10; token = codes "t1"; salt = []; admin_salt = [] }

abbrev first : Db Str
first = initial_db Str 0

abbrev secured : Db Str
secured = (serve crypto draws none (create_call new_user) (initial_db Str 0)).1

secured-Reachable : Reachable crypto secured
secured-Reachable = served draws none (create_call new_user) (started 0)

Reachable-has_admin_example :
    (1 ≤ count_enabled_admins secured.users)
    × (secured.auth_enabled ≡ true → 1 ≤ count_enabled_admins_with_password secured.users)
Reachable-has_admin_example = Reachable-has_admin crypto secured secured-Reachable

abbrev row_of : ℕ → Str → Role → Option Str → ℕ → UserRow Str
row_of id name role hash now = record {
  id = id;
  username = name;
  role = role;
  account = record {
    disabled = false;
    password_hash = hash;
    lockout = record { failed_attempts = 0; lockout_window_start = none; locked_until = none };
    last_login = none;
  };
  created_at = now;
}

abbrev root : UserRow Str
root = row_of 1 (codes "root") admin (some (codes "r")) 0

abbrev bob : UserRow Str
bob = row_of 2 (codes "bob") user (some (codes "b")) 10

abbrev two : Db Str
two = record { users = root ∷ (bob ∷ []); sessions = []; auth_enabled = true }

first_row : get_by_id implicit_admin_id first.users ≡ some (row_of 1 (codes "admin") admin none 0)
unfolding get_by_id initial_db new_row cleared_state
first_row = refl

not_locked : is_locked (row_of 1 (codes "admin") admin none 0).account.lockout 20 ≡ false
unfolding is_locked
not_locked = refl

no_session : find_session (codes "t1") first.sessions ≡ none
unfolding find_session initial_db
no_session = refl

-- The admin's login, which stores a session.
abbrev root_login : Body
root_login = record new_user { username = text (codes "root"); password = text (codes "r") }

abbrev with_session : Db Str
with_session = record {
  users = record root { account = record root.account { last_login = some 20 } } ∷ (bob ∷ []);
  sessions =
      record {
        token_hash = codes "t2";
        user_id = 1;
        created_at = 20;
        expires_at = 20 + session_ttl_ms;
        last_seen_at = 20;
      }
      ∷ [];
  auth_enabled = true;
}

with_session-Reachable : Reachable crypto with_session
unfolding serve after_gate auth_gate check_user handle_call login_service login_as finish_login
    create_account lockdown lockdown_users get_by_id set_username is_name_taken update_where
    with_username with_password create_user next_row_id same_name initial_db new_row cleared_state
    login has_password is_locked eq_str create_session find_session get_by_username is_allowlisted
    starts_with require_admin count_enabled_admins_with_password
with_session-Reachable =
    served (record draws { now = 20; token = codes "t2" }) none (login_call root_login)
      secured-Reachable

Reachable-AllLive_example : AllLive with_session.users with_session.sessions
Reachable-AllLive_example = Reachable-AllLive crypto with_session with_session-Reachable

-- A platform with a scrypt that repeats a sum, to exercise the text of a hash.
abbrev sum : Str → ℕ
sum [] = 0
sum (x ∷ xs) = x + sum xs

abbrev raised : List ℕ → Str
raised [] = []
raised (b ∷ bs) = (37 + b) ∷ raised bs

abbrev lowered : Str → List ℕ
lowered [] = []
lowered (x ∷ xs) = (x - 37) ∷ lowered xs

raised-Lacks : (bytes : List ℕ) → Lacks dollar (raised bytes)
raised-Lacks [] = refl
raised-Lacks (b ∷ bs) = rw (ne→== (37 + b) 36 (omega arith)) (raised-Lacks bs)

lowered-raised : (bytes : List ℕ) → lowered (raised bytes) ≡ bytes
lowered-raised [] = refl
lowered-raised (b ∷ bs) = rw (back b, lowered-raised bs) refl
  where
    back : (n : ℕ) → 37 + n - 37 ≡ n
    back n = omega arith

abbrev number_of : Str → Option ℕ
number_of s =
    if eq_str s n_text
    then some 16384
    else if eq_str s r_text
    then some 8
    else if eq_str s p_text
    then some 1
    else none

abbrev node : Platform
unfolding eq_str
node = record {
  Number = ℕ;
  number = number_of;
  cost = λ n. n;
  scrypt = λ plain salt len n r p. replicate len (sum plain + (sum salt + (n + (r + p))));
  to_base64 = raised;
  from_base64 = lowered;
  hash_token = λ token. token;
  number-n = refl;
  number-r = refl;
  number-p = refl;
  to_base64-Lacks = raised-Lacks;
  from_base64-to_base64 = lowered-raised;
  length-scrypt =
      λ plain salt len. length-replicate {A = ℕ} len (sum plain + (sum salt + (16384 + (8 + 1))));
}

verify_password-hash_password_example :
    (verify_password node (codes "s") (hash_password node (7 ∷ []) (codes "r")) ≡ true) ↔ (
      node.scrypt (codes "s") (7 ∷ []) 64 (node.cost 16384) (node.cost 8) (node.cost 1)
      ≡ node.scrypt (codes "r") (7 ∷ []) 64 (node.cost 16384) (node.cost 8) (node.cost 1))
verify_password-hash_password_example =
    verify_password-hash_password node (7 ∷ []) (codes "r") (codes "s")

abbrev hashed_two : Db Str
hashed_two = record {
  users =
      row_of 1 (codes "root") admin (some (hash_password node (7 ∷ []) (codes "r"))) 0
      ∷ (row_of 2 (codes "bob") user (some (hash_password node (9 ∷ []) (codes "b"))) 10 ∷ []);
  sessions = [];
  auth_enabled = true;
}

hashed_locked :
    lockdown
      (node_crypto node)
      (lockdown_params (node_crypto node) new_user)
      (7 ∷ [])
      (9 ∷ [])
      10
      first
    ≡ some hashed_two
unfolding lockdown lockdown_users get_by_id set_username is_name_taken update_where with_username
    with_password create_user next_row_id same_name initial_db new_row cleared_state
hashed_locked = refl

lockdown-login_service_example :
    (hashed_two.auth_enabled ≡ true)
    × ((login_service (node_crypto node) (codes "root") (codes "r") (codes "t1") 20 hashed_two).0
        ≡ logged_in_as 1)
unfolding node
lockdown-login_service_example =
    lockdown-login_service node (lockdown_params (node_crypto node) new_user) (7 ∷ []) (9 ∷ [])
      (codes "t1") 10 20 (row_of 1 (codes "admin") admin none 0) first hashed_two
      (Reachable-IsSound (node_crypto node) (started 0)) first_row not_locked no_session
      hashed_locked

abbrev signed : Db Str
signed = (login_service crypto (codes "bob") (codes "b") (codes "t1") 20 two).1

abbrev sid : Option Str
sid = some (codes "a=1; wsscrcpy_sid=t1")

stream_guarded : is_allowlisted (codes "/api/users") ≡ false
unfolding is_allowlisted eq_str starts_with
stream_guarded = refl

-- A page, and almost thirty days later a list of devices.
abbrev visits : List (Draws × Str)
visits =
    (record draws { now = 1000 }, codes "/index.html")
    ∷ ((record draws { now = 2592000000 }, codes "/api/devices") ∷ [])

auth_gate-HasAccess_example :
    ((auth_gate crypto (codes "/api/users") sid 20 two).0 ≡ through (some 2))
    ↔ ((id : ℕ) × (some 2 ≡ some id) × HasAccess crypto two sid 20 id)
auth_gate-HasAccess_example =
    auth_gate-HasAccess crypto (codes "/api/users") sid 20 (some 2) two refl stream_guarded
