-- ===== src/Auth.antt =====
-- server/auth: loginPolicy.ts, and loginService.ts on one user's row. Times are milliseconds.
pub mod Lockout
mod Tests
use proxmoxwhatsapp.Prelude.{
  ℕ, ◌+◌, ◌-◌, ◌*◌, ◌||◌, Bool, true, false, Option, none, some, ltb, leb, if◌then◌else◌,
}

pub record LockoutState : Type 0 where
  pub failed_attempts : ℕ
  pub lockout_window_start : Option ℕ
  pub locked_until : Option ℕ

abbrev pub max_fails : ℕ
max_fails = 5

abbrev pub window_ms : ℕ
window_ms = 300000

abbrev pub lock_ms : ℕ
lock_ms = 900000

unfoldable pub is_locked : LockoutState → ℕ → Bool
is_locked s now = elim s.locked_until [ none ↦ false | some until ↦ ltb now until ]

unfoldable pub cleared_state : LockoutState
cleared_state = record { failed_attempts = 0; lockout_window_start = none; locked_until = none }

unfoldable pub extend_lock : ℕ → LockoutState
extend_lock now = record {
  failed_attempts = max_fails;
  lockout_window_start = none;
  locked_until = some (now + lock_ms);
}

-- One more failure in the window that starts at `start`.
unfoldable pub count_failure : ℕ → ℕ → ℕ → LockoutState
count_failure start fails now = record {
  failed_attempts = fails + 1;
  lockout_window_start = some start;
  locked_until = if leb max_fails (fails + 1) then some (now + lock_ms) else none;
}

-- `now - windowStart > WINDOW_MS` is false when the window starts later than now.
unfoldable pub apply_failure : LockoutState → ℕ → LockoutState
apply_failure s now = elim s.lockout_window_start [
  | none ↦ count_failure now 0 now
  | some start ↦
      if ltb window_ms (now - start)
      then count_failure now 0 now
      else count_failure start s.failed_attempts now
]

pub record User (Hash : Type 0) : Type 0 where
  pub disabled : Bool
  pub password_hash : Option Hash
  pub lockout : LockoutState
  pub last_login : Option ℕ

pub data LoginResult : Type 0 where
  logged_in invalid account_disabled locked : LoginResult

-- `verifyPassword` is a parameter: it rests on Node's scrypt.
module _ (Hash Password : Type 0) (verify_password : Password → Hash → Bool) where
  unfoldable pub has_password : Password → Option Hash → Bool
  has_password password none = false
  has_password password (some hash) = verify_password password hash

  -- `login` for a user that exists: the result, and the user's row afterwards. A stale lock is
  -- cleared before the password is checked, but the failure counts on from the state as it was read.
  unfoldable pub login : Password → ℕ → User Hash → LoginResult × User Hash
  login password now user =
      if user.disabled
      then (account_disabled, user)
      else if is_locked user.lockout now
      then (locked, record user { lockout = extend_lock now })
      else if has_password password user.password_hash
      then (logged_in, record user { lockout = cleared_state; last_login = some now })
      else (
        invalid,
        record user { lockout = apply_failure (record user.lockout { locked_until = none }) now },
      )
