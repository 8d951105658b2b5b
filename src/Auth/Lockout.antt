-- ===== src/Auth/Lockout.antt =====
-- The lock of an account: an invariant of its counter, and how far guessing gets.
use proxmoxwhatsapp.Prelude.{
  ℕ, ◌+◌, ◌-◌, ◌≤◌, ◌<◌, ◌≡◌, refl, ap, ◌∙◌, inl, inr, List, [], ◌∷◌, length, All, Bool, true,
  false, Option, none, some, ltb, leb, if◌then◌else◌, arith, Bool-cases, lt→ltb,
}
use proxmoxwhatsapp.Auth.{
  LockoutState, max_fails, window_ms, lock_ms, is_locked, cleared_state, extend_lock, count_failure,
  apply_failure, User, LoginResult, invalid, locked, has_password, login,
}

-- The window began no later than `now`, and a lock outlasts it.
unfoldable pub StartedBy : Option ℕ → ℕ → Type 0
StartedBy none now = Unit
StartedBy (some start) now = start ≤ now

-- Without a lock there are fewer failures than the limit, and with one exactly the limit, and the
-- lock ends more than a window after the window began.
unfoldable pub IsConsistent : ℕ → Option ℕ → Option ℕ → ℕ → Type 0
IsConsistent fails start none now = (fails < max_fails) × StartedBy start now
IsConsistent fails none (some until) now = fails ≡ max_fails
IsConsistent fails (some start) (some until) now =
    (fails ≡ max_fails) × (start ≤ now) × (start + window_ms < until)

-- After everything up to the time `now`.
unfoldable pub IsValid : LockoutState → ℕ → Type 0
IsValid s now = IsConsistent s.failed_attempts s.lockout_window_start s.locked_until now

count_failure-IsValid :
    (start fails now : ℕ)
    → start ≤ now
    → fails < max_fails
    → IsValid (count_failure start fails now) now
unfolding IsValid IsConsistent StartedBy count_failure
count_failure-IsValid start fails now h k = elim (Bool-cases (leb max_fails (fails + 1))) [
  | inl e ↦ rw e (grind arith, h, omega arith)
  | inr e ↦ rw e (grind arith, h)
]

-- An expired lock lies behind its window.
in_window :
    (fails start : ℕ) (until : Option ℕ) (earlier now : ℕ)
    → IsConsistent fails (some start) until earlier
    → earlier ≤ now
    → is_locked
        (record {
          failed_attempts = fails;
          lockout_window_start = some start;
          locked_until = until;
        })
        now
      ≡ false
    → ltb window_ms (now - start) ≡ false
    → IsValid (count_failure start fails now) now
unfolding IsConsistent StartedBy is_locked
in_window fails start none earlier now h k l e =
    count_failure-IsValid start fails now (omega arith) h.0
in_window fails start (some until) earlier now h k l e = absurd (grind arith)

apply_failure-IsValid :
    (fails : ℕ) (start until : Option ℕ) (earlier now : ℕ)
    → IsConsistent fails start until earlier
    → earlier ≤ now
    → is_locked
        (record { failed_attempts = fails; lockout_window_start = start; locked_until = until })
        now
      ≡ false
    → IsValid
        (apply_failure
          (record { failed_attempts = fails; lockout_window_start = start; locked_until = none })
          now)
        now
unfolding apply_failure IsConsistent StartedBy is_locked
apply_failure-IsValid fails none until earlier now h k l =
    count_failure-IsValid now 0 now (omega arith) (omega arith)
apply_failure-IsValid fails (some start) until earlier now h k l =
    elim (Bool-cases (ltb window_ms (now - start))) [
      | inl e ↦ rw e (count_failure-IsValid now 0 now (omega arith) (omega arith))
      | inr e ↦ rw e (in_window fails start until earlier now h k l e)
    ]

later :
    (fails : ℕ) (start until : Option ℕ) (earlier now : ℕ)
    → IsConsistent fails start until earlier
    → earlier ≤ now
    → IsConsistent fails start until now
unfolding IsConsistent StartedBy
later fails none none earlier now h k = h
later fails (some start) none earlier now h k = (h.0, omega arith)
later fails none (some until) earlier now h k = h
later fails (some start) (some until) earlier now h k = (h.0, omega arith, h.2)

module _ (Hash Password : Type 0) (verify_password : Password → Hash → Bool) where
  -- A login attempt with any password, no earlier than what came before, keeps the row of a user
  -- consistent: without a lock there are fewer than five failures, and with a lock exactly five,
  -- and the lock ends more than a window's length after the window began.
  pub login-IsValid :
      (password : Password) (earlier now : ℕ) (user : User Hash)
      → IsValid user.lockout earlier
      → earlier ≤ now
      → IsValid (login Hash Password verify_password password now user).1.lockout now
  unfolding login extend_lock cleared_state IsValid IsConsistent StartedBy
  login-IsValid password earlier now user h k =
      branch user.disabled _ _
        (λ _.
          later user.lockout.failed_attempts user.lockout.lockout_window_start
            user.lockout.locked_until earlier now h k)
        (λ _.
          branch (is_locked user.lockout now) _ _ (λ _. refl)
            (λ l.
              branch (has_password Hash Password verify_password password user.password_hash) _ _
                (λ _. (omega arith, tt))
                (λ _.
                  apply_failure-IsValid user.lockout.failed_attempts
                    user.lockout.lockout_window_start user.lockout.locked_until earlier now h k l)))
    where
      branch :
          (c : Bool) (x y : LoginResult × User Hash)
          → (c ≡ true → IsValid x.1.lockout now)
          → (c ≡ false → IsValid y.1.lockout now)
          → IsValid (if c then x else y).1.lockout now
      branch true x y f g = f refl
      branch false x y f g = g refl

  -- Attempts one after the other.
  unfoldable pub login_all : List (Password × ℕ) → User Hash → User Hash
  login_all [] user = user
  login_all ((password, now) ∷ rest) user =
      login_all rest (login Hash Password verify_password password now user).1

  -- A wrong password within the window that starts at `start`.
  abbrev pub IsWrongIn : ℕ → Option Hash → Password × ℕ → Type 0
  IsWrongIn start hash attempt =
      (has_password Hash Password verify_password attempt.0 hash ≡ false)
      × (attempt.1 ≤ start + window_ms)

  -- An enabled user after `fails` failures of a window.
  abbrev pub failed : ℕ → ℕ → Option Hash → Option ℕ → User Hash
  failed start fails hash last = record {
    disabled = false;
    password_hash = hash;
    lockout = record {
      failed_attempts = fails;
      lockout_window_start = some start;
      locked_until = none;
    };
    last_login = last;
  }

  failed-login :
      (start fails now : ℕ) (hash : Option Hash) (last : Option ℕ) (password : Password)
      → IsWrongIn start hash (password, now)
      → fails + 1 < max_fails
      → login Hash Password verify_password password now (failed start fails hash last)
        ≡ (invalid, failed start (fails + 1) hash last)
  unfolding login is_locked apply_failure count_failure
  failed-login start fails now hash last password h k = rw (h.0, in_time, ge→leb) refl
    where
      in_time : ltb window_ms (now - start) ≡ false
      in_time = grind arith

      ge→leb : leb max_fails (fails + 1) ≡ false
      ge→leb = grind arith

  login_all-failed :
      (attempts : List (Password × ℕ)) (start fails : ℕ) (hash : Option Hash) (last : Option ℕ)
      → All (IsWrongIn start hash) attempts
      → fails + length attempts < max_fails
      → login_all attempts (failed start fails hash last)
        ≡ failed start (fails + length attempts) hash last
  unfolding login_all
  login_all-failed [] start fails hash last h k = ap (λ n. failed start n hash last) (omega arith)
  login_all-failed ((password, now) ∷ rest) start fails hash last h k =
      rw (failed-login start fails now hash last password h.0 (omega arith)) (
        login_all-failed rest start (fails + 1) hash last h.1 (omega arith)
        ∙ ap (λ n. failed start n hash last) (omega arith))

  first_failed :
      (now : ℕ) (hash : Option Hash) (last : Option ℕ) (password : Password)
      → has_password Hash Password verify_password password hash ≡ false
      → login Hash Password verify_password password now (record {
        disabled = false;
        password_hash = hash;
        lockout = cleared_state;
        last_login = last;
      })
        ≡ (invalid, failed now 1 hash last)
  unfolding login cleared_state is_locked apply_failure count_failure
  first_failed now hash last password h = rw h refl

  -- The user whom the fifth failure locked.
  abbrev shut : ℕ → ℕ → Option Hash → Option ℕ → User Hash
  shut start now hash last = record {
    disabled = false;
    password_hash = hash;
    lockout = record {
      failed_attempts = 5;
      lockout_window_start = some start;
      locked_until = some (now + lock_ms);
    };
    last_login = last;
  }

  fifth_failed :
      (start now : ℕ) (hash : Option Hash) (last : Option ℕ) (password : Password)
      → IsWrongIn start hash (password, now)
      → login Hash Password verify_password password now (failed start 4 hash last)
        ≡ (invalid, shut start now hash last)
  unfolding login is_locked apply_failure count_failure
  fifth_failed start now hash last password h = rw (h.0, in_time) refl
    where
      in_time : ltb window_ms (now - start) ≡ false
      in_time = grind arith

  refused :
      (since now start : ℕ) (hash : Option Hash) (last : Option ℕ) (password : Password)
      → now < since + lock_ms
      → login Hash Password verify_password password now (shut start since hash last) ≡ (
        locked,
        record {
          disabled = false;
          password_hash = hash;
          lockout = extend_lock now;
          last_login = last;
        },
      )
  unfolding login is_locked
  refused since now start hash last password h = rw (lt→ltb now (since + lock_ms) h) refl

  -- Five wrong passwords, the last four at times at most five minutes after the first, lock the
  -- account of an enabled user who had no failure: before fifteen minutes after the fifth, any
  -- password is refused, the right one too, and the refusal begins the fifteen minutes anew.
  pub login_all-locked :
      (first last : Password × ℕ) (middle : List (Password × ℕ)) (hash : Option Hash)
      (seen : Option ℕ) (password : Password) (now : ℕ)
      → length middle ≡ 3
      → All (IsWrongIn first.1 hash) (first ∷ (last ∷ middle))
      → now < last.1 + lock_ms
      → login Hash Password verify_password password now
          (login Hash Password verify_password last.0 last.1 (
            login_all (first ∷ middle) (record {
              disabled = false;
              password_hash = hash;
              lockout = cleared_state;
              last_login = seen;
            }))).1
        ≡ (
          locked,
          record {
            disabled = false;
            password_hash = hash;
            lockout = extend_lock now;
            last_login = seen;
          },
        )
  unfolding login_all
  login_all-locked first last middle hash seen password now n h k =
      rw
        (
          first_failed first.1 hash seen first.0 h.0.0,
          login_all-failed middle first.1 1 hash seen h.1.1 (omega arith),
          four,
          fifth_failed first.1 last.1 hash seen last.0 h.1.0,
        )
        (refused last.1 now first.1 hash seen password k)
    where
      four : 1 + length middle ≡ 4
      four = omega arith
