-- ===== src/Auth/Tests.antt =====
-- A user whose password is 7, with passwords and hashes as numbers.
use proxmoxwhatsapp.Prelude.{ℕ, ◌≡◌, refl, [], ◌∷◌, Bool, false, none, some, ◌==◌, arith}
use proxmoxwhatsapp.Auth.{User, locked, extend_lock, cleared_state, login, has_password}
use proxmoxwhatsapp.Auth.Lockout.{
  IsValid, IsConsistent, StartedBy, login-IsValid, login_all, login_all-locked,
}

abbrev same : ℕ → ℕ → Bool
same password hash = password == hash

abbrev user : User ℕ
user = record {
  disabled = false;
  password_hash = some 7;
  lockout = cleared_state;
  last_login = none;
}

login_all-locked_example :
    login ℕ ℕ same 7 1000
      (login ℕ ℕ same 5 50
        (login_all ℕ ℕ same ((1, 10) ∷ ((2, 20) ∷ ((3, 30) ∷ ((4, 40) ∷ [])))) user)).1
    ≡ (locked, record user { lockout = extend_lock 1000 })
unfolding has_password
login_all-locked_example =
    login_all-locked ℕ ℕ same (1, 10) (5, 50) ((2, 20) ∷ ((3, 30) ∷ ((4, 40) ∷ []))) (some 7) none 7
      1000 refl
      (
        (refl, omega arith),
        (
          (refl, omega arith),
          ((refl, omega arith), ((refl, omega arith), ((refl, omega arith), tt))),
        ),
      )
      (omega arith)

login-IsValid_example : IsValid (login ℕ ℕ same 3 20 user).1.lockout 20
unfolding IsValid IsConsistent StartedBy cleared_state
login-IsValid_example = login-IsValid ℕ ℕ same 3 10 20 user (omega arith, tt) (omega arith)
