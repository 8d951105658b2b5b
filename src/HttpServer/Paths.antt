-- ===== src/HttpServer/Paths.antt =====
-- A call has the path of the request that it is taken from.
use proxmoxwhatsapp.Prelude.{
  [], ◌∷◌, ◌++◌, true, ◌||◌, Option, ℤ, drop, length, Bool-cases, inl, inr, ◌≡◌, refl, ap₂, arith,
  ◌==◌, ==→eq,
}
use proxmoxwhatsapp.Subnet.Text.{Str}
use proxmoxwhatsapp.Web.Text.{codes, eq_str, eq_str→eq, starts_with}
use proxmoxwhatsapp.Accounts.Api.{Body, path_of}
use proxmoxwhatsapp.HttpServer.{auth_call, users_prefix, users_call, call_of}

starts_with-append : (p s : Str) → starts_with p s ≡ true → p ++ drop (length p) s ≡ s
unfolding starts_with
starts_with-append [] s h = refl
starts_with-append (p ∷ ps) [] h = cc
starts_with-append (p ∷ ps) (x ∷ xs) h = elim (Bool-cases (p == x)) [
  | inl e ↦ ap₂ ◌∷◌ (==→eq p x e) (starts_with-append ps xs (ground arith))
  | inr e ↦ ground arith
]

path_of-auth_call :
    (method : Option Str) (pathname : Str) (body : Body)
    → path_of (auth_call method pathname body) ≡ pathname
unfolding auth_call
path_of-auth_call method pathname body = ground (
  arith,
  eq_str→eq pathname (codes "/api/auth/login"),
  eq_str→eq pathname (codes "/api/auth/logout"),
  eq_str→eq pathname (codes "/api/auth/me"),
  eq_str→eq pathname (codes "/api/auth/change-password"),
  eq_str→eq pathname (codes "/api/auth/enable"),
  eq_str→eq pathname (codes "/api/auth/disable"),
)

module _ (to_integer : Str → Option ℤ) where
  path_of-users_call :
      (method : Option Str) (pathname : Str) (body : Body)
      → path_of (users_call to_integer method pathname body) ≡ pathname
  unfolding users_call
  path_of-users_call method pathname body =
      ground
        (arith, eq_str→eq pathname (codes "/api/users"), starts_with-append users_prefix pathname)

  pub path_of-call_of :
      (method : Option Str) (pathname : Str) (body : Body)
      → path_of (call_of to_integer method pathname body) ≡ pathname
  unfolding call_of
  path_of-call_of method pathname body =
      elim (Bool-cases (starts_with (codes "/api/auth/") pathname)) [
        | inl e ↦ rw (e, call_of) (path_of-auth_call method pathname body)
        | inr e ↦
            elim (Bool-cases
              (eq_str pathname (codes "/api/users") || starts_with users_prefix pathname)) [
                | inl k ↦ rw (e, k, call_of) (path_of-users_call method pathname body)
                | inr k ↦ rw (e, k, call_of) refl
              ]
      ]
