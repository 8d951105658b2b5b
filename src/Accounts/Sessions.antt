-- ===== src/Accounts/Sessions.antt =====
-- The sessions table: what is found after an insertion and after a renewal.
use proxmoxwhatsapp.Prelude.{
  ℕ, ◌+◌, List, [], ◌∷◌, ◌++◌, true, Option, none, some, Bool-cases, ◌≡◌, inl, inr, refl, sym, ap,
  ◌∙◌, arith,
}
use proxmoxwhatsapp.Subnet.Text.{Str}
use proxmoxwhatsapp.Web.Text.{eq_str}
use proxmoxwhatsapp.Accounts.{Session, find_session, touch_session, add_new}

pub find_session-append :
    (hash : Str) (sessions : List Session) (s : Session)
    → find_session hash sessions ≡ none
    → eq_str s.token_hash hash ≡ true
    → find_session hash (sessions ++ (s ∷ [])) ≡ some s
unfolding find_session
find_session-append hash [] s n e = rw e refl
find_session-append hash (r ∷ sessions) s n e = elim (Bool-cases (eq_str r.token_hash hash)) [
  | inl m ↦ absurd (ground arith)
  | inr m ↦ rw m (find_session-append hash sessions s (ground arith) e)
]

find_session-here :
    (hash : Str) (s : Session) (sessions : List Session)
    → eq_str s.token_hash hash ≡ true
    → find_session hash (s ∷ sessions) ≡ some s
unfolding find_session
find_session-here hash s sessions m = rw m refl

same_session : (r s : Session) → some r ≡ some s → r ≡ s
same_session r s e = cc

pub find_session-touch :
    (hash : Str) (now ttl : ℕ) (sessions : List Session) (s : Session)
    → find_session hash sessions ≡ some s
    → find_session hash (touch_session hash now ttl sessions)
      ≡ some (record s { last_seen_at = now; expires_at = now + ttl })
unfolding find_session touch_session
find_session-touch hash now ttl [] s e = absurd cc
find_session-touch hash now ttl (r ∷ sessions) s e = elim (Bool-cases (eq_str r.token_hash hash)) [
  | inl m ↦
      rw (m, m)
        (ap {A = Session} (λ x. some (record x { last_seen_at = now; expires_at = now + ttl }))
          (same_session r s (sym (find_session-here hash r sessions m) ∙ e)))
  | inr m ↦ rw m (rw m (find_session-touch hash now ttl sessions s (ground arith)))
]

pub add_new-none :
    (old : Option Session) (s : Session) (sessions made : List Session)
    → add_new old s sessions ≡ some made
    → (old ≡ none) × (made ≡ sessions ++ (s ∷ []))
add_new-none none s sessions made e = (refl, cc)
add_new-none (some r) s sessions made e = absurd cc
