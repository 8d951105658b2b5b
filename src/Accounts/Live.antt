-- ===== src/Accounts/Live.antt =====
-- What is kept about the sessions: each belongs to an enabled user, and ends thirty days after it was
-- last seen.
use proxmoxwhatsapp.Prelude.{
  ℕ, ◌+◌, List, [], ◌∷◌, ◌++◌, All, All-append, false, Option, none, some, Bool-cases, ◌≡◌, ◌≢◌,
  inl, inr, refl, sym, ◌∙◌, ◌==◌, ==→eq, leb, arith,
}
use mathlib.Core.Path.{subst}
use proxmoxwhatsapp.Subnet.Text.{Str}
use proxmoxwhatsapp.Web.Text.{eq_str}
use proxmoxwhatsapp.Accounts.{
  UserRow, Session, get_by_id, update_where, delete_where, session_ttl_ms, find_session,
  delete_session, delete_for_user, touch_session, new_session, add_new, create_session,
  check_session, find_valid,
}
use proxmoxwhatsapp.Accounts.Rows.{KeepsId, get_by_id-update_where, get_by_id-update_self}
use proxmoxwhatsapp.Accounts.Membership.{get_by_id-append, get_by_id-delete_where}

All-map {κ μ} :
    {A : Type 0} (P : A → Type κ) (Q : A → Type μ) (xs : List A)
    → ((x : A) → P x → Q x)
    → All P xs
    → All Q xs
All-map P Q [] f h = tt
All-map P Q (x ∷ xs) f h = (f x h.0, All-map P Q xs f h.1)

clash : (a b : ℕ) → a ≡ b → (a == b) ≡ false → ⊥
clash a b q e = ground arith

-- Each session that is kept belongs to someone else.
delete_for_user-other {κ} :
    (P : Session → Type κ) (id : ℕ) (sessions : List Session)
    → All P sessions
    → All (λ s. P s × (s.user_id ≢ id)) (delete_for_user id sessions)
unfolding delete_for_user
delete_for_user-other P id [] h = tt
delete_for_user-other P id (s ∷ sessions) h = elim (Bool-cases (s.user_id == id)) [
  | inl e ↦ rw e (delete_for_user-other P id sessions h.1)
  | inr e ↦ rw e ((h.0, (λ q. clash s.user_id id q e)), delete_for_user-other P id sessions h.1)
]

pub delete_session-All {κ} :
    (P : Session → Type κ) (hash : Str) (sessions : List Session)
    → All P sessions
    → All P (delete_session hash sessions)
unfolding delete_session
delete_session-All P hash [] h = tt
delete_session-All P hash (s ∷ sessions) h = elim (Bool-cases (eq_str s.token_hash hash)) [
  | inl e ↦ rw e (delete_session-All P hash sessions h.1)
  | inr e ↦ rw e (h.0, delete_session-All P hash sessions h.1)
]

add_new-eq :
    (old : Option Session) (s : Session) (sessions made : List Session)
    → add_new old s sessions ≡ some made
    → made ≡ sessions ++ (s ∷ [])
add_new-eq none s sessions made e = cc
add_new-eq (some old) s sessions made e = absurd cc

module _ {Hash : Type 0} where
  pub record IsLive (users : List (UserRow Hash)) (s : Session) : Type 0 where
    pub owner : UserRow Hash
    pub found : get_by_id s.user_id users ≡ some owner
    pub enabled : owner.account.disabled ≡ false
    pub sliding : s.expires_at ≡ s.last_seen_at + session_ttl_ms

  abbrev pub AllLive : List (UserRow Hash) → List Session → Type 0
  AllLive users sessions = All (IsLive users) sessions

  abbrev pub KeepsEnabled : (UserRow Hash → UserRow Hash) → Type 0
  KeepsEnabled f =
      (row : UserRow Hash) → row.account.disabled ≡ false → (f row).account.disabled ≡ false

  other_user :
      (id : ℕ) (f : UserRow Hash → UserRow Hash) (users : List (UserRow Hash)) (s : Session)
      → KeepsId f
      → s.user_id ≢ id
      → IsLive users s
      → IsLive (update_where id f users) s
  other_user id f users s k n l = record {
    owner = l.owner;
    found = get_by_id-update_where s.user_id id f users k n ∙ l.found;
    enabled = l.enabled;
    sliding = l.sliding;
  }

  update_where-IsLive :
      (id : ℕ) (f : UserRow Hash → UserRow Hash) (users : List (UserRow Hash)) (s : Session)
      → KeepsId f
      → KeepsEnabled f
      → IsLive users s
      → IsLive (update_where id f users) s
  update_where-IsLive id f users s k h l = elim (Bool-cases (s.user_id == id)) [
    | inl e ↦
        let same = ==→eq s.user_id id e in
        let at_id = subst (λ x. get_by_id x users ≡ some l.owner) same l.found in
        record {
          owner = f l.owner;
          found =
              subst (λ x. get_by_id x (update_where id f users) ≡ some (f l.owner)) (sym same)
                (get_by_id-update_self id f users l.owner k at_id);
          enabled = h l.owner l.enabled;
          sliding = l.sliding;
        }
    | inr e ↦ other_user id f users s k (λ q. clash s.user_id id q e) l
  ]

  pub update_where-AllLive :
      (id : ℕ) (f : UserRow Hash → UserRow Hash) (users : List (UserRow Hash))
      (sessions : List Session)
      → KeepsId f
      → KeepsEnabled f
      → AllLive users sessions
      → AllLive (update_where id f users) sessions
  update_where-AllLive id f users sessions k h =
      All-map (IsLive users) (IsLive (update_where id f users)) sessions
        (λ s. update_where-IsLive id f users s k h)

  -- Whatever becomes of a user whose sessions are deleted.
  pub delete_for_user-AllLive :
      (id : ℕ) (f : UserRow Hash → UserRow Hash) (users : List (UserRow Hash))
      (sessions : List Session)
      → KeepsId f
      → AllLive users sessions
      → AllLive (update_where id f users) (delete_for_user id sessions)
  delete_for_user-AllLive id f users sessions k h =
      All-map (λ s. IsLive users s × (s.user_id ≢ id)) (IsLive (update_where id f users))
        (delete_for_user id sessions) (λ s l. other_user id f users s k l.1 l.0)
        (delete_for_user-other (IsLive users) id sessions h)

  pub delete_where-AllLive :
      (id : ℕ) (users : List (UserRow Hash)) (sessions : List Session)
      → AllLive users sessions
      → AllLive (delete_where id users) (delete_for_user id sessions)
  delete_where-AllLive id users sessions h =
      All-map (λ s. IsLive users s × (s.user_id ≢ id)) (IsLive (delete_where id users))
        (delete_for_user id sessions)
        (λ s l. record {
          owner = l.0.owner;
          found = get_by_id-delete_where s.user_id id users l.1 ∙ l.0.found;
          enabled = l.0.enabled;
          sliding = l.0.sliding;
        })
        (delete_for_user-other (IsLive users) id sessions h)

  pub append-AllLive :
      (users more : List (UserRow Hash)) (sessions : List Session)
      → AllLive users sessions
      → AllLive (users ++ more) sessions
  append-AllLive users more sessions =
      All-map (IsLive users) (IsLive (users ++ more)) sessions (λ s l. record {
        owner = l.owner;
        found = get_by_id-append s.user_id users more l.owner l.found;
        enabled = l.enabled;
        sliding = l.sliding;
      })

  touch_session-AllLive :
      (users : List (UserRow Hash)) (hash : Str) (now : ℕ) (sessions : List Session)
      → AllLive users sessions
      → AllLive users (touch_session hash now session_ttl_ms sessions)
  unfolding touch_session
  touch_session-AllLive users hash now [] h = tt
  touch_session-AllLive users hash now (s ∷ sessions) h =
      elim (Bool-cases (eq_str s.token_hash hash)) [
        | inl e ↦ rw e (
          record { owner = h.0.owner; found = h.0.found; enabled = h.0.enabled; sliding = refl },
          touch_session-AllLive users hash now sessions h.1,
        )
        | inr e ↦ rw e (h.0, touch_session-AllLive users hash now sessions h.1)
      ]

  check_session-AllLive :
      (users : List (UserRow Hash)) (hash : Str) (now : ℕ) (found : Option Session)
      (sessions : List Session)
      → AllLive users sessions
      → AllLive users (check_session hash now found sessions).1
  unfolding check_session
  check_session-AllLive users hash now none sessions h = h
  check_session-AllLive users hash now (some s) sessions h =
      elim (Bool-cases (leb s.expires_at now)) [
        | inl e ↦ rw e (delete_session-All (IsLive users) hash sessions h)
        | inr e ↦ rw e (touch_session-AllLive users hash now sessions h)
      ]

  pub find_valid-AllLive :
      (users : List (UserRow Hash)) (hash : Str) (now : ℕ) (sessions : List Session)
      → AllLive users sessions
      → AllLive users (find_valid hash now sessions).1
  unfolding find_valid
  find_valid-AllLive users hash now sessions =
      check_session-AllLive users hash now (find_session hash sessions) sessions

  -- A session is made for a user that is there and enabled.
  pub create_session-AllLive :
      (users : List (UserRow Hash)) (hash : Str) (now : ℕ) (row : UserRow Hash)
      (sessions made : List Session)
      → get_by_id row.id users ≡ some row
      → row.account.disabled ≡ false
      → create_session hash row.id now sessions ≡ some made
      → AllLive users sessions
      → AllLive users made
  unfolding create_session
  create_session-AllLive users hash now row sessions made g d e h =
      let added =
        add_new-eq (find_session hash sessions) (new_session hash row.id now) sessions made e in
      subst (AllLive users) (sym added) (
        All-append (IsLive users) sessions (new_session hash row.id now ∷ []) h
          (record { owner = row; found = g; enabled = d; sliding = refl }, tt))
