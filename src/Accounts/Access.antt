-- ===== src/Accounts/Access.antt =====
-- Who gets through the gate, with auth on.
use proxmoxwhatsapp.Prelude.{
  ℕ, ◌<◌, List, [], ◌∷◌, true, false, Option, none, some, Bool-cases, ◌≡◌, ◌≢◌, ◌↔◌, inl, inr, refl,
  sym, ap, ◌∙◌, arith, leb,
}
use proxmoxwhatsapp.Subnet.Text.{Str}
use proxmoxwhatsapp.Web.Text.{codes, starts_with}
use proxmoxwhatsapp.Web.Cookie.{parse_cookie}
use proxmoxwhatsapp.Accounts.{
  UserRow, Session, Db, get_by_id, find_session, check_session, find_valid,
}
use proxmoxwhatsapp.Accounts.Login.{Crypto}
use proxmoxwhatsapp.Accounts.Gate.{
  through, session_cookie, is_allowlisted, blocked, session_of, user_of, admit, auth_gate,
}

-- A session that has not ended, of a user that is there and enabled.
pub record IsSessionOf {Hash : Type 0} (db : Db Hash) (hash : Str) (now id : ℕ) : Type 0 where
  pub session : Session
  pub owner : UserRow Hash
  pub stored : find_session hash db.sessions ≡ some session
  pub lasting : now < session.expires_at
  pub owned : get_by_id session.user_id db.users ≡ some owner
  pub enabled : owner.account.disabled ≡ false
  pub named : owner.id ≡ id

blocked-ne : (pathname : Str) (acting : Option ℕ) → blocked pathname ≢ through acting
unfolding blocked
blocked-ne pathname acting h = elim (Bool-cases (starts_with (codes "/api/") pathname)) [
  | inl e ↦ ground arith
  | inr e ↦ ground arith
]

leb-false : (a b : ℕ) → leb a b ≡ false → b < a
leb-false a b h = ground arith

pub lt-leb-false : (a b : ℕ) → b < a → leb a b ≡ false
lt-leb-false a b h = ground arith

check_session-late :
    (hash : Str) (now : ℕ) (s : Session) (sessions : List Session)
    → leb s.expires_at now ≡ true
    → (check_session hash now (some s) sessions).0 ≡ none
unfolding check_session
check_session-late hash now s sessions e = rw e refl

check_session-in_time :
    (hash : Str) (now : ℕ) (s : Session) (sessions : List Session)
    → leb s.expires_at now ≡ false
    → (check_session hash now (some s) sessions).0 ≡ some s.user_id
unfolding check_session
check_session-in_time hash now s sessions e = rw e refl

module _ (c : Crypto) where
  pub record HasAccess (db : Db c.Hash) (cookie : Option Str) (now id : ℕ) : Type 0 where
    pub token : Str
    pub not_blank : token ≢ []
    pub sent : parse_cookie cookie session_cookie ≡ some token
    pub valid : IsSessionOf db (c.hash_token token) now id

  admitted-owner :
      (pathname : Str) (acting : Option ℕ) (row : Option (UserRow c.Hash))
      → admit pathname row ≡ through acting
      → (owner : UserRow c.Hash) × (row ≡ some owner)
        × (owner.account.disabled ≡ false)
        × (acting ≡ some owner.id)
  unfolding admit
  admitted-owner pathname acting none h = absurd (blocked-ne pathname acting h)
  admitted-owner pathname acting (some row) h = elim (Bool-cases row.account.disabled) [
    | inl e ↦ absurd (blocked-ne pathname acting (ground arith))
    | inr e ↦ (row, refl, e, ground arith)
  ]

  admitted_nobody :
      (pathname : Str) (acting : Option ℕ)
      → admit {Hash = c.Hash} pathname none ≡ through acting
      → ⊥
  unfolding admit
  admitted_nobody pathname acting h = blocked-ne pathname acting h

  admitted-session :
      (pathname : Str) (acting : Option ℕ) (hash : Str) (now : ℕ) (db : Db c.Hash)
      (found : Option Session)
      → find_session hash db.sessions ≡ found
      → admit pathname (user_of (check_session hash now found db.sessions).0 db.users)
        ≡ through acting
      → (id : ℕ) × (acting ≡ some id) × IsSessionOf db hash now id
  unfolding check_session user_of
  admitted-session pathname acting hash now db none e h = absurd (admitted_nobody pathname acting h)
  admitted-session pathname acting hash now db (some s) e h =
      elim (Bool-cases (leb s.expires_at now)) [
        | inl late ↦ absurd (
            admitted_nobody pathname acting (
              sym (
                ap (λ x. admit pathname (user_of x db.users))
                  (check_session-late hash now s db.sessions late))
              ∙ h))
        | inr time ↦
            let (owner, o, d, a) = admitted-owner pathname acting (get_by_id s.user_id db.users) (
              sym (
                ap (λ x. admit pathname (user_of x db.users))
                  (check_session-in_time hash now s db.sessions time))
              ∙ h) in
            (
              owner.id,
              a,
              record {
                session = s;
                owner = owner;
                stored = e;
                lasting = leb-false s.expires_at now time;
                owned = o;
                enabled = d;
                named = refl;
              },
            )
      ]

  session-admitted :
      (pathname : Str) (hash : Str) (now id : ℕ) (db : Db c.Hash)
      → IsSessionOf db hash now id
      → admit pathname (user_of (find_valid hash now db.sessions).0 db.users) ≡ through (some id)
  unfolding find_valid user_of admit
  session-admitted pathname hash now id db v =
      let time = lt-leb-false v.session.expires_at now v.lasting in
      let valid : (find_valid hash now db.sessions).0 ≡ some v.session.user_id =
        ap (λ o. (check_session hash now o db.sessions).0) v.stored
        ∙ check_session-in_time hash now v.session db.sessions time in
      ap (λ x. admit pathname (user_of x db.users)) valid
      ∙ ap (admit pathname) v.owned
      ∙ rw v.enabled (ap (λ n. through (some n)) v.named)

  pub guarded :
      (pathname : Str) (cookie : Option Str) (now : ℕ) (db : Db c.Hash)
      → db.auth_enabled ≡ true
      → is_allowlisted pathname ≡ false
      → (auth_gate c pathname cookie now db).0
        ≡ admit pathname (
            user_of
              (session_of c.hash_token (parse_cookie cookie session_cookie) now db.sessions).0
              db.users)
  unfolding auth_gate
  guarded pathname cookie now db on guard = rw (on, guard) refl

  session_of-access :
      (pathname : Str) (acting : Option ℕ) (token cookie : Option Str) (now : ℕ) (db : Db c.Hash)
      → parse_cookie cookie session_cookie ≡ token
      → admit pathname (user_of (session_of c.hash_token token now db.sessions).0 db.users)
        ≡ through acting
      → (id : ℕ) × (acting ≡ some id) × HasAccess db cookie now id
  unfolding session_of user_of find_valid
  session_of-access pathname acting none cookie now db e h =
      absurd (admitted_nobody pathname acting h)
  session_of-access pathname acting (some []) cookie now db e h =
      absurd (admitted_nobody pathname acting h)
  session_of-access pathname acting (some (x ∷ xs)) cookie now db e h =
      let (id, a, v) =
        admitted-session pathname acting (c.hash_token (x ∷ xs)) now db
          (find_session (c.hash_token (x ∷ xs)) db.sessions) refl h in
      (id, a, record { token = x ∷ xs; not_blank = λ q. cc; sent = e; valid = v })

  access-session_of :
      (pathname : Str) (token : Str) (now id : ℕ) (db : Db c.Hash)
      → token ≢ []
      → IsSessionOf db (c.hash_token token) now id
      → admit pathname (user_of (session_of c.hash_token (some token) now db.sessions).0 db.users)
        ≡ through (some id)
  unfolding session_of
  access-session_of pathname [] now id db n v = absurd (n refl)
  access-session_of pathname (x ∷ xs) now id db n v =
      session-admitted pathname (c.hash_token (x ∷ xs)) now id db v

  -- With auth on and a path that is not listed, the gate lets a request through as a user exactly
  -- if its cookie has a token that is not empty, whose stored session is not over and belongs to
  -- that user, who exists and is not disabled.
  pub auth_gate-HasAccess :
      (pathname : Str) (cookie : Option Str) (now : ℕ) (acting : Option ℕ) (db : Db c.Hash)
      → db.auth_enabled ≡ true
      → is_allowlisted pathname ≡ false
      → ((auth_gate c pathname cookie now db).0 ≡ through acting)
        ↔ ((id : ℕ) × (acting ≡ some id) × HasAccess db cookie now id)
  auth_gate-HasAccess pathname cookie now acting db on guard = (
    λ h.
        session_of-access pathname acting (parse_cookie cookie session_cookie) cookie now db refl
          (sym (guarded pathname cookie now db on guard) ∙ h),
    λ k.
        guarded pathname cookie now db on guard
        ∙ ap (λ t. admit pathname (user_of (session_of c.hash_token t now db.sessions).0 db.users))
            k.2.sent
        ∙ access-session_of pathname k.2.token now k.0 db k.2.not_blank k.2.valid
        ∙ ap through (sym k.1),
  )
