-- ===== src/Accounts/Admins.antt =====
-- What is kept about the users: somebody can always administer, and with auth on everybody has a
-- password.
use proxmoxwhatsapp.Prelude.{
  ℕ, ◌+◌, ◌≤◌, List, [], ◌∷◌, ◌++◌, length, All, All-append, Bool, true, false, some, Bool-cases,
  ◌≡◌, ◌⊎◌, inl, inr, refl, sym, ap, ◌∙◌, arith, ◌==◌,
}
use mathlib.Core.Path.{subst}
use proxmoxwhatsapp.Accounts.{
  UserRow, get_by_id, update_where, delete_where, count_rows, is_enabled_admin, has_hash,
  count_enabled_admins, count_enabled_admins_with_password, next_row_id,
}
use proxmoxwhatsapp.Accounts.Rows.{
  UniqueIds, KeepsId, bit, update_where-UniqueIds, count_rows-update_where, All-update_where,
  length-update_where, get-here, get-behind, some-eq,
}
use proxmoxwhatsapp.Accounts.Membership.{
  UniqueIds-next, count_rows-append, UniqueIds-delete_where, count_rows-delete_where,
  All-delete_where,
}

left_admins :
    (before after : ℕ) (was is : Bool)
    → after + bit was ≡ before + bit is
    → 1 ≤ before
    → (was ≡ true → (2 ≤ before) ⊎ (is ≡ true))
    → 1 ≤ after
left_admins before after true is e h k = elim (k refl) [
  | inl two ↦ ground arith
  | inr same ↦ ground arith
]
left_admins before after false is e h k = ground arith

left_behind :
    (before after : ℕ) (was : Bool)
    → after + bit was ≡ before
    → 1 ≤ before
    → (was ≡ true → 2 ≤ before)
    → 1 ≤ after
left_behind before after true e h k = omega (arith, k refl)
left_behind before after false e h k = omega arith

module _ {Hash : Type 0} where
  abbrev pub HasHash : UserRow Hash → Type 0
  HasHash row = has_hash row ≡ true

  abbrev pub KeepsHash : (UserRow Hash → UserRow Hash) → Type 0
  KeepsHash f = (row : UserRow Hash) → HasHash row → HasHash (f row)

  -- Only the implicit admin lacks a password, while it is alone and auth is off.
  pub record IsSecure (users : List (UserRow Hash)) (auth_enabled : Bool) : Type 0 where
    pub unique : UniqueIds users
    pub some_admin : 1 ≤ count_enabled_admins users
    pub passwords : All HasHash users ⊎ (length users ≡ 1)
    pub secured : auth_enabled ≡ true → All HasHash users

  -- A change of a row leaves an enabled admin: this one, or one of several.
  abbrev pub LeavesAdmin : UserRow Hash → UserRow Hash → List (UserRow Hash) → Type 0
  LeavesAdmin row row' users =
      is_enabled_admin row ≡ true
      → (2 ≤ count_enabled_admins users) ⊎ (is_enabled_admin row' ≡ true)

  pub update_where-IsSecure :
      (id : ℕ) (f : UserRow Hash → UserRow Hash) (users : List (UserRow Hash)) (auth : Bool)
      (row : UserRow Hash)
      → KeepsId f
      → KeepsHash f
      → get_by_id id users ≡ some row
      → LeavesAdmin row (f row) users
      → IsSecure users auth
      → IsSecure (update_where id f users) auth
  unfolding count_enabled_admins
  update_where-IsSecure id f users auth row k h g l s = record {
    unique = update_where-UniqueIds id f users k s.unique;
    some_admin =
        left_admins (count_enabled_admins users) (count_enabled_admins (update_where id f users))
          (is_enabled_admin row) (is_enabled_admin (f row))
          (count_rows-update_where is_enabled_admin id f users row s.unique g) s.some_admin l;
    passwords = elim s.passwords [
      | inl all ↦ inl (All-update_where HasHash id f users h all)
      | inr one ↦ inr (length-update_where id f users ∙ one)
    ];
    secured = λ on. All-update_where HasHash id f users h (s.secured on);
  }

  pub All-get_by_id {κ} :
      (P : UserRow Hash → Type κ) (id : ℕ) (users : List (UserRow Hash)) (row : UserRow Hash)
      → All P users
      → get_by_id id users ≡ some row
      → P row
  unfolding get_by_id
  All-get_by_id P id [] row h g = absurd cc
  All-get_by_id P id (r ∷ users) row h g = elim (Bool-cases (r.id == id)) [
    | inl e ↦ subst P (some-eq r row (sym (get-here id r users e) ∙ g)) h.0
    | inr e ↦ All-get_by_id P id users row h.1 (sym (get-behind id r users e) ∙ g)
  ]

  -- A table of one row is the row that is found in it.
  pub single :
      (id : ℕ) (users : List (UserRow Hash)) (row : UserRow Hash)
      → length users ≡ 1
      → get_by_id id users ≡ some row
      → users ≡ row ∷ []
  unfolding get_by_id
  single id [] row n g = absurd cc
  single id (r ∷ []) row n g = elim (Bool-cases (r.id == id)) [
    | inl e ↦ ap (λ x. x ∷ []) (some-eq r row (sym (get-here id r [] e) ∙ g))
    | inr e ↦ absurd (ground (arith, get-behind id r [] e))
  ]
  single id (r ∷ (s ∷ users)) row n g = absurd (omega arith)

  one-HasHash :
      (users : List (UserRow Hash))
      → length users ≡ 1
      → 1 ≤ count_enabled_admins_with_password users
      → All HasHash users
  unfolding count_enabled_admins_with_password count_rows
  one-HasHash [] n h = tt
  one-HasHash (r ∷ []) n h = elim (Bool-cases (has_hash r)) [
    | inl e ↦ (e, tt)
    | inr e ↦ ground arith
  ]
  one-HasHash (r ∷ (s ∷ users)) n h = absurd (omega arith)

  -- An enabled admin with a password is there only when everybody has one.
  pub with_password-HasHash :
      (users : List (UserRow Hash)) (auth : Bool)
      → IsSecure users auth
      → 1 ≤ count_enabled_admins_with_password users
      → All HasHash users
  with_password-HasHash users auth s h = elim s.passwords [
    | inl all ↦ all
    | inr one ↦ one-HasHash users one h
  ]

  pub count-with_password :
      (users : List (UserRow Hash))
      → All HasHash users
      → count_enabled_admins_with_password users ≡ count_enabled_admins users
  unfolding count_enabled_admins count_enabled_admins_with_password count_rows
  count-with_password [] h = refl
  count-with_password (row ∷ users) h = rw h.0 (ground (arith, count-with_password users h.1))

  pub append-IsSecure :
      (users : List (UserRow Hash)) (auth auth' : Bool) (row : UserRow Hash)
      → row.id ≡ next_row_id users
      → HasHash row
      → All HasHash users
      → IsSecure users auth
      → IsSecure (users ++ (row ∷ [])) auth'
  unfolding count_enabled_admins
  append-IsSecure users auth auth' row e h all s =
      let all' : All HasHash (users ++ (row ∷ [])) =
        All-append HasHash users (row ∷ []) all (h, tt) in
      record {
        unique = UniqueIds-next users row s.unique e;
        some_admin = omega (arith, count_rows-append is_enabled_admin users row, s.some_admin);
        passwords = inl all';
        secured = λ on. all';
      }

  one_admin_of :
      (row : UserRow Hash)
      → 1 ≤ count_rows is_enabled_admin (row ∷ [])
      → (is_enabled_admin row ≡ true) × (count_rows is_enabled_admin (row ∷ []) ≤ 1)
  unfolding count_rows
  one_admin_of row h = elim (Bool-cases (is_enabled_admin row)) [
    | inl e ↦ (e, rw e (omega arith))
    | inr e ↦ absurd (ground arith)
  ]

  pub one_admin :
      (users : List (UserRow Hash)) (row : UserRow Hash)
      → users ≡ row ∷ []
      → 1 ≤ count_enabled_admins users
      → (is_enabled_admin row ≡ true) × (count_enabled_admins users ≤ 1)
  unfolding count_enabled_admins count_rows
  one_admin users row e h =
      subst
        (λ us.
          1 ≤ count_rows is_enabled_admin us
          → (is_enabled_admin row ≡ true) × (count_rows is_enabled_admin us ≤ 1))
        (sym e) (one_admin_of row) h

  pub delete_where-IsSecure :
      (id : ℕ) (users : List (UserRow Hash)) (auth : Bool) (row : UserRow Hash)
      → get_by_id id users ≡ some row
      → (is_enabled_admin row ≡ true → 2 ≤ count_enabled_admins users)
      → IsSecure users auth
      → IsSecure (delete_where id users) auth
  unfolding count_enabled_admins
  delete_where-IsSecure id users auth row g l s = record {
    unique = UniqueIds-delete_where id users s.unique;
    some_admin =
        left_behind (count_enabled_admins users) (count_enabled_admins (delete_where id users))
          (is_enabled_admin row) (count_rows-delete_where is_enabled_admin id users row s.unique g)
          s.some_admin l;
    passwords = elim s.passwords [
      | inl all ↦ inl (All-delete_where HasHash id users all)
      | inr one ↦
          let (is, few) = one_admin users row (single id users row one g) s.some_admin in
          absurd (omega (arith, l is, few))
    ];
    secured = λ on. All-delete_where HasHash id users (s.secured on);
  }
