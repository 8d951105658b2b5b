-- ===== src/Accounts/Rows.antt =====
-- The users table: what a change of one row does to keys, counts and look-ups.
use proxmoxwhatsapp.Prelude.{
  ℕ, suc, ◌+◌, List, [], ◌∷◌, length, All, Bool, true, false, some, ◌==◌, ==→eq, ne→==, Bool-cases,
  if◌then◌else◌, ◌≡◌, ◌≢◌, refl, sym, ap, ◌∙◌, inl, inr, arith,
}
use mathlib.Core.Path.{subst}
use proxmoxwhatsapp.Accounts.{UserRow, get_by_id, update_where, count_rows}

abbrev pub bit : Bool → ℕ
bit b = if b then 1 else 0

module _ {Hash : Type 0} where
  -- No row has the key.
  abbrev pub Lacks : ℕ → List (UserRow Hash) → Type 0
  Lacks id rows = All (λ row. row.id ≢ id) rows

  abbrev pub UniqueIds : List (UserRow Hash) → Type 0
  UniqueIds [] = Unit {0}
  UniqueIds (row ∷ rows) = Lacks row.id rows × UniqueIds rows

  abbrev pub KeepsId : (UserRow Hash → UserRow Hash) → Type 0
  KeepsId f = (row : UserRow Hash) → (f row).id ≡ row.id

  pub update_where-Lacks :
      (id : ℕ) (f : UserRow Hash → UserRow Hash) (rows : List (UserRow Hash))
      → Lacks id rows
      → update_where id f rows ≡ rows
  unfolding update_where
  update_where-Lacks id f [] h = refl
  update_where-Lacks id f (row ∷ rows) h =
      rw (ne→== row.id id h.0, update_where-Lacks id f rows h.1) refl

  Lacks-update_where :
      (j id : ℕ) (f : UserRow Hash → UserRow Hash) (rows : List (UserRow Hash))
      → KeepsId f
      → Lacks j rows
      → Lacks j (update_where id f rows)
  unfolding update_where
  Lacks-update_where j id f [] k h = tt
  Lacks-update_where j id f (row ∷ rows) k h = elim (Bool-cases (row.id == id)) [
    | inl e ↦ rw e ((λ q. h.0 (sym (k row) ∙ q)), Lacks-update_where j id f rows k h.1)
    | inr e ↦ rw e (h.0, Lacks-update_where j id f rows k h.1)
  ]

  pub update_where-UniqueIds :
      (id : ℕ) (f : UserRow Hash → UserRow Hash) (rows : List (UserRow Hash))
      → KeepsId f
      → UniqueIds rows
      → UniqueIds (update_where id f rows)
  unfolding update_where
  update_where-UniqueIds id f [] k u = tt
  update_where-UniqueIds id f (row ∷ rows) k u = elim (Bool-cases (row.id == id)) [
    | inl e ↦ rw e (
      rw (k row) (Lacks-update_where row.id id f rows k u.0),
      update_where-UniqueIds id f rows k u.1,
    )
    | inr e ↦
        rw e (Lacks-update_where row.id id f rows k u.0, update_where-UniqueIds id f rows k u.1)
  ]

  pub get-here :
      (id : ℕ) (row : UserRow Hash) (rows : List (UserRow Hash))
      → (row.id == id) ≡ true
      → get_by_id id (row ∷ rows) ≡ some row
  unfolding get_by_id
  get-here id row rows e = rw e refl

  pub get-behind :
      (id : ℕ) (row : UserRow Hash) (rows : List (UserRow Hash))
      → (row.id == id) ≡ false
      → get_by_id id (row ∷ rows) ≡ get_by_id id rows
  unfolding get_by_id
  get-behind id row rows e = rw e refl

  pub some-eq : (a b : UserRow Hash) → some a ≡ some b → a ≡ b
  some-eq a b h = cc

  pub get_by_id-id :
      (id : ℕ) (rows : List (UserRow Hash)) (row : UserRow Hash)
      → get_by_id id rows ≡ some row
      → row.id ≡ id
  unfolding get_by_id
  get_by_id-id id [] row g = absurd cc
  get_by_id-id id (r ∷ rows) row g = elim (Bool-cases (r.id == id)) [
    | inl e ↦
        ap (λ x. x.id) (sym (some-eq r row (sym (get-here id r rows e) ∙ g))) ∙ ==→eq r.id id e
    | inr e ↦ get_by_id-id id rows row (sym (get-behind id r rows e) ∙ g)
  ]

  Lacks-self : (id j : ℕ) (rows : List (UserRow Hash)) → j ≡ id → Lacks j rows → Lacks id rows
  Lacks-self id j rows e h = subst (λ x. Lacks x rows) e h

  count_rows-update_head :
      (test : UserRow Hash → Bool) (id : ℕ) (f : UserRow Hash → UserRow Hash) (row : UserRow Hash)
      (rows : List (UserRow Hash))
      → (row.id == id) ≡ true
      → Lacks row.id rows
      → count_rows test (update_where id f (row ∷ rows)) + bit (test row)
        ≡ count_rows test (row ∷ rows) + bit (test (f row))
  unfolding count_rows update_where
  count_rows-update_head test id f row rows e h =
      rw (e, update_where-Lacks id f rows (Lacks-self id row.id rows (==→eq row.id id e) h))
        (omega arith)

  pub count_rows-update_where :
      (test : UserRow Hash → Bool) (id : ℕ) (f : UserRow Hash → UserRow Hash)
      (rows : List (UserRow Hash)) (row : UserRow Hash)
      → UniqueIds rows
      → get_by_id id rows ≡ some row
      → count_rows test (update_where id f rows) + bit (test row)
        ≡ count_rows test rows + bit (test (f row))
  unfolding count_rows update_where get_by_id
  count_rows-update_where test id f [] row u g = absurd cc
  count_rows-update_where test id f (r ∷ rows) row u g = elim (Bool-cases (r.id == id)) [
    | inl e ↦
        subst
          (λ x.
            count_rows test (update_where id f (r ∷ rows)) + bit (test x)
            ≡ count_rows test (r ∷ rows) + bit (test (f x)))
          (some-eq r row (sym (get-here id r rows e) ∙ g))
          (count_rows-update_head test id f r rows e u.0)
    | inr e ↦
        let ih =
          count_rows-update_where test id f rows row u.1 (sym (get-behind id r rows e) ∙ g) in
        rw e (omega (arith, ih))
  ]

  pub get_by_id-update_where :
      (j id : ℕ) (f : UserRow Hash → UserRow Hash) (rows : List (UserRow Hash))
      → KeepsId f
      → j ≢ id
      → get_by_id j (update_where id f rows) ≡ get_by_id j rows
  unfolding update_where get_by_id
  get_by_id-update_where j id f [] k n = refl
  get_by_id-update_where j id f (row ∷ rows) k n = elim (Bool-cases (row.id == id)) [
    | inl e ↦
        let no : row.id ≢ j = λ q. n (sym q ∙ ==→eq row.id id e) in
        rw (e, k row, ne→== row.id j no, get_by_id-update_where j id f rows k n) refl
    | inr e ↦ rw (e, get_by_id-update_where j id f rows k n) refl
  ]

  pub get_by_id-update_self :
      (id : ℕ) (f : UserRow Hash → UserRow Hash) (rows : List (UserRow Hash)) (row : UserRow Hash)
      → KeepsId f
      → get_by_id id rows ≡ some row
      → get_by_id id (update_where id f rows) ≡ some (f row)
  unfolding update_where get_by_id
  get_by_id-update_self id f [] row k g = absurd cc
  get_by_id-update_self id f (r ∷ rows) row k g = elim (Bool-cases (r.id == id)) [
    | inl e ↦ rw e (
        get-here id (f r) _ (ap (λ x. x == id) (k r) ∙ e)
        ∙ ap (λ x. some (f x)) (some-eq r row (sym (get-here id r rows e) ∙ g)))
    | inr e ↦ rw e (rw e (get_by_id-update_self id f rows row k (sym (get-behind id r rows e) ∙ g)))
  ]

  pub All-update_where {κ} :
      (P : UserRow Hash → Type κ) (id : ℕ) (f : UserRow Hash → UserRow Hash)
      (rows : List (UserRow Hash))
      → ((row : UserRow Hash) → P row → P (f row))
      → All P rows
      → All P (update_where id f rows)
  unfolding update_where
  All-update_where P id f [] keep h = tt
  All-update_where P id f (row ∷ rows) keep h = elim (Bool-cases (row.id == id)) [
    | inl e ↦ rw e (keep row h.0, All-update_where P id f rows keep h.1)
    | inr e ↦ rw e (h.0, All-update_where P id f rows keep h.1)
  ]

  pub length-update_where :
      (id : ℕ) (f : UserRow Hash → UserRow Hash) (rows : List (UserRow Hash))
      → length (update_where id f rows) ≡ length rows
  unfolding update_where
  length-update_where id f [] = refl
  length-update_where id f (row ∷ rows) = ap suc (length-update_where id f rows)

  -- One statement after another on the same row.
  pub update_where-update_where :
      (id : ℕ) (f g : UserRow Hash → UserRow Hash) (rows : List (UserRow Hash))
      → KeepsId g
      → update_where id f (update_where id g rows) ≡ update_where id (λ row. f (g row)) rows
  unfolding update_where
  update_where-update_where id f g [] k = refl
  update_where-update_where id f g (row ∷ rows) k = elim (Bool-cases (row.id == id)) [
    | inl e ↦ rw (e, k row, e, update_where-update_where id f g rows k) refl
    | inr e ↦ rw e (rw (e, update_where-update_where id f g rows k) refl)
  ]

  pub update_where-id :
      (id : ℕ) (rows : List (UserRow Hash)) → update_where id (λ row. row) rows ≡ rows
  unfolding update_where
  update_where-id id [] = refl
  update_where-id id (row ∷ rows) = elim (Bool-cases (row.id == id)) [
    | inl e ↦ rw (e, update_where-id id rows) refl
    | inr e ↦ rw (e, update_where-id id rows) refl
  ]
