-- ===== src/Accounts/Membership.antt =====
-- The users table: a row that comes, and a row that goes.
use proxmoxwhatsapp.Prelude.{
  ℕ, ◌+◌, ◌≤◌, List, [], ◌∷◌, ◌++◌, length, All, All-append, Bool, some, ◌==◌, ==→eq, ne→==,
  Bool-cases, if◌then◌else◌, ◌≡◌, ◌≢◌, refl, sym, ap, ◌∙◌, inl, inr, arith,
}
use mathlib.Core.Path.{subst}
use proxmoxwhatsapp.Accounts.{UserRow, get_by_id, delete_where, count_rows, next_row_id}
use proxmoxwhatsapp.Accounts.Rows.{Lacks, UniqueIds, bit, get-here, get-behind, some-eq}

module _ {Hash : Type 0} where
  Lacks-next : (n : ℕ) (rows : List (UserRow Hash)) → next_row_id rows ≤ n → Lacks n rows
  unfolding next_row_id
  Lacks-next n [] h = tt
  Lacks-next n (row ∷ rows) h = ((λ e. omega arith), Lacks-next n rows (omega arith))

  UniqueIds-append :
      (rows : List (UserRow Hash)) (row : UserRow Hash)
      → UniqueIds rows
      → Lacks row.id rows
      → UniqueIds (rows ++ (row ∷ []))
  UniqueIds-append [] row u h = (tt, tt)
  UniqueIds-append (r ∷ rows) row u h = (
    All-append (λ x. x.id ≢ r.id) rows (row ∷ []) u.0 ((λ e. h.0 (sym e)), tt),
    UniqueIds-append rows row u.1 h.1,
  )

  pub UniqueIds-next :
      (rows : List (UserRow Hash)) (row : UserRow Hash)
      → UniqueIds rows
      → row.id ≡ next_row_id rows
      → UniqueIds (rows ++ (row ∷ []))
  UniqueIds-next rows row u e = UniqueIds-append rows row u (Lacks-next row.id rows (omega arith))

  pub count_rows-append :
      (test : UserRow Hash → Bool) (rows : List (UserRow Hash)) (row : UserRow Hash)
      → count_rows test (rows ++ (row ∷ [])) ≡ count_rows test rows + bit (test row)
  unfolding count_rows
  count_rows-append test [] row = omega arith
  count_rows-append test (r ∷ rows) row = omega (arith, count_rows-append test rows row)

  pub get_by_id-append :
      (id : ℕ) (rows more : List (UserRow Hash)) (row : UserRow Hash)
      → get_by_id id rows ≡ some row
      → get_by_id id (rows ++ more) ≡ some row
  unfolding get_by_id
  get_by_id-append id [] more row g = absurd cc
  get_by_id-append id (r ∷ rows) more row g = elim (Bool-cases (r.id == id)) [
    | inl e ↦ rw e (sym (get-here id r rows e) ∙ g)
    | inr e ↦ rw e (get_by_id-append id rows more row (sym (get-behind id r rows e) ∙ g))
  ]

  Lacks-delete_where :
      (j id : ℕ) (rows : List (UserRow Hash)) → Lacks j rows → Lacks j (delete_where id rows)
  unfolding delete_where
  Lacks-delete_where j id [] h = tt
  Lacks-delete_where j id (row ∷ rows) h = elim (Bool-cases (row.id == id)) [
    | inl e ↦ rw e (Lacks-delete_where j id rows h.1)
    | inr e ↦ rw e (h.0, Lacks-delete_where j id rows h.1)
  ]

  pub UniqueIds-delete_where :
      (id : ℕ) (rows : List (UserRow Hash)) → UniqueIds rows → UniqueIds (delete_where id rows)
  unfolding delete_where
  UniqueIds-delete_where id [] u = tt
  UniqueIds-delete_where id (row ∷ rows) u = elim (Bool-cases (row.id == id)) [
    | inl e ↦ rw e (UniqueIds-delete_where id rows u.1)
    | inr e ↦ rw e (Lacks-delete_where row.id id rows u.0, UniqueIds-delete_where id rows u.1)
  ]

  delete_where-Lacks :
      (id : ℕ) (rows : List (UserRow Hash)) → Lacks id rows → delete_where id rows ≡ rows
  unfolding delete_where
  delete_where-Lacks id [] h = refl
  delete_where-Lacks id (row ∷ rows) h =
      rw (ne→== row.id id h.0, delete_where-Lacks id rows h.1) refl

  pub count_rows-delete_where :
      (test : UserRow Hash → Bool) (id : ℕ) (rows : List (UserRow Hash)) (row : UserRow Hash)
      → UniqueIds rows
      → get_by_id id rows ≡ some row
      → count_rows test (delete_where id rows) + bit (test row) ≡ count_rows test rows
  unfolding count_rows delete_where get_by_id
  count_rows-delete_where test id [] row u g = absurd cc
  count_rows-delete_where test id (r ∷ rows) row u g = elim (Bool-cases (r.id == id)) [
    | inl e ↦
        let same = some-eq r row (sym (get-here id r rows e) ∙ g) in
        let gone = delete_where-Lacks id rows (subst (λ x. Lacks x rows) (==→eq r.id id e) u.0) in
        subst
          (λ x.
            count_rows test (delete_where id (r ∷ rows)) + bit (test x)
            ≡ count_rows test (r ∷ rows))
          same (rw (e, gone) (omega arith))
    | inr e ↦
        let ih = count_rows-delete_where test id rows row u.1 (sym (get-behind id r rows e) ∙ g) in
        rw e (omega (arith, ih))
  ]

  pub All-delete_where {κ} :
      (P : UserRow Hash → Type κ) (id : ℕ) (rows : List (UserRow Hash))
      → All P rows
      → All P (delete_where id rows)
  unfolding delete_where
  All-delete_where P id [] h = tt
  All-delete_where P id (row ∷ rows) h = elim (Bool-cases (row.id == id)) [
    | inl e ↦ rw e (All-delete_where P id rows h.1)
    | inr e ↦ rw e (h.0, All-delete_where P id rows h.1)
  ]

  pub get_by_id-delete_where :
      (j id : ℕ) (rows : List (UserRow Hash))
      → j ≢ id
      → get_by_id j (delete_where id rows) ≡ get_by_id j rows
  unfolding get_by_id delete_where
  get_by_id-delete_where j id [] n = refl
  get_by_id-delete_where j id (row ∷ rows) n = elim (Bool-cases (row.id == id)) [
    | inl e ↦
        let no : row.id ≢ j = λ q. n (sym q ∙ ==→eq row.id id e) in
        rw (e, ne→== row.id j no) (get_by_id-delete_where j id rows n)
    | inr e ↦
        rw e (ap (λ t. if row.id == j then some row else t) (get_by_id-delete_where j id rows n))
  ]

  -- A count is at most the number of rows, and a row that is found is counted.
  pub count_rows-le :
      (test : UserRow Hash → Bool) (rows : List (UserRow Hash)) → count_rows test rows ≤ length rows
  unfolding count_rows
  count_rows-le test [] = omega arith
  count_rows-le test (row ∷ rows) = ground (arith, count_rows-le test rows)
