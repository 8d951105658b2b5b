-- ===== src/Security/Deletion.antt =====
-- Which paths the check of a deletion takes.
use proxmoxwhatsapp.Prelude.{
  ℕ, zero, suc, List, [], ◌∷◌, ◌++◌, any, All, true, false, ◌&&◌, ◌==◌, ==→eq, Bool-cases, inl, inr,
  ◌≡◌, ◌≢◌, refl, sym, ap, ◌∙◌, arith, ok,
}
use mathlib.Core.Path.{subst}
use proxmoxwhatsapp.Subnet.Text.{Str, slash, includes, split}
use proxmoxwhatsapp.Web.Text.{codes, eq_str, eq_str→eq}
use proxmoxwhatsapp.Security.DeviceInput.{
  Value, text, other, is_blank, is_absolute, is_dots, or_root, is_protected, protected_roots,
  without_slashes, check_path,
}

abbrev pub slashes : ℕ → Str
slashes zero = []
slashes (suc n) = slash ∷ slashes n

-- The protected directories without their trailing slash, the root's own too.
abbrev pub bare_roots : List Str
bare_roots =
    []
    ∷ (codes "/sdcard"
        ∷ (codes "/storage"
            ∷ (codes "/storage/emulated"
                ∷ (codes "/storage/emulated/0"
                    ∷ (codes "/data"
                        ∷ (codes "/system"
                            ∷ (codes "/vendor"
                                ∷ (codes "/mnt" ∷ (codes "/proc" ∷ (codes "/dev" ∷ []))))))))))

-- A path that may be deleted: absolute, without NUL and without steps up, and no protected directory,
-- however many slashes follow it.
pub record IsDeletable (p : Str) : Type 0 where
  pub rest : Str
  pub absolute : p ≡ slash ∷ rest
  pub no_nul : includes 0 p ≡ false
  pub no_dots : All (λ segment. (segment ≢ codes ".") × (segment ≢ codes "..")) (split slash p)
  pub no_root : All (λ root. (n : ℕ) → p ≢ root ++ slashes n) bare_roots

without_slashes-slashes : (n : ℕ) → without_slashes (slashes n) ≡ []
unfolding without_slashes
without_slashes-slashes zero = refl
without_slashes-slashes (suc n) = rw (without_slashes-slashes n, without_slashes) refl

without_slashes-append : (r : Str) (n : ℕ) → without_slashes (r ++ slashes n) ≡ without_slashes r
unfolding without_slashes
without_slashes-append [] n = without_slashes-slashes n
without_slashes-append (x ∷ xs) n = rw (without_slashes-append xs n) refl

-- The test finds every protected directory.
IsFound : Str → Type 0
IsFound root = is_protected (or_root (without_slashes root)) ≡ true

roots-IsFound : All IsFound bare_roots
unfolding IsFound is_protected without_slashes eq_str
roots-IsFound =
    (refl, (refl, (refl, (refl, (refl, (refl, (refl, (refl, (refl, (refl, (refl, tt)))))))))))

true_is_false : false ≡ true → ⊥
true_is_false h = cc

found-differs :
    (p : Str) (roots : List Str)
    → All IsFound roots
    → is_protected (or_root (without_slashes p)) ≡ false
    → All (λ root. (n : ℕ) → p ≢ root ++ slashes n) roots
unfolding IsFound
found-differs p [] f h = tt
found-differs p (root ∷ roots) f h = (
  λ n e. true_is_false (
      sym h
      ∙ ap (λ s. is_protected (or_root (without_slashes s))) e
      ∙ ap (λ s. is_protected (or_root s)) (without_slashes-append root n)
      ∙ f.0),
  found-differs p roots f.1 h,
)

no_dots-All :
    (segments : List Str)
    → any is_dots segments ≡ false
    → All (λ segment. (segment ≢ codes ".") × (segment ≢ codes "..")) segments
unfolding eq_str
no_dots-All [] h = tt
no_dots-All (s ∷ segments) h = elim (Bool-cases (is_dots s)) [
  | inl e ↦ absurd (ground arith)
  | inr e ↦ (
    (λ q. true_is_false (sym e ∙ ap is_dots q), λ q. true_is_false (sym e ∙ ap is_dots q)),
    no_dots-All segments (ground arith),
  )
]

absolute-rest : (p : Str) → is_absolute p ≡ true → (rest : Str) × (p ≡ slash ∷ rest)
absolute-rest [] h = absurd cc
absolute-rest (x ∷ xs) h = (xs, ap (λ c. c ∷ xs) (==→eq x slash h))

check_path-parts :
    (q p : Str)
    → check_path (text q) ≡ ok p
    → (includes 0 q ≡ false)
      × (is_absolute q ≡ true)
      × (any is_dots (split slash q) ≡ false)
      × (is_protected (or_root (without_slashes q)) ≡ false)
      × (q ≡ p)
unfolding check_path
check_path-parts q p h = (ground arith, ground arith, ground arith, ground arith, ground arith)

pub check_path-IsDeletable : (value : Value) (p : Str) → check_path value ≡ ok p → IsDeletable p
unfolding check_path
check_path-IsDeletable other p h = absurd cc
check_path-IsDeletable (text q) p h =
    let (no_nul, absolute, no_dots, free, same) = check_path-parts q p h in
    let (rest, e) = absolute-rest q absolute in
    subst IsDeletable same (record {
      rest = rest;
      absolute = e;
      no_nul = no_nul;
      no_dots = no_dots-All (split slash q) no_dots;
      no_root = found-differs q bare_roots roots-IsFound free;
    })

blank-nil : (s : Str) → is_blank s ≡ true → s ≡ []
blank-nil [] h = refl
blank-nil (x ∷ xs) h = cc

-- What is cut off is slashes.
cut_slashes : (p : Str) → (n : ℕ) × (p ≡ without_slashes p ++ slashes n)
unfolding without_slashes
cut_slashes [] = (0, refl)
cut_slashes (x ∷ xs) =
    let (n, e) = cut_slashes xs in
    elim (Bool-cases (x == slash && is_blank (without_slashes xs))) [
      | inl h ↦ (
        suc n,
        rw h (
            ap (λ c. c ∷ xs) (==→eq x slash (ground arith))
            ∙ ap (λ ys. slash ∷ ys)
                (e ∙ ap (λ ys. ys ++ slashes n) (blank-nil (without_slashes xs) (ground arith)))),
      )
      | inr h ↦ (n, rw h (ap (λ ys. x ∷ ys) e))
    ]

eq_str_ne : (s t : Str) → s ≢ t → eq_str s t ≡ false
eq_str_ne s t n = elim (Bool-cases (eq_str s t)) [
  | inl e ↦ absurd (n (eq_str→eq s t e))
  | inr e ↦ e
]

none_equal :
    (s : Str) (roots : List Str)
    → All (λ root. s ≢ root) roots
    → any (λ root. eq_str s root) roots ≡ false
none_equal s [] h = refl
none_equal s (root ∷ roots) h = rw (eq_str_ne s root h.0) (none_equal s roots h.1)

All-no_dots :
    (segments : List Str)
    → All (λ segment. (segment ≢ codes ".") × (segment ≢ codes "..")) segments
    → any is_dots segments ≡ false
All-no_dots [] h = refl
All-no_dots (s ∷ segments) h =
    rw (eq_str_ne s (codes ".") h.0.0, eq_str_ne s (codes "..") h.0.1) (All-no_dots segments h.1)

root_ne : codes "/" ≢ without_slashes (codes "/")
unfolding without_slashes
root_ne h = cc

without_slashes-ne_root : (p : Str) → without_slashes p ≢ codes "/"
without_slashes-ne_root p h =
    let (n, e) = cut_slashes p in
    let twice : without_slashes p ≡ without_slashes (without_slashes p) =
      ap without_slashes e ∙ without_slashes-append (without_slashes p) n in
    root_ne (sym h ∙ twice ∙ ap without_slashes h)

bare-unprotected :
    (s : Str) → s ≢ codes "/" → All (λ root. s ≢ root) bare_roots → is_protected (or_root s) ≡ false
unfolding is_protected
bare-unprotected [] n h = absurd (h.0 refl)
bare-unprotected (x ∷ xs) n h = none_equal (x ∷ xs) protected_roots (n, h.1)

unslashed :
    (p s : Str) (n : ℕ) (roots : List Str)
    → p ≡ s ++ slashes n
    → All (λ root. (n : ℕ) → p ≢ root ++ slashes n) roots
    → All (λ root. s ≢ root) roots
unslashed p s n [] e h = tt
unslashed p s n (root ∷ roots) e h =
    (λ q. h.0 n (e ∙ ap (λ r. r ++ slashes n) q), unslashed p s n roots e h.1)

pub IsDeletable-check_path : (p : Str) → IsDeletable p → check_path (text p) ≡ ok p
unfolding check_path
IsDeletable-check_path p d =
    let (n, e) = cut_slashes p in
    let free =
      bare-unprotected (without_slashes p) (without_slashes-ne_root p)
        (unslashed p (without_slashes p) n bare_roots e d.no_root) in
    let full : is_blank p ≡ false = ap is_blank d.absolute in
    let absolute : is_absolute p ≡ true = ap is_absolute d.absolute in
    rw (full, d.no_nul, absolute, All-no_dots (split slash p) d.no_dots, free, check_path) refl
