-- ===== src/Subnet/Splitting.antt =====
-- Cutting a text at a character that its first piece does not have.
use proxmoxwhatsapp.Prelude.{
  ℕ, ◌≡◌, refl, ==-refl, [], ◌∷◌, ◌++◌, all, not, true, ◌==◌, Bool-cases, inl, inr, arith,
}
use proxmoxwhatsapp.Subnet.Text.{Str, split}

-- No unit of the text is `c`.
abbrev pub Lacks : ℕ → Str → Type 0
Lacks c s = all (λ x. not (x == c)) s ≡ true

pub split-piece : (c : ℕ) (xs ys : Str) → Lacks c xs → split c (xs ++ (c ∷ ys)) ≡ xs ∷ split c ys
unfolding split
split-piece c [] ys h = rw (==-refl c) refl
split-piece c (x ∷ xs) ys h = elim (Bool-cases (x == c)) [
  | inl e ↦ ground arith
  | inr e ↦ rw (e, split-piece c xs ys (grind arith)) refl
]

pub split-last : (c : ℕ) (xs : Str) → Lacks c xs → split c xs ≡ xs ∷ []
unfolding split
split-last c [] h = refl
split-last c (x ∷ xs) h = elim (Bool-cases (x == c)) [
  | inl e ↦ ground arith
  | inr e ↦ rw (e, split-last c xs (grind arith)) refl
]
