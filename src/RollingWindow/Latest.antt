-- ===== src/RollingWindow/Latest.antt =====
-- A rolling window that is fed a series: it holds, and averages, the latest values.
use proxmoxwhatsapp.Prelude.{
  ℕ, zero, suc, ◌+◌, ◌-◌, ◌<◌, ◌≡◌, refl, ap, ap₂, sym, ◌∙◌, List, [], ◌∷◌, ◌++◌, length, replicate,
  drop, arith, true, false, ltb, ℤ, pos, Bool-cases, inl, inr, length-append, length-replicate,
  length-drop, ok, ◌>>=◌, ltb→lt, append_assoc, append-nil, drop-append_le, ne→==, lt→ltb,
}
use proxmoxwhatsapp.RollingWindow.{RollingWindow, new_rolling_window, push, average, clear}
use proxmoxwhatsapp.RollingWindow.Window.{
  ring, length-ring, held, total, IsValid, pushed, push-held, push-IsValid,
}

-- A window as `new` leaves it.
abbrev pub empty_window : ℕ → RollingWindow
empty_window capacity = record {
  buffer = replicate capacity (pos 0);
  capacity = capacity;
  start = 0;
  size = 0;
  sum = pos 0;
}

unfoldable pub push_all : List ℤ → RollingWindow → RollingWindow
push_all [] w = w
push_all (v ∷ vs) w = push_all vs (push v w)

abbrev pub latest : ℕ → List ℤ → List ℤ
latest n xs = drop (length xs - n) xs

empty_window-IsValid : (capacity : ℕ) → 0 < capacity → IsValid (empty_window capacity)
unfolding ring
empty_window-IsValid capacity p = record {
  positive = p;
  allocated = length-replicate capacity (pos 0);
  started = p;
  bounded = omega arith;
  summed = refl;
}

clear-IsValid : (w : RollingWindow) → IsValid w → IsValid (clear w)
unfolding clear ring
clear-IsValid w valid = record {
  positive = valid.positive;
  allocated = valid.allocated;
  started = valid.positive;
  bounded = omega arith;
  summed = refl;
}

push-capacity : (v : ℤ) (w : RollingWindow) → (push v w).capacity ≡ w.capacity
unfolding push
push-capacity v w = elim (Bool-cases (ltb w.size w.capacity)) [
  | inl e ↦ rw e refl
  | inr e ↦ rw e refl
]

drop-suc : {A : Type 0} → (n : ℕ) (xs : List A) → drop 1 (drop n xs) ≡ drop (suc n) xs
drop-suc zero xs = refl
drop-suc (suc n) [] = refl
drop-suc (suc n) (x ∷ xs) = drop-suc n xs

pushed-latest :
    (c : ℕ) (v : ℤ) (xs : List ℤ) → 0 < c → pushed c v (latest c xs) ≡ latest c (xs ++ v ∷ [])
pushed-latest c v xs p = elim (Bool-cases (ltb (length xs) c)) [
  | inl e ↦
      let short = ltb→lt _ _ e in
      rw (length-drop, length-append, less (length xs) short, more (length xs) short)
        (rw (keep (length xs) short) refl)
  | inr e ↦
      rw (length-drop, length-append, rest (length xs) e, turn (length xs) e)
        (ap (λ ys. ys ++ v ∷ []) (drop-suc (length xs - c) xs)
          ∙ sym (drop-append_le (suc (length xs - c)) xs (v ∷ []) (grind arith)))
]
  where
    keep : (n : ℕ) → n < c → n - c ≡ 0
    keep n h = omega arith

    less : (n : ℕ) → n < c → ltb (n - (n - c)) c ≡ true
    less n h = lt→ltb _ _ (omega arith)

    more : (n : ℕ) → n < c → n + 1 - c ≡ 0
    more n h = omega arith

    rest : (n : ℕ) → ltb n c ≡ false → ltb (n - (n - c)) c ≡ false
    rest n h = grind arith

    turn : (n : ℕ) → ltb n c ≡ false → n + 1 - c ≡ suc (n - c)
    turn n h = grind arith

push_all-held :
    (vs : List ℤ) (w : RollingWindow) (c : ℕ) (xs : List ℤ)
    → IsValid w
    → w.capacity ≡ c
    → held w ≡ latest c xs
    → IsValid (push_all vs w) × (held (push_all vs w) ≡ latest c (xs ++ vs))
unfolding push_all
push_all-held [] w c xs valid k e = (valid, rw (append-nil xs) e)
push_all-held (v ∷ vs) w c xs valid k e = rw (sym (append_assoc xs (v ∷ []) vs)) (
    push_all-held vs (push v w) c (xs ++ v ∷ []) (push-IsValid v w valid) (push-capacity v w ∙ k)
      (push-held v w valid ∙ ap₂ (λ n ys. pushed n v ys) k e ∙ pushed-latest c v xs (omega arith)))

average-held :
    (w : RollingWindow)
    → IsValid w
    → 0 < length (held w)
    → average w ≡ record { numerator = total (held w); denominator = length (held w) }
unfolding average
average-held w valid h =
    let size = length-ring w.capacity w.buffer w.size w.start in
    rw (ne→== w.size 0 (omega arith))
      (ap₂ (λ n d. record { numerator = n; denominator = d }) valid.summed (sym size))

new_rolling_window-empty : (c : ℕ) → 0 < c → new_rolling_window c ≡ ok (empty_window c)
unfolding new_rolling_window
new_rolling_window-empty c p = rw (ne→== c 0 (omega arith)) refl

-- A rolling window of capacity c > 0, created and then pushed a series of at least one integer,
-- averages the latest c values of the series, or all of them if there are fewer: the numerator is
-- their sum and the denominator their number.
pub average-push_all :
    (c : ℕ) (vs : List ℤ)
    → 0 < c
    → 0 < length vs
    → new_rolling_window c >>= (λ w. ok (average (push_all vs w)))
      ≡ ok (record { numerator = total (latest c vs); denominator = length (latest c vs) })
unfolding ring
average-push_all c vs p h =
    let (valid, e) =
      push_all-held vs (empty_window c) c [] (empty_window-IsValid c p) refl
        (ap (λ n. drop n []) (sub c)) in
    rw (new_rolling_window-empty c p) (
      ap ok (
        average-held (push_all vs (empty_window c)) valid
          (omega (arith, ap length e, length-drop (length vs - c) vs))
        ∙ ap (λ ys. record { numerator = total ys; denominator = length ys }) e))
  where
    sub : (n : ℕ) → 0 ≡ 0 - n
    sub n = omega arith
