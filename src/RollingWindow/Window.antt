-- ===== src/RollingWindow/Window.antt =====
-- The ring buffer against its specification: the list of the latest values.
use native.Mathlib.Nat.{div-add-mod, mod-lt, mod-add-mod, mod-eq_of_lt, mod-mod, add-mod_right}
use native.Mathlib.Numerals.{add-one}
use proxmoxwhatsapp.Prelude.{
  ℕ, zero, suc, ◌+◌, ◌%◌, ◌≤◌, ◌<◌, ◌≡◌, ◌≢◌, refl, ap, ap₂, sym, ◌∙◌, List, [], ◌∷◌, ◌++◌, length,
  set, get_or, drop, arith, ltb, if◌then◌else◌, ℤ, pos, ◌+ℤ◌, ◌-ℤ◌, int_laws, Bool-cases, inl, inr,
  length-set, get_or-set_self, get_or-set_ne, ltb→lt,
}
use proxmoxwhatsapp.RollingWindow.{RollingWindow, push}

-- `n` elements of the ring from `i` on.
unfoldable pub ring : ℕ → List ℤ → ℕ → ℕ → List ℤ
ring capacity buffer zero i = []
ring capacity buffer (suc n) i =
    get_or buffer (i % capacity) (pos 0) ∷ ring capacity buffer n (i + 1)

-- The values that the window holds, oldest first.
abbrev pub held : RollingWindow → List ℤ
held w = ring w.capacity w.buffer w.size w.start

abbrev pub total : List ℤ → ℤ
total [] = pos 0
total (x ∷ xs) = x +ℤ total xs

pub record IsValid (w : RollingWindow) : Type 0 where
  pub positive : 0 < w.capacity
  pub allocated : length w.buffer ≡ w.capacity
  pub started : w.start < w.capacity
  pub bounded : w.size ≤ w.capacity
  pub summed : w.sum ≡ total (held w)

-- Indices less than a round apart are different slots.
mod_apart : (c a b : ℕ) → 0 < c → a < b → b < a + c → a % c ≢ b % c
mod_apart c a b p h k e = grind (arith, div-add-mod a c, div-add-mod b c)

ring-set_apart :
    (c : ℕ) (buffer : List ℤ) (n i j : ℕ) (v : ℤ)
    → 0 < c
    → i + n ≤ j
    → j < i + c
    → ring c (set buffer (j % c) v) n i ≡ ring c buffer n i
unfolding ring
ring-set_apart c buffer zero i j v p h k = refl
ring-set_apart c buffer (suc n) i j v p h k =
    ap₂ ◌∷◌
      (get_or-set_ne buffer (j % c) (i % c) v (pos 0)
        (λ e. mod_apart c i j p (omega arith) k (sym e)))
      (ring-set_apart c buffer n (i + 1) j v p (omega arith) (omega arith))

ring-last_suc :
    (c : ℕ) (buffer : List ℤ) (n i : ℕ)
    → ring c buffer (suc n) i ≡ ring c buffer n i ++ get_or buffer ((i + n) % c) (pos 0) ∷ []
unfolding ring
ring-last_suc c buffer zero i = ap (λ j. get_or buffer (j % c) (pos 0) ∷ []) (omega arith)
ring-last_suc c buffer (suc n) i = ap (get_or buffer (i % c) (pos 0) ∷◌) (
    ring-last_suc c buffer n (i + 1)
    ∙ ap (λ j. ring c buffer n (i + 1) ++ get_or buffer (j % c) (pos 0) ∷ []) (omega arith))

-- The ring depends on where it begins only up to whole rounds.
ring-mod :
    (c : ℕ) (buffer : List ℤ) (n i j : ℕ) → i % c ≡ j % c → ring c buffer n i ≡ ring c buffer n j
unfolding ring
ring-mod c buffer zero i j e = refl
ring-mod c buffer (suc n) i j e = ap₂ ◌∷◌ (ap (λ k. get_or buffer k (pos 0)) e) (
    ring-mod c buffer n (i + 1) (j + 1)
      (sym (mod-add-mod i c 1) ∙ ap (λ (k : ℕ). (k + 1) % c) e ∙ mod-add-mod j c 1))

total-append : (xs ys : List ℤ) → total (xs ++ ys) ≡ total xs +ℤ total ys
total-append [] ys = omega int_laws
total-append (x ∷ xs) ys = rw (total-append xs ys) (omega int_laws)

-- The specification of `push`: the value comes last, and the first goes when the window is full.
abbrev pub pushed : ℕ → ℤ → List ℤ → List ℤ
pushed capacity value xs =
    if ltb (length xs) capacity then xs ++ value ∷ [] else drop 1 xs ++ value ∷ []

pub length-ring : (c : ℕ) (buffer : List ℤ) (n i : ℕ) → length (ring c buffer n i) ≡ n
unfolding ring
length-ring c buffer zero i = refl
length-ring c buffer (suc n) i = ap suc (length-ring c buffer n (i + 1))

-- The two branches of `push`.
held_growing :
    (c : ℕ) (buffer : List ℤ) (n i : ℕ) (v : ℤ)
    → length buffer ≡ c
    → n < c
    → ring c (set buffer ((i + n) % c) v) (n + 1) i ≡ ring c buffer n i ++ v ∷ []
held_growing c buffer n i v allocated h = rw (add-one n) (
    ring-last_suc c (set buffer ((i + n) % c) v) n i
    ∙ ap₂ (λ xs x. xs ++ x ∷ [])
        (ring-set_apart c buffer n i (i + n) v (omega arith) (omega arith) (omega arith))
        (get_or-set_self buffer ((i + n) % c) v (pos 0)
          (omega (arith, mod-lt (i + n) {m = c} (omega arith)))))

round : (m i : ℕ) → i < suc m → (i + suc m) % suc m ≡ i
round m i h = add-mod_right i (suc m) ∙ mod-eq_of_lt h

kept :
    (m : ℕ) (buffer : List ℤ) (i : ℕ) (v : ℤ)
    → i < suc m
    → ring (suc m) (set buffer i v) m (i + 1) ≡ ring (suc m) buffer m (i + 1)
kept m buffer i v h =
    ap (λ j. ring (suc m) (set buffer j v) m (i + 1)) (sym (round m i h))
    ∙ ring-set_apart (suc m) buffer m (i + 1) (i + suc m) v (omega arith) (omega arith)
        (omega arith)

last_slot :
    (m : ℕ) (buffer : List ℤ) (i : ℕ) (v : ℤ)
    → length buffer ≡ suc m
    → i < suc m
    → get_or (set buffer i v) ((i + 1 + m) % suc m) (pos 0) ≡ v
last_slot m buffer i v allocated h =
    ap (λ j. get_or (set buffer i v) (j % suc m) (pos 0)) (omega arith)
    ∙ ap (λ j. get_or (set buffer i v) j (pos 0)) (round m i h)
    ∙ get_or-set_self buffer i v (pos 0) (omega arith)

held_full :
    (m : ℕ) (buffer : List ℤ) (i : ℕ) (v : ℤ)
    → length buffer ≡ suc m
    → i < suc m
    → ring (suc m) (set buffer i v) (suc m) ((i + 1) % suc m)
      ≡ drop 1 (ring (suc m) buffer (suc m) i) ++ v ∷ []
unfolding ring
held_full m buffer i v allocated h =
    ring-mod (suc m) (set buffer i v) (suc m) ((i + 1) % suc m) (i + 1) (mod-mod (i + 1) (suc m))
    ∙ ring-last_suc (suc m) (set buffer i v) m (i + 1)
    ∙ ap₂ (λ xs x. xs ++ x ∷ []) (kept m buffer i v h) (last_slot m buffer i v allocated h)

held_turned :
    (c n : ℕ) (buffer : List ℤ) (i : ℕ) (v : ℤ)
    → length buffer ≡ c
    → i < c
    → n ≡ c
    → ring c (set buffer i v) n ((i + 1) % c) ≡ drop 1 (ring c buffer n i) ++ v ∷ []
held_turned zero n buffer i v allocated h e = ground arith
held_turned (suc m) n buffer i v allocated h e = rw e (held_full m buffer i v allocated h)

-- The sum after the oldest value gave way to a new one.
total_turned :
    (c n : ℕ) (buffer : List ℤ) (i : ℕ) (v s : ℤ)
    → 0 < c
    → n ≡ c
    → i < c
    → s ≡ total (ring c buffer n i)
    → s +ℤ (v -ℤ get_or buffer i (pos 0)) ≡ total (drop 1 (ring c buffer n i) ++ v ∷ [])
unfolding ring
total_turned c zero buffer i v s p e h q = ground arith
total_turned c (suc n) buffer i v s p e h q =
    rw (total-append (ring c buffer n (i + 1)) (v ∷ []), q, mod-eq_of_lt h) (omega int_laws)

total_grown : (xs : List ℤ) (v s : ℤ) → s ≡ total xs → s +ℤ v ≡ total (xs ++ v ∷ [])
total_grown xs v s q = rw (total-append xs (v ∷ []), q) (omega int_laws)

pub push-held :
    (v : ℤ) (w : RollingWindow) → IsValid w → held (push v w) ≡ pushed w.capacity v (held w)
unfolding push
push-held v w valid = elim (Bool-cases (ltb w.size w.capacity)) [
  | inl e ↦
      rw (length-ring, e)
        (held_growing w.capacity w.buffer w.size w.start v valid.allocated (ltb→lt _ _ e))
  | inr e ↦
      rw (length-ring, e)
        (held_turned w.capacity w.size w.buffer w.start v valid.allocated valid.started
          (grind arith))
]

pub push-IsValid : (v : ℤ) (w : RollingWindow) → IsValid w → IsValid (push v w)
unfolding push
push-IsValid v w valid = elim (Bool-cases (ltb w.size w.capacity)) [
  | inl e ↦ rw e (record {
    positive = valid.positive;
    allocated = length-set w.buffer _ v ∙ valid.allocated;
    started = valid.started;
    bounded = grind arith;
    summed =
        total_grown (held w) v w.sum valid.summed
        ∙ ap total (
            sym (held_growing w.capacity w.buffer w.size w.start v valid.allocated (ltb→lt _ _ e)));
  })
  | inr e ↦ rw e (record {
    positive = valid.positive;
    allocated = length-set w.buffer _ v ∙ valid.allocated;
    started = mod-lt (w.start + 1) valid.positive;
    bounded = valid.bounded;
    summed =
        total_turned w.capacity w.size w.buffer w.start v w.sum valid.positive (grind arith)
          valid.started valid.summed
        ∙ ap total (
            sym (
              held_turned w.capacity w.size w.buffer w.start v valid.allocated valid.started
                (grind arith)));
  })
]
