-- ===== src/Bitstream/Scanner.antt =====
-- What `findNaluByHeader` finds: the first NAL unit whose header byte the caller accepts.
use proxmoxwhatsapp.Prelude.{
  ℕ, suc, ◌+◌, ◌≤◌, List, [], ◌∷◌, ◌++◌, length, Bool, true, ◌≡◌, refl, sym, ap, ap₂, ◌∙◌, inl, inr,
  Option, none, some, get_elem?, Option-cases, Bool-cases, pos, negsuc, arith, if◌then◌else◌,
}
use mathlib.Core.Path.{subst}
use proxmoxwhatsapp.Bitstream.StartCode.{StartCode, short, long, start_code-at}
use proxmoxwhatsapp.Bitstream.{
  start_code, nalu_here, scan_from, find_nalu_by_header, offset_or_minus_one, header_at,
  behind_code, or_later,
}

-- Bytes with a start code at `offset - 3` and behind it a header that the caller accepts.
pub record NaluAt (match : ℕ → Bool) (bytes : List ℕ) (offset : ℕ) : Type 0 where
  pub before : List ℕ
  pub header : ℕ
  pub rest : List ℕ
  pub split : bytes ≡ before ++ (0 ∷ (0 ∷ (1 ∷ (header ∷ rest))))
  pub accepted : match header ≡ true
  pub position : offset ≡ length before + 3

first-cons :
    (bytes : List ℕ) (header : ℕ)
    → get_elem? bytes 0 ≡ some header
    → (rest : List ℕ) × (bytes ≡ header ∷ rest)
first-cons [] header h = absurd cc
first-cons (b ∷ bs) header h = (bs, cc)

-- What the scanner has tested where it returns.
record Accepted (match : ℕ → Bool) (bytes : List ℕ) (offset : ℕ) : Type 0 where
  header : ℕ
  code : start_code bytes ≡ some offset
  present : get_elem? bytes offset ≡ some header
  accepted : match header ≡ true

some-eq : (m n : ℕ) → some m ≡ some n → m ≡ n
some-eq m n h = cc

header_at-Accepted :
    (match : ℕ → Bool) (bytes : List ℕ) (size offset : ℕ) (found : Option ℕ)
    → start_code bytes ≡ some size
    → get_elem? bytes size ≡ found
    → header_at match size found ≡ some offset
    → Accepted match bytes offset
header_at-Accepted match bytes size offset none e p h = absurd cc
header_at-Accepted match bytes size offset (some header) e p h = elim (Bool-cases (match header)) [
  | inl m ↦
      let same : some size ≡ some offset = sym (ap (λ t. if t then some size else none) m) ∙ h in
      record {
        header = header;
        code = e ∙ same;
        present = subst (λ k. get_elem? bytes k ≡ some header) (some-eq size offset same) p;
        accepted = m;
      }
  | inr m ↦ absurd (ground arith)
]

behind_code-Accepted :
    (match : ℕ → Bool) (bytes : List ℕ) (offset : ℕ) (found : Option ℕ)
    → start_code bytes ≡ found
    → behind_code match bytes found ≡ some offset
    → Accepted match bytes offset
behind_code-Accepted match bytes offset none e h = absurd cc
behind_code-Accepted match bytes offset (some size) e h =
    header_at-Accepted match bytes size offset (get_elem? bytes size) e refl h

nalu_here-Accepted :
    (match : ℕ → Bool) (bytes : List ℕ) (offset : ℕ)
    → nalu_here match bytes ≡ some offset
    → Accepted match bytes offset
unfolding nalu_here
nalu_here-Accepted match bytes offset h =
    behind_code-Accepted match bytes offset (start_code bytes) refl h

short_code-at :
    (match : ℕ → Bool) (front bytes rest : List ℕ) (header : ℕ)
    → bytes ≡ front ++ (0 ∷ (0 ∷ (1 ∷ rest)))
    → get_elem? rest 0 ≡ some header
    → match header ≡ true
    → NaluAt match bytes (length front + 3)
short_code-at match front bytes rest header e p m =
    let (behind, q) = first-cons rest header p in
    record {
      before = front;
      header = header;
      rest = behind;
      split = e ∙ ap (λ xs. front ++ (0 ∷ (0 ∷ (1 ∷ xs)))) q;
      accepted = m;
      position = refl;
    }

module _ (match : ℕ → Bool) where
  Accepted-at :
      (bytes : List ℕ) (offset : ℕ)
      → Accepted match bytes offset
      → StartCode bytes offset
      → NaluAt match bytes offset
  Accepted-at bytes offset a (short rest e k) = subst (NaluAt match bytes) (sym k) (
      short_code-at match [] bytes rest a.header e (sym (ap₂ get_elem? e k) ∙ a.present) a.accepted)
  Accepted-at bytes offset a (long rest e k) = subst (NaluAt match bytes) (sym k) (
      short_code-at match (0 ∷ []) bytes rest a.header e (sym (ap₂ get_elem? e k) ∙ a.present)
        a.accepted)

  nalu_here-at :
      (bytes : List ℕ) (offset : ℕ)
      → nalu_here match bytes ≡ some offset
      → NaluAt match bytes offset
  nalu_here-at bytes offset h =
      let a = nalu_here-Accepted match bytes offset h in
      Accepted-at bytes offset a (start_code-at bytes offset a.code)

  nalu_here-bound : (bytes : List ℕ) (offset : ℕ) → nalu_here match bytes ≡ some offset → offset ≤ 4
  nalu_here-bound bytes offset h =
      elim (start_code-at bytes offset (nalu_here-Accepted match bytes offset h).code) [
        | short rest e k ↦ omega arith
        | long rest e k ↦ omega arith
      ]

  later-at :
      (b : ℕ) (bytes : List ℕ) (offset : ℕ)
      → NaluAt match bytes offset
      → NaluAt match (b ∷ bytes) (suc offset)
  later-at b bytes offset n = record {
    before = b ∷ n.before;
    header = n.header;
    rest = n.rest;
    split = ap (λ xs. b ∷ xs) n.split;
    accepted = n.accepted;
    position = omega (arith, n.position);
  }

  scan_from-round :
      (i b : ℕ) (bs : List ℕ) {found : Option ℕ}
      → nalu_here match (b ∷ bs) ≡ found
      → scan_from match i (b ∷ bs) ≡ or_later i found (scan_from match (i + 1) bs)
  unfolding scan_from
  scan_from-round i b bs e = ap (λ o. or_later i o (scan_from match (i + 1) bs)) e

  -- What the scan from `i` on returns is counted from the front of the stream.
  scan_from-at :
      (i : ℕ) (bytes : List ℕ) (offset : ℕ)
      → scan_from match i bytes ≡ some offset
      → (k : ℕ) × (offset ≡ i + k) × NaluAt match bytes k
  unfolding scan_from
  scan_from-at i [] offset h = absurd cc
  scan_from-at i (b ∷ bs) offset h = elim (Option-cases (nalu_here match (b ∷ bs))) [
    | inl n ↦
        let (k, e, at) = scan_from-at (i + 1) bs offset (sym (scan_from-round i b bs n) ∙ h) in
        (suc k, omega arith, later-at b bs k at)
    | inr (k, e) ↦
        let same : some (i + k) ≡ some offset = sym (scan_from-round i b bs e) ∙ h in
        (k, cc, nalu_here-at (b ∷ bs) k e)
  ]

  here :
      (header : ℕ) (rest : List ℕ)
      → match header ≡ true
      → nalu_here match (0 ∷ (0 ∷ (1 ∷ (header ∷ rest)))) ≡ some 3
  unfolding nalu_here start_code
  here header rest m = rw m refl

  scan_from-finds :
      (i : ℕ) (before : List ℕ) (header : ℕ) (rest : List ℕ)
      → match header ≡ true
      → (offset : ℕ) × (scan_from match i (before ++ (0 ∷ (0 ∷ (1 ∷ (header ∷ rest)))))
          ≡ some offset)
        × (offset ≤ i + length before + 3)
  unfolding scan_from
  scan_from-finds i [] header rest m =
      (i + 3, scan_from-round i 0 (0 ∷ (1 ∷ (header ∷ rest))) (here header rest m), omega arith)
  scan_from-finds i (b ∷ bs) header rest m =
      let bytes : List ℕ = bs ++ (0 ∷ (0 ∷ (1 ∷ (header ∷ rest)))) in
      let (offset, e, h) = scan_from-finds (i + 1) bs header rest m in
      elim (Option-cases (nalu_here match (b ∷ bytes))) [
        | inl n ↦ (offset, scan_from-round i b bytes n ∙ e, omega arith)
        | inr (k, f) ↦
            (i + k, scan_from-round i b bytes f, omega (arith, nalu_here-bound (b ∷ bytes) k f))
      ]

pos_zero : {m n : ℕ} → m ≡ 0 + n → n ≡ m
pos_zero h = omega arith

minus_one : {offset : ℕ} → negsuc 0 ≡ pos offset → ⊥
minus_one h = cc

pos-eq : (m n : ℕ) → pos m ≡ pos n → m ≡ n
pos-eq m n h = cc

-- When findNaluByHeader returns an offset other than -1, the bytes right before it are a start code
-- 00 00 01 and the byte there is a header that the caller accepts.
pub find_nalu_by_header-at :
    (match : ℕ → Bool) (bytes : List ℕ) (offset : ℕ)
    → find_nalu_by_header bytes match ≡ pos offset
    → NaluAt match bytes offset
unfolding find_nalu_by_header
find_nalu_by_header-at match bytes offset h = elim (Option-cases (scan_from match 0 bytes)) [
  | inl n ↦ absurd (minus_one (sym (ap offset_or_minus_one n) ∙ h))
  | inr (k, e) ↦
      let (n, q, at) = scan_from-at match 0 bytes k e in
      subst (NaluAt match bytes) (pos_zero q ∙ pos-eq k offset (sym (ap offset_or_minus_one e) ∙ h))
        at
]

-- Wherever in a stream a start code 00 00 01 is followed by a header byte that the caller accepts,
-- findNaluByHeader returns an offset with a start code 00 00 01 right before it and a header that
-- the caller accepts at it, and the offset is not behind the given header's.
pub find_nalu_by_header-first :
    (match : ℕ → Bool) (before : List ℕ) (header : ℕ) (rest : List ℕ)
    → match header ≡ true
    → let bytes = before ++ (0 ∷ (0 ∷ (1 ∷ (header ∷ rest)))) in
      (offset : ℕ) × (find_nalu_by_header bytes match ≡ pos offset)
      × NaluAt match bytes offset
      × (offset ≤ length before + 3)
unfolding find_nalu_by_header
find_nalu_by_header-first match before header rest m =
    let (offset, e, h) = scan_from-finds match 0 before header rest m in
    let found = ap offset_or_minus_one e in
    (offset, found, find_nalu_by_header-at match _ offset found, omega arith)
