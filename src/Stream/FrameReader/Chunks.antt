-- ===== src/Stream/FrameReader/Chunks.antt =====
-- How the socket cuts the stream into chunks makes no difference to the frames.
use proxmoxwhatsapp.Prelude.{
  ℕ, zero, suc, ◌+◌, ◌≤◌, ◌<◌, ◌≡◌, refl, ap, sym, ◌∙◌, List, [], ◌∷◌, ◌++◌, length, take, drop,
  arith, true, Option, none, some, Option-cases, inl, inr, length-append, length-drop,
  take-append_le, drop-append_le, append_assoc, append-nil, flatten,
}
use proxmoxwhatsapp.Bytes.{be_value}
use proxmoxwhatsapp.Stream.FrameReader.{
  FrameReader, ScrcpyFrame, next_packet, cons?, drain, new_frame_reader, on_data, on_chunks,
}

-- A round takes the header at least, and only bytes that are there.
next_packet_takes :
    (b : List ℕ) (o : Option ScrcpyFrame) (rest : List ℕ)
    → next_packet b ≡ some (o, rest)
    → length rest + 12 ≤ length b
unfolding next_packet
next_packet_takes b o rest e =
    ground (arith, length-drop 12 b, length-drop (12 + be_value (take 4 (drop 8 b))) b)

-- Bytes that come later do not change a round that had enough.
next_packet-append :
    (b c : List ℕ) (o : Option ScrcpyFrame) (rest : List ℕ)
    → next_packet b ≡ some (o, rest)
    → next_packet (b ++ c) ≡ some (o, rest ++ c)
unfolding next_packet
next_packet-append b c o rest e =
    let size = be_value (take 4 (drop 8 b)) in
    ground (
      arith,
      take-append_le 8 b c,
      drop-append_le 8 b c,
      take-append_le 4 (drop 8 b) c,
      length-drop 8 b,
      drop-append_le 12 b c,
      take-append_le size (drop 12 b) c,
      length-drop 12 b,
      drop-append_le (12 + size) b c,
      length-append b c,
    )

pub next_packet_short : (b : List ℕ) → length b < 12 → next_packet b ≡ none
unfolding next_packet
next_packet_short b h = ground arith

-- One round of the loop, on each of its two outcomes.
pub drain_stops : (n : ℕ) (b : List ℕ) → next_packet b ≡ none → drain n b ≡ ([], b)
unfolding drain
drain_stops zero b e = refl
drain_stops (suc n) b e = rw (drain, e)

pub drain_goes :
    (n : ℕ) (b : List ℕ) (o : Option ScrcpyFrame) (rest : List ℕ)
    → next_packet b ≡ some (o, rest)
    → drain (suc n) b ≡ (cons? o (drain n rest).0, (drain n rest).1)
unfolding drain
drain_goes n b o rest e = rw (drain, e)

abbrev pub found_first : Option ScrcpyFrame → List ScrcpyFrame × List ℕ → List ScrcpyFrame × List ℕ
found_first o (frames, rest) = (cons? o frames, rest)

-- Fuel beyond the length of the buffer is never spent.
pub drain_fuel : (n m : ℕ) (b : List ℕ) → length b ≤ n → length b ≤ m → drain n b ≡ drain m b
drain_fuel zero m b h k =
    let e = next_packet_short b (omega arith) in drain_stops 0 b e ∙ sym (drain_stops m b e)
drain_fuel (suc n) zero b h k =
    let e = next_packet_short b (omega arith) in drain_stops (suc n) b e ∙ sym (drain_stops 0 b e)
drain_fuel (suc n) (suc m) b h k = elim (Option-cases (next_packet b)) [
  | inl e ↦ drain_stops (suc n) b e ∙ sym (drain_stops (suc m) b e)
  | inr ((o, rest), e) ↦
      let t = next_packet_takes b o rest e in
      drain_goes n b o rest e
      ∙ ap (found_first o) (drain_fuel n m rest (omega arith) (omega arith))
      ∙ sym (drain_goes m b o rest e)
]

-- What has been drained, with the frames of a later run behind its own.
abbrev pub followed : List ScrcpyFrame → List ScrcpyFrame × List ℕ → List ScrcpyFrame × List ℕ
followed frames (more, rest) = (frames ++ more, rest)

followed-found :
    (o : Option ScrcpyFrame) (frames : List ScrcpyFrame) (p : List ScrcpyFrame × List ℕ)
    → found_first o (followed frames p) ≡ followed (cons? o frames) p
followed-found none frames p = refl
followed-found (some f) frames p = refl

drain_shrinks : (n : ℕ) (b : List ℕ) → length (drain n b).1 ≤ length b
drain_shrinks zero b = elim (Option-cases (next_packet b)) [
  | inl e ↦ rw (drain_stops 0 b e) (omega arith)
  | inr _ ↦ unfold drain in omega arith
]
drain_shrinks (suc n) b = elim (Option-cases (next_packet b)) [
  | inl e ↦ rw (drain_stops (suc n) b e) (omega arith)
  | inr ((o, rest), e) ↦
      let t = next_packet_takes b o rest e in
      rw (drain_goes n b o rest e) (omega (arith, drain_shrinks n rest))
]

drain-append :
    (n m : ℕ) (b c : List ℕ)
    → length b ≤ n
    → length b + length c ≤ m
    → drain m (b ++ c) ≡ followed (drain n b).0 (drain m ((drain n b).1 ++ c))
drain-append zero m b c h k = let e = next_packet_short b (omega arith) in rw (drain_stops 0 b e)
drain-append (suc n) zero b c h k =
    let e = next_packet_short b (omega arith) in rw (drain_stops (suc n) b e)
drain-append (suc n) (suc m) b c h k = elim (Option-cases (next_packet b)) [
  | inl e ↦ rw (drain_stops (suc n) b e)
  | inr ((o, rest), e) ↦
      let t = next_packet_takes b o rest e in
      let (frames, left) = drain n rest in
      let short = drain_shrinks n rest in
      rw (drain_goes n b o rest e) (
        drain_goes m (b ++ c) o (rest ++ c) (next_packet-append b c o rest e)
        ∙ ap (found_first o) (drain-append n m rest c (omega arith) (omega arith))
        ∙ followed-found o frames (drain m (left ++ c))
        ∙ ap (followed (cons? o frames)) (
            drain_fuel m (suc m) (left ++ c) (omega (arith, length-append left c))
              (omega (arith, length-append left c))))
]

-- The loop ends by its own tests: what stays in the buffer is no whole packet.
drain_ends : (n : ℕ) (b : List ℕ) → length b ≤ n → next_packet (drain n b).1 ≡ none
drain_ends zero b h = let e = next_packet_short b (omega arith) in rw (drain_stops 0 b e) e
drain_ends (suc n) b h = elim (Option-cases (next_packet b)) [
  | inl e ↦ rw (drain_stops (suc n) b e) e
  | inr ((o, rest), e) ↦
      let t = next_packet_takes b o rest e in
      rw (drain_goes n b o rest e) (drain_ends n rest (omega arith))
]

-- The loop with the fuel that `on_data` gives it.
abbrev pub drain_all : List ℕ → List ScrcpyFrame × List ℕ
drain_all b = drain (length b) b

drain_all-append :
    (b c : List ℕ)
    → drain_all (b ++ c) ≡ followed (drain_all b).0 (drain_all ((drain_all b).1 ++ c))
drain_all-append b c =
    let left = (drain_all b).1 in
    let short = drain_shrinks (length b) b in
    drain-append (length b) (length (b ++ c)) b c (omega arith) (omega (arith, length-append b c))
    ∙ ap (followed (drain_all b).0) (
        drain_fuel (length (b ++ c)) (length (left ++ c)) (left ++ c)
          (omega (arith, length-append b c, length-append left c)) (omega arith))

-- A reader that still listens, with these bytes in its buffer.
abbrev pub listens : List ℕ → FrameReader
listens buffer = record { buffer = buffer; frame_callback = true; listening = true }

abbrev pub heard : List ScrcpyFrame × List ℕ → List ScrcpyFrame × FrameReader
heard (frames, rest) = (frames, listens rest)

on_chunks-drain :
    (b : List ℕ) (chunks : List (List ℕ))
    → next_packet b ≡ none
    → on_chunks (listens b) chunks ≡ heard (drain_all (b ++ flatten chunks))
unfolding on_chunks on_data
on_chunks-drain b [] e = rw (append-nil b, drain_stops (length b) b e)
on_chunks-drain b (c ∷ chunks) e =
    let left = (drain_all (b ++ c)).1 in
    rw (
      on_chunks-drain left chunks (drain_ends (length (b ++ c)) (b ++ c) (omega arith)),
      ← append_assoc b c (flatten chunks),
      drain_all-append (b ++ c) (flatten chunks),
    )

-- However the bytes of the socket are cut into chunks, the frame callback sees the same frames, and
-- the same bytes are kept, as if they had come in one chunk.
pub on_chunks-flatten :
    (chunks : List (List ℕ))
    → on_chunks new_frame_reader chunks ≡ on_data new_frame_reader (flatten chunks)
unfolding new_frame_reader on_data
on_chunks-flatten chunks = on_chunks-drain [] chunks (next_packet_short [] (omega arith))
