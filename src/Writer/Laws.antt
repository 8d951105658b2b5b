-- ===== src/Writer/Laws.antt =====
-- What a chain of writes leaves in the buffer, given that the buffer has room for it.
use proxmoxwhatsapp.Prelude.{
  ℕ, zero, suc, ◌+◌, ◌≤◌, ◌≡◌, refl, ap, List, [], ◌∷◌, ◌++◌, length, drop, zeros, arith, ℤ, ok,
  le→leb, length-append, length-replicate, take-append_left, append_assoc,
}
use proxmoxwhatsapp.Bytes.{be_bytes, to_uint}
use proxmoxwhatsapp.Writer.{
  Writer, Write, blit, write_bytes, write_uint8, write_int8, write_uint16_be, write_int16_be,
  write_uint32_be, write_int32_be, write_big_uint64_be, ◌▹◌, written,
}

-- A writer that has put down `out` and has `n` bytes of zeros left.
pub writer_at : List ℕ → ℕ → Writer
writer_at out n = record { buf = out ++ zeros n; offset = length out }

-- `p` appends exactly `bs`, wherever the cursor stands, if there is room.
pub record Writes (p : Write) (bs : List ℕ) : Type 0 where
  pub run :
      (out : List ℕ) (n m : ℕ)
      → n ≡ length bs + m
      → p (writer_at out n) ≡ ok (writer_at (out ++ bs) m)

drop-zeros : (k t m : ℕ) → t ≡ k + m → drop k (zeros t) ≡ zeros m
drop-zeros zero t m e = ap zeros (omega arith)
drop-zeros (suc k) zero m e = absurd (omega arith)
drop-zeros (suc k) (suc t) m e = drop-zeros k t m (omega arith)

drop-after :
    (out : List ℕ) (j t m : ℕ)
    → j + m ≡ length out + t
    → length out ≤ j
    → drop j (out ++ zeros t) ≡ zeros m
drop-after [] j t m e h = drop-zeros j t m (omega arith)
drop-after (x ∷ out) zero t m e h = absurd (omega arith)
drop-after (x ∷ out) (suc j) t m e h = drop-after out j t m (omega arith) (omega arith)

write_bytes-run :
    (bs out : List ℕ) (n m : ℕ)
    → n ≡ length bs + m
    → write_bytes bs (writer_at out n) ≡ ok (writer_at (out ++ bs) m)
unfolding write_bytes writer_at
write_bytes-run bs out n m e = rw (
  e,
  le→leb (length out + length bs) (length (out ++ zeros (length bs + m))) fits,
  take-append_left (length out) out (zeros (length bs + m)) refl,
  drop-after out (length out + length bs) (length bs + m) m (omega arith) (omega arith),
  ← append_assoc out bs (zeros m),
  ← length-append out bs,
)
  where
    fits : length out + length bs ≤ length (out ++ zeros (length bs + m))
    fits = omega (
      arith,
      length-append out (zeros (length bs + m)),
      length-replicate {A = ℕ} (length bs + m) 0,
    )

pub write_bytes-Writes : (bs : List ℕ) → Writes (write_bytes bs) bs
write_bytes-Writes bs = record { run = write_bytes-run bs }

pub write_uint8-Writes : (z : ℤ) → Writes (write_uint8 z) (be_bytes 1 (to_uint 1 z))
unfolding write_uint8
write_uint8-Writes z = write_bytes-Writes (be_bytes 1 (to_uint 1 z))

pub write_int8-Writes : (z : ℤ) → Writes (write_int8 z) (be_bytes 1 (to_uint 1 z))
unfolding write_int8
write_int8-Writes z = write_bytes-Writes (be_bytes 1 (to_uint 1 z))

pub write_uint16_be-Writes : (z : ℤ) → Writes (write_uint16_be z) (be_bytes 2 (to_uint 2 z))
unfolding write_uint16_be
write_uint16_be-Writes z = write_bytes-Writes (be_bytes 2 (to_uint 2 z))

pub write_int16_be-Writes : (z : ℤ) → Writes (write_int16_be z) (be_bytes 2 (to_uint 2 z))
unfolding write_int16_be
write_int16_be-Writes z = write_bytes-Writes (be_bytes 2 (to_uint 2 z))

pub write_uint32_be-Writes : (z : ℤ) → Writes (write_uint32_be z) (be_bytes 4 (to_uint 4 z))
unfolding write_uint32_be
write_uint32_be-Writes z = write_bytes-Writes (be_bytes 4 (to_uint 4 z))

pub write_int32_be-Writes : (z : ℤ) → Writes (write_int32_be z) (be_bytes 4 (to_uint 4 z))
unfolding write_int32_be
write_int32_be-Writes z = write_bytes-Writes (be_bytes 4 (to_uint 4 z))

pub write_big_uint64_be-Writes : (z : ℤ) → Writes (write_big_uint64_be z) (be_bytes 8 (to_uint 8 z))
unfolding write_big_uint64_be
write_big_uint64_be-Writes z = write_bytes-Writes (be_bytes 8 (to_uint 8 z))

-- One chain after another.
pub ▹-Writes :
    (p q : Write) (cs bs : List ℕ) → Writes p cs → Writes q bs → Writes (p ▹ q) (cs ++ bs)
unfolding ◌▹◌
▹-Writes p q cs bs h k = record {
  run = λ out n m e. rw (
    h.run out n (length bs + m) (omega (arith, length-append cs bs)),
    k.run (out ++ cs) (length bs + m) m refl,
    append_assoc out cs bs,
  );
}

pub ruleset writing = (
  ▹-Writes, write_bytes-Writes, write_uint8-Writes, write_int8-Writes, write_uint16_be-Writes,
  write_int16_be-Writes, write_uint32_be-Writes, write_int32_be-Writes, write_big_uint64_be-Writes,
)

-- A buffer of the right size, or a larger one, holds in the end what the chain wrote.
pub written-Writes :
    (size m : ℕ) (p : Write) (bs : List ℕ)
    → Writes p bs
    → size ≡ length bs + m
    → written size p ≡ ok bs
unfolding written writer_at
written-Writes size m p bs h e =
    rw (h.run [] size m e) (rw (take-append_left (length bs) bs (zeros m) refl))

-- Bytes set into the zeros behind `out`.
pub blit-zeros :
    (out bs : List ℕ) (offset n m : ℕ)
    → offset ≡ length out
    → n ≡ length bs + m
    → blit offset bs (out ++ zeros n) ≡ (out ++ bs) ++ zeros m
unfolding blit
blit-zeros out bs offset n m h e = rw (
  e,
  take-append_left offset out (zeros (length bs + m)) (omega arith),
  drop-after out (offset + length bs) (length bs + m) m (omega arith) (omega arith),
  ← append_assoc out bs (zeros m),
)
