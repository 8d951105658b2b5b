-- ===== src/Writer.antt =====
-- app/BinaryWriter.ts: a cursor over a buffer of a fixed size. Numbers are the JavaScript numbers
-- that the callers pass, where these are integers.
pub mod Laws
use proxmoxwhatsapp.Prelude.{
  ℕ, ◌+◌, List, ◌++◌, length, take, drop, zeros, leb, if◌then◌else◌, ℤ, pos, Result, ok, throw,
  range_error, ◌>>=◌,
}
use proxmoxwhatsapp.Bytes.{be_bytes, le_bytes, to_uint}

-- `buf` and `pos`; the view is over all of `buf`.
pub record Writer : Type 0 where
  pub buf : List ℕ
  pub offset : ℕ

abbrev pub Write : Type 0
Write = Writer → Result Writer

unfoldable pub new_writer : ℕ → Writer
new_writer size = record { buf = zeros size; offset = 0 }

-- The buffer with the bytes from `offset` on replaced.
unfoldable pub blit : ℕ → List ℕ → List ℕ → List ℕ
blit offset bytes buf = take offset buf ++ (bytes ++ drop (offset + length bytes) buf)

-- Every `set` of the view and of the array throws when it would leave the buffer.
unfoldable pub write_bytes : List ℕ → Write
unfolding blit
write_bytes bytes w =
    if leb (w.offset + length bytes) (length w.buf)
    then ok (record w { buf = blit w.offset bytes w.buf; offset = w.offset + length bytes })
    else throw range_error

unfoldable pub write_uint8 : ℤ → Write
unfolding write_bytes
write_uint8 value = write_bytes (be_bytes 1 (to_uint 1 value))

unfoldable pub write_int8 : ℤ → Write
unfolding write_bytes
write_int8 value = write_bytes (be_bytes 1 (to_uint 1 value))

unfoldable pub write_uint16_be : ℤ → Write
unfolding write_bytes
write_uint16_be value = write_bytes (be_bytes 2 (to_uint 2 value))

unfoldable pub write_int16_be : ℤ → Write
unfolding write_bytes
write_int16_be value = write_bytes (be_bytes 2 (to_uint 2 value))

unfoldable pub write_uint32_be : ℤ → Write
unfolding write_bytes
write_uint32_be value = write_bytes (be_bytes 4 (to_uint 4 value))

unfoldable pub write_int32_be : ℤ → Write
unfolding write_bytes
write_int32_be value = write_bytes (be_bytes 4 (to_uint 4 value))

unfoldable pub write_uint32_le : ℤ → Write
unfolding write_bytes
write_uint32_le value = write_bytes (le_bytes 4 (to_uint 4 value))

unfoldable pub write_big_uint64_be : ℤ → Write
unfolding write_bytes
write_big_uint64_be value = write_bytes (be_bytes 8 (to_uint 8 value))

-- `writeBytesAt`: the cursor stays.
unfoldable pub write_bytes_at : ℕ → List ℕ → Write
unfolding blit
write_bytes_at offset bytes w =
    if leb (offset + length bytes) (length w.buf)
    then ok (record w { buf = blit offset bytes w.buf })
    else throw range_error

unfoldable pub to_uint8_array : Writer → List ℕ
to_uint8_array w = take w.offset w.buf

-- A chain of calls, `writer.f().g()`.
infixl 6 ◌▹◌
unfoldable pub ◌▹◌ : Write → Write → Write
◌▹◌ p q w = p w >>= q

-- `new BinaryWriter(size)`, a chain of calls, and `toUint8Array()`.
unfoldable pub written : ℕ → Write → Result (List ℕ)
unfolding new_writer to_uint8_array
written size p = p (new_writer size) >>= λ w. ok (to_uint8_array w)
