-- ===== src/Reader.antt =====
-- app/BinaryReader.ts: a cursor over the bytes of one message.
pub mod Laws
pub mod Fields
pub mod RoundTrip
mod Tests
use proxmoxwhatsapp.Prelude.{
  ℕ, ◌+◌, ◌-◌, List, length, take, drop, leb, if◌then◌else◌, ℤ, pos, negsuc, Result, ok, throw,
  range_error, ◌>>=◌,
}
use proxmoxwhatsapp.Bytes.{be_value, le_value, to_int}

-- `view` and `pos`. The view is the message alone: no byte of the backing buffer outside it.
pub record Reader : Type 0 where
  pub view : List ℕ
  pub offset : ℕ

-- A method that reads: the value and the moved reader, or the exception.
abbrev pub Read : Type 0 → Type 0
Read A = Reader → Result (A × Reader)

-- `check(n)` and a read of `n` bytes at `pos` by the view, which then moves on.
unfoldable pub read_bytes : ℕ → Read (List ℕ)
read_bytes n r =
    if leb (r.offset + n) (length r.view)
    then ok (take n (drop r.offset r.view), record r { offset = r.offset + n })
    else throw range_error

abbrev map_read : {A B : Type 0} → (A → B) → Result (A × Reader) → Result (B × Reader)
map_read f (ok (a, r)) = ok (f a, r)
map_read f (throw e) = throw e

unfoldable pub new_reader : List ℕ → ℕ → Reader
new_reader bytes offset = record { view = bytes; offset = offset }

unfoldable pub read_uint8 : Read ℕ
read_uint8 r = map_read be_value (read_bytes 1 r)

unfoldable pub read_int8 : Read ℤ
read_int8 r = map_read (λ bs. to_int 1 (be_value bs)) (read_bytes 1 r)

unfoldable pub read_uint16_be : Read ℕ
read_uint16_be r = map_read be_value (read_bytes 2 r)

unfoldable pub read_int16_be : Read ℤ
read_int16_be r = map_read (λ bs. to_int 2 (be_value bs)) (read_bytes 2 r)

unfoldable pub read_uint32_be : Read ℕ
read_uint32_be r = map_read be_value (read_bytes 4 r)

unfoldable pub read_int32_be : Read ℤ
read_int32_be r = map_read (λ bs. to_int 4 (be_value bs)) (read_bytes 4 r)

unfoldable pub read_uint32_le : Read ℕ
read_uint32_le r = map_read le_value (read_bytes 4 r)

unfoldable pub read_big_uint64_be : Read ℕ
read_big_uint64_be r = map_read be_value (read_bytes 8 r)

-- `readBytes(length)`: the length may come from a signed field, and `check` refuses a negative one.
unfoldable pub read_bytes_of : ℤ → Read (List ℕ)
read_bytes_of (pos n) r = read_bytes n r
read_bytes_of (negsuc n) r = throw range_error

unfoldable pub remaining : Reader → ℕ
remaining r = length r.view - r.offset
