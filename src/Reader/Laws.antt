-- ===== src/Reader/Laws.antt =====
-- What a read gives when the message holds the bytes of the field, and when it is too short.
use proxmoxwhatsapp.Prelude.{
  ℕ, ◌+◌, ◌≤◌, ◌<◌, ◌≡◌, refl, ap, List, [], ◌++◌, length, arith, ℤ, pos, ok, throw, range_error,
  ◌>>=◌, le→leb, length-append, take-append_left, drop-append_left, append_assoc, append-nil,
}
use proxmoxwhatsapp.Bytes.{le_bytes, be_bytes, be_value, to_uint, to_int}
use proxmoxwhatsapp.Bytes.Laws.{
  length-le_bytes, length-be_bytes, le_value-le_bytes, be_value-be_bytes, to_uint-lt, IsUint, IsInt,
  to_int-to_uint, to_uint_pos,
}
use proxmoxwhatsapp.Reader.{
  Reader, Read, map_read, read_bytes, new_reader, read_uint8, read_int8, read_uint16_be,
  read_int16_be, read_uint32_be, read_int32_be, read_uint32_le, read_big_uint64_be, read_bytes_of,
}

-- A reader that has passed `front` and has `back` before it.
pub reader_at : List ℕ → List ℕ → Reader
reader_at front back = record { view = front ++ back; offset = length front }

pub new_reader-reader_at : (bytes : List ℕ) → new_reader bytes 0 ≡ reader_at [] bytes
unfolding new_reader reader_at
new_reader-reader_at bytes = refl

pub offset-reader_at : (front back : List ℕ) → (reader_at front back).offset ≡ length front
unfolding reader_at
offset-reader_at front back = refl

pub reader_at-end :
    (front : List ℕ) → reader_at front [] ≡ record { view = front; offset = length front }
unfolding reader_at
reader_at-end front = ap (λ view. record { view = view; offset = length front }) (append-nil front)

-- `p` reads exactly `bs`, wherever they stand, and gives `a`.
abbrev pub Reads : {A : Type 0} → Read A → List ℕ → A → Type 0
Reads p bs a =
    (front back : List ℕ) → p (reader_at front (bs ++ back)) ≡ ok (a, reader_at (front ++ bs) back)

pub read_bytes-Reads : (bs : List ℕ) → Reads (read_bytes (length bs)) bs bs
unfolding read_bytes reader_at
read_bytes-Reads bs front back = rw (
  le→leb (length front + length bs) (length (front ++ (bs ++ back))) fits,
  drop-append_left (length front) front (bs ++ back) refl,
  take-append_left (length bs) bs back refl,
  ← length-append front bs,
  append_assoc front bs back,
)
  where
    fits : length front + length bs ≤ length (front ++ (bs ++ back))
    fits = omega (arith, length-append front (bs ++ back), length-append bs back)

-- The last field of a message.
pub read_bytes_last :
    (front bs : List ℕ)
    → read_bytes (length bs) (reader_at front bs) ≡ ok (bs, reader_at (front ++ bs) [])
read_bytes_last front bs = let e = read_bytes-Reads bs front [] in rw (append-nil bs) at e

-- The same with the length as a number of its own.
pub read_bytes-Reads_of : (n : ℕ) (bs : List ℕ) → length bs ≡ n → Reads (read_bytes n) bs bs
read_bytes-Reads_of n bs e = rw (← e) (read_bytes-Reads bs)

module _ {A B : Type 0} where
  pub map_read-Reads :
      (f : A → B) (p : Read A) (bs : List ℕ) (a : A)
      → Reads p bs a
      → Reads (λ r. map_read f (p r)) bs (f a)
  map_read-Reads f p bs a h front back = rw (h front back)

pub read_uint8-Reads : (n : ℕ) → IsUint 1 n → Reads read_uint8 (be_bytes 1 (to_uint 1 (pos n))) n
unfolding read_uint8
read_uint8-Reads n h front back = rw (
  to_uint_pos 1 n h,
  read_bytes-Reads_of 1 (be_bytes 1 n) (length-be_bytes 1 n) front back,
  be_value-be_bytes 1 n h,
)

pub read_uint16_be-Reads :
    (n : ℕ) → IsUint 2 n → Reads read_uint16_be (be_bytes 2 (to_uint 2 (pos n))) n
unfolding read_uint16_be
read_uint16_be-Reads n h front back = rw (
  to_uint_pos 2 n h,
  read_bytes-Reads_of 2 (be_bytes 2 n) (length-be_bytes 2 n) front back,
  be_value-be_bytes 2 n h,
)

pub read_uint32_be-Reads :
    (n : ℕ) → IsUint 4 n → Reads read_uint32_be (be_bytes 4 (to_uint 4 (pos n))) n
unfolding read_uint32_be
read_uint32_be-Reads n h front back = rw (
  to_uint_pos 4 n h,
  read_bytes-Reads_of 4 (be_bytes 4 n) (length-be_bytes 4 n) front back,
  be_value-be_bytes 4 n h,
)

pub read_uint32_le-Reads :
    (n : ℕ) → IsUint 4 n → Reads read_uint32_le (le_bytes 4 (to_uint 4 (pos n))) n
unfolding read_uint32_le
read_uint32_le-Reads n h front back = rw (
  to_uint_pos 4 n h,
  read_bytes-Reads_of 4 (le_bytes 4 n) (length-le_bytes 4 n) front back,
  le_value-le_bytes 4 n h,
)

pub read_big_uint64_be-Reads :
    (n : ℕ) → IsUint 8 n → Reads read_big_uint64_be (be_bytes 8 (to_uint 8 (pos n))) n
unfolding read_big_uint64_be
read_big_uint64_be-Reads n h front back = rw (
  to_uint_pos 8 n h,
  read_bytes-Reads_of 8 (be_bytes 8 n) (length-be_bytes 8 n) front back,
  be_value-be_bytes 8 n h,
)

signed :
    (k : ℕ) (z : ℤ)
    → IsInt k z
    → Reads
        (λ r. map_read (λ bs. to_int k (be_value bs)) (read_bytes k r))
        (be_bytes k (to_uint k z))
        z
signed k z h front back = rw (
  read_bytes-Reads_of k (be_bytes k (to_uint k z)) (length-be_bytes k (to_uint k z)) front back,
  be_value-be_bytes k (to_uint k z) (to_uint-lt k z),
  to_int-to_uint k z h,
)

pub read_int8-Reads : (z : ℤ) → IsInt 1 z → Reads read_int8 (be_bytes 1 (to_uint 1 z)) z
unfolding read_int8
read_int8-Reads = signed 1

pub read_int16_be-Reads : (z : ℤ) → IsInt 2 z → Reads read_int16_be (be_bytes 2 (to_uint 2 z)) z
unfolding read_int16_be
read_int16_be-Reads = signed 2

pub read_int32_be-Reads : (z : ℤ) → IsInt 4 z → Reads read_int32_be (be_bytes 4 (to_uint 4 z)) z
unfolding read_int32_be
read_int32_be-Reads = signed 4

pub read_bytes_of-Reads : (bs : List ℕ) → Reads (read_bytes_of (pos (length bs))) bs bs
unfolding read_bytes_of
read_bytes_of-Reads bs = read_bytes-Reads bs

module _ {A B : Type 0} where
  -- One read and then another, over the bytes of both.
  pub Reads-then :
      (p : Read A) (f : A → Read B) (cs bs : List ℕ) (a : A) (b : B)
      → Reads p cs a
      → Reads (f a) bs b
      → Reads (λ r. p r >>= λ t. f t.0 t.1) (cs ++ bs) b
  Reads-then p f cs bs a b h k front back = rw (
    append_assoc cs bs back,
    h front (bs ++ back),
    k (front ++ cs) back,
    append_assoc front cs bs,
  )

pub Reads-return : {A : Type 0} (a : A) → Reads (λ r. ok (a, r)) [] a
Reads-return a front back = rw (append-nil front)

pub read_bytes_short :
    (n : ℕ) (r : Reader) → length r.view < r.offset + n → read_bytes n r ≡ throw range_error
unfolding read_bytes
read_bytes_short n r h = ground arith
