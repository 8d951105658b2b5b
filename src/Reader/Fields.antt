-- ===== src/Reader/Fields.antt =====
-- Messages as lists of fields, with the chain of BinaryWriter's calls that writes one and the chain
-- of BinaryReader's calls that reads one.
use proxmoxwhatsapp.Prelude.{ℕ, ◌+◌, List, [], ◌∷◌, length, ℤ, pos, ok, ◌>>=◌}
use proxmoxwhatsapp.Bytes.Laws.{IsUint, IsInt}
use proxmoxwhatsapp.Reader.{
  Read, map_read, read_bytes, read_uint8, read_int8, read_uint16_be, read_int16_be, read_uint32_be,
  read_int32_be, read_uint32_le, read_big_uint64_be,
}
use proxmoxwhatsapp.Writer.{
  Write, write_bytes, write_uint8, write_int8, write_uint16_be, write_int16_be, write_uint32_be,
  write_int32_be, write_uint32_le, write_big_uint64_be, ◌▹◌,
}

-- A field of a message, with its value.
pub data Field : Type 0 where
  uint8 uint16_be uint32_be uint32_le big_uint64_be : ℕ → Field
  int8 int16_be int32_be : ℤ → Field
  bytes : List ℕ → Field

-- A field without its value: what a reader knows beforehand.
pub data Kind : Type 0 where
  of_uint8 of_uint16_be of_uint32_be of_uint32_le of_big_uint64_be : Kind
  of_int8 of_int16_be of_int32_be : Kind
  of_bytes : ℕ → Kind

abbrev pub kind_of : Field → Kind
kind_of (uint8 n) = of_uint8
kind_of (uint16_be n) = of_uint16_be
kind_of (uint32_be n) = of_uint32_be
kind_of (uint32_le n) = of_uint32_le
kind_of (big_uint64_be n) = of_big_uint64_be
kind_of (int8 z) = of_int8
kind_of (int16_be z) = of_int16_be
kind_of (int32_be z) = of_int32_be
kind_of (bytes bs) = of_bytes (length bs)

-- A field's value fits.
abbrev pub IsField : Field → Type 0
IsField (uint8 n) = IsUint 1 n
IsField (uint16_be n) = IsUint 2 n
IsField (uint32_be n) = IsUint 4 n
IsField (uint32_le n) = IsUint 4 n
IsField (big_uint64_be n) = IsUint 8 n
IsField (int8 z) = IsInt 1 z
IsField (int16_be z) = IsInt 2 z
IsField (int32_be z) = IsInt 4 z
IsField (bytes bs) = Unit

abbrev pub width : Kind → ℕ
width of_uint8 = 1
width of_uint16_be = 2
width of_uint32_be = 4
width of_uint32_le = 4
width of_big_uint64_be = 8
width of_int8 = 1
width of_int16_be = 2
width of_int32_be = 4
width (of_bytes n) = n

abbrev pub total_width : List Field → ℕ
total_width [] = 0
total_width (f ∷ fs) = width (kind_of f) + total_width fs

unfoldable pub write_field : Field → Write
write_field (uint8 n) = write_uint8 (pos n)
write_field (uint16_be n) = write_uint16_be (pos n)
write_field (uint32_be n) = write_uint32_be (pos n)
write_field (uint32_le n) = write_uint32_le (pos n)
write_field (big_uint64_be n) = write_big_uint64_be (pos n)
write_field (int8 z) = write_int8 z
write_field (int16_be z) = write_int16_be z
write_field (int32_be z) = write_int32_be z
write_field (bytes bs) = write_bytes bs

unfoldable pub write_all : List Field → Write
write_all [] w = ok w
write_all (f ∷ fs) w = (write_field f ▹ write_all fs) w

unfoldable pub read_kind : Kind → Read Field
read_kind of_uint8 r = map_read uint8 (read_uint8 r)
read_kind of_uint16_be r = map_read uint16_be (read_uint16_be r)
read_kind of_uint32_be r = map_read uint32_be (read_uint32_be r)
read_kind of_uint32_le r = map_read uint32_le (read_uint32_le r)
read_kind of_big_uint64_be r = map_read big_uint64_be (read_big_uint64_be r)
read_kind of_int8 r = map_read int8 (read_int8 r)
read_kind of_int16_be r = map_read int16_be (read_int16_be r)
read_kind of_int32_be r = map_read int32_be (read_int32_be r)
read_kind (of_bytes n) r = map_read bytes (read_bytes n r)

unfoldable pub read_all : List Kind → Read (List Field)
read_all [] r = ok ([], r)
read_all (k ∷ ks) r = read_kind k r >>= λ t. map_read (λ fs. t.0 ∷ fs) (read_all ks t.1)
