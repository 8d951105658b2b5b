-- ===== src/Reader/RoundTrip.antt =====
-- What a chain of BinaryWriter's calls writes, the same chain of BinaryReader's calls reads.
use proxmoxwhatsapp.Prelude.{
  ℕ, ◌+◌, ◌≡◌, refl, ap, sym, ◌∙◌, List, [], ◌∷◌, ◌++◌, length, map, All, pos, ok, arith,
  length-append, append-nil,
}
use proxmoxwhatsapp.Bytes.{le_bytes, to_uint}
use proxmoxwhatsapp.Bytes.Fields.{u8, u16, u32, u64}
use proxmoxwhatsapp.Bytes.Laws.{length-be_bytes, length-le_bytes}
use proxmoxwhatsapp.Reader.{
  map_read, read_bytes, new_reader, read_uint8, read_int8, read_uint16_be, read_int16_be,
  read_uint32_be, read_int32_be, read_uint32_le, read_big_uint64_be,
}
use proxmoxwhatsapp.Reader.Laws.{
  reader_at, new_reader-reader_at, reader_at-end, Reads, Reads-then, Reads-return, map_read-Reads,
  read_bytes-Reads, read_uint8-Reads, read_int8-Reads, read_uint16_be-Reads, read_int16_be-Reads,
  read_uint32_be-Reads, read_int32_be-Reads, read_uint32_le-Reads, read_big_uint64_be-Reads,
}
use proxmoxwhatsapp.Reader.Fields.{
  Field, uint8, uint16_be, uint32_be, uint32_le, big_uint64_be, int8, int16_be, int32_be, bytes,
  kind_of, IsField, width, total_width, write_field, write_all, read_kind, read_all,
}
use proxmoxwhatsapp.Writer.{write_uint32_le, written}
use proxmoxwhatsapp.Writer.Laws.{
  Writes, ▹-Writes, written-Writes, writer_at, write_bytes-Writes, write_uint8-Writes,
  write_int8-Writes, write_uint16_be-Writes, write_int16_be-Writes, write_uint32_be-Writes,
  write_int32_be-Writes, write_big_uint64_be-Writes,
}

-- The bytes of a field.
abbrev field_bytes : Field → List ℕ
field_bytes (uint8 n) = u8 (pos n)
field_bytes (uint16_be n) = u16 (pos n)
field_bytes (uint32_be n) = u32 (pos n)
field_bytes (uint32_le n) = le_bytes 4 (to_uint 4 (pos n))
field_bytes (big_uint64_be n) = u64 (pos n)
field_bytes (int8 z) = u8 z
field_bytes (int16_be z) = u16 z
field_bytes (int32_be z) = u32 z
field_bytes (bytes bs) = bs

abbrev all_bytes : List Field → List ℕ
all_bytes [] = []
all_bytes (f ∷ fs) = field_bytes f ++ all_bytes fs

length-field_bytes : (f : Field) → length (field_bytes f) ≡ width (kind_of f)
length-field_bytes (uint8 n) = length-be_bytes 1 (to_uint 1 (pos n))
length-field_bytes (uint16_be n) = length-be_bytes 2 (to_uint 2 (pos n))
length-field_bytes (uint32_be n) = length-be_bytes 4 (to_uint 4 (pos n))
length-field_bytes (uint32_le n) = length-le_bytes 4 (to_uint 4 (pos n))
length-field_bytes (big_uint64_be n) = length-be_bytes 8 (to_uint 8 (pos n))
length-field_bytes (int8 z) = length-be_bytes 1 (to_uint 1 z)
length-field_bytes (int16_be z) = length-be_bytes 2 (to_uint 2 z)
length-field_bytes (int32_be z) = length-be_bytes 4 (to_uint 4 z)
length-field_bytes (bytes bs) = refl

length-all_bytes : (fs : List Field) → length (all_bytes fs) ≡ total_width fs
length-all_bytes [] = refl
length-all_bytes (f ∷ fs) =
    omega (
      arith,
      length-append (field_bytes f) (all_bytes fs),
      length-field_bytes f,
      length-all_bytes fs,
    )

write_field-Writes : (f : Field) → Writes (write_field f) (field_bytes f)
unfolding write_field write_uint32_le
write_field-Writes (uint8 n) = write_uint8-Writes (pos n)
write_field-Writes (uint16_be n) = write_uint16_be-Writes (pos n)
write_field-Writes (uint32_be n) = write_uint32_be-Writes (pos n)
write_field-Writes (uint32_le n) = write_bytes-Writes (le_bytes 4 (to_uint 4 (pos n)))
write_field-Writes (big_uint64_be n) = write_big_uint64_be-Writes (pos n)
write_field-Writes (int8 z) = write_int8-Writes z
write_field-Writes (int16_be z) = write_int16_be-Writes z
write_field-Writes (int32_be z) = write_int32_be-Writes z
write_field-Writes (bytes bs) = write_bytes-Writes bs

nothing_more : (n m : ℕ) → n ≡ 0 + m → n ≡ m
nothing_more n m e = omega arith

write_all-Writes : (fs : List Field) → Writes (write_all fs) (all_bytes fs)
unfolding write_all
write_all-Writes [] = record {
  run = λ out n m e. rw (append-nil out) (ap (λ k. ok (writer_at out k)) (nothing_more n m e));
}
write_all-Writes (f ∷ fs) =
    ▹-Writes (write_field f) (write_all fs) (field_bytes f) (all_bytes fs) (write_field-Writes f)
      (write_all-Writes fs)

read_kind-Reads : (f : Field) → IsField f → Reads (read_kind (kind_of f)) (field_bytes f) f
unfolding read_kind
read_kind-Reads (uint8 n) h = map_read-Reads uint8 read_uint8 _ n (read_uint8-Reads n h)
read_kind-Reads (uint16_be n) h =
    map_read-Reads uint16_be read_uint16_be _ n (read_uint16_be-Reads n h)
read_kind-Reads (uint32_be n) h =
    map_read-Reads uint32_be read_uint32_be _ n (read_uint32_be-Reads n h)
read_kind-Reads (uint32_le n) h =
    map_read-Reads uint32_le read_uint32_le _ n (read_uint32_le-Reads n h)
read_kind-Reads (big_uint64_be n) h =
    map_read-Reads big_uint64_be read_big_uint64_be _ n (read_big_uint64_be-Reads n h)
read_kind-Reads (int8 z) h = map_read-Reads int8 read_int8 _ z (read_int8-Reads z h)
read_kind-Reads (int16_be z) h = map_read-Reads int16_be read_int16_be _ z (read_int16_be-Reads z h)
read_kind-Reads (int32_be z) h = map_read-Reads int32_be read_int32_be _ z (read_int32_be-Reads z h)
read_kind-Reads (bytes bs) h =
    map_read-Reads bytes (read_bytes (length bs)) bs bs (read_bytes-Reads bs)

read_all-Reads :
    (fs : List Field) → All IsField fs → Reads (read_all (map kind_of fs)) (all_bytes fs) fs
unfolding read_all
read_all-Reads [] h = Reads-return []
read_all-Reads (f ∷ fs) h =
    Reads-then (read_kind (kind_of f))
      (λ x r. map_read (λ xs. x ∷ xs) (read_all (map kind_of fs) r)) (field_bytes f) (all_bytes fs)
      f (f ∷ fs) (read_kind-Reads f h.0)
      (map_read-Reads (λ xs. f ∷ xs) (read_all (map kind_of fs)) (all_bytes fs) fs
        (read_all-Reads fs h.1))

-- Let a message be a list of fields whose values fit: numbers of one, two, four or eight bytes, and
-- runs of bytes. BinaryWriter, with a buffer of their total width, writes them one after the other
-- without an error and fills the buffer, and BinaryReader, with the same calls on these bytes,
-- reads them back as they were and ends at the end.
pub write_all-read_all :
    (fs : List Field)
    → All IsField fs
    → (message : List ℕ) × (written (total_width fs) (write_all fs) ≡ ok message)
      × (length message ≡ total_width fs)
      × (read_all (map kind_of fs) (new_reader message 0)
          ≡ ok (fs, record { view = message; offset = total_width fs }))
write_all-read_all fs h =
    let message = all_bytes fs in
    (
      message,
      written-Writes (total_width fs) 0 (write_all fs) message (write_all-Writes fs)
          (omega (arith, length-all_bytes fs)),
      length-all_bytes fs,
      ap (read_all (map kind_of fs))
            (new_reader-reader_at message ∙ ap (reader_at []) (sym (append-nil message)))
          ∙ read_all-Reads fs h [] []
          ∙ ap (λ r. ok (fs, r)) (reader_at-end message)
          ∙ ap (λ n. ok (fs, record { view = message; offset = n })) (length-all_bytes fs),
    )
