-- ===== src/Reader/Tests.antt =====
-- Two bytes of three, and a message of four fields.
use proxmoxwhatsapp.Prelude.{ℕ, ◌≡◌, refl, List, [], ◌∷◌, length, map, ok, negsuc, arith}
use proxmoxwhatsapp.Reader.{Reader, read_bytes, new_reader}
use proxmoxwhatsapp.Reader.Fields.{
  Field, uint8, uint32_le, int16_be, bytes, kind_of, write_all, read_all,
}
use proxmoxwhatsapp.Reader.RoundTrip.{write_all-read_all}
use proxmoxwhatsapp.Writer.{written}

abbrev at_start : Reader
at_start = record { view = 1 ∷ (2 ∷ (3 ∷ [])); offset = 0 }

two_bytes_read :
    read_bytes 2 at_start ≡ ok (1 ∷ (2 ∷ []), record { view = 1 ∷ (2 ∷ (3 ∷ [])); offset = 2 })
unfolding read_bytes
two_bytes_read = refl

abbrev fields : List Field
fields = uint8 7 ∷ (int16_be (negsuc 1) ∷ (uint32_le 300 ∷ (bytes (9 ∷ (8 ∷ [])) ∷ [])))

write_all-read_all_example :
    (message : List ℕ) × (written 9 (write_all fields) ≡ ok message)
    × (length message ≡ 9)
    × (read_all (map kind_of fields) (new_reader message 0)
        ≡ ok (fields, record { view = message; offset = 9 }))
write_all-read_all_example =
    write_all-read_all fields (omega arith, (omega arith, (omega arith, (tt, tt))))
