-- ===== src/Bytes/Fields.antt =====
-- The bytes of one field of a message: a JavaScript number in one, two, four or eight bytes.
use proxmoxwhatsapp.Prelude.{ℕ, List, ℤ, pos, ◌≡◌, ap}
use proxmoxwhatsapp.Bytes.{be_bytes, to_uint}
use proxmoxwhatsapp.Bytes.Laws.{IsUint, to_uint_pos}

abbrev pub u8 : ℤ → List ℕ
u8 z = be_bytes 1 (to_uint 1 z)

abbrev pub u16 : ℤ → List ℕ
u16 z = be_bytes 2 (to_uint 2 z)

abbrev pub u32 : ℤ → List ℕ
u32 z = be_bytes 4 (to_uint 4 z)

abbrev pub u64 : ℤ → List ℕ
u64 z = be_bytes 8 (to_uint 8 z)

pub unsigned : (k n : ℕ) → IsUint k n → be_bytes k (to_uint k (pos n)) ≡ be_bytes k n
unsigned k n h = ap (be_bytes k) (to_uint_pos k n h)
