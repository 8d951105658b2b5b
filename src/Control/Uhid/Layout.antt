-- ===== src/Control/Uhid/Layout.antt =====
-- The exact bytes of the virtual-device messages, and the reports that they carry.
use proxmoxwhatsapp.Prelude.{
  ◌≡◌, ap, ◌++◌, length, arith, ℤ, pos, negsuc, ok, throw, plain_error, length-append, ltb, ◌≤ℤ◌,
  if◌then◌else◌,
}
use proxmoxwhatsapp.Text.{TextCodec}
use proxmoxwhatsapp.Bytes.Fields.{u8, u16}
use proxmoxwhatsapp.Bytes.Laws.{length-be_bytes, IsInt}
use proxmoxwhatsapp.Writer.Laws.{writing, written-Writes}
use proxmoxwhatsapp.Control.Types.{type_uhid_create, type_uhid_input, type_uhid_destroy}
use proxmoxwhatsapp.Control.Uhid.{
  UhidCreate, UhidInput, uhid_create_bytes, uhid_input_bytes, uhid_destroy_bytes, clamp_127,
}

-- A device creation message is refused with an Error when its name has more than 255 bytes;
-- otherwise it exactly fills its buffer with the type, the ids, the name behind one byte of length
-- and the descriptor behind two.
pub uhid_create_bytes-layout :
    (c : TextCodec) (m : UhidCreate c)
    → uhid_create_bytes c m ≡ (
        if ltb 255 (length (c.encode m.name))
        then throw plain_error
        else ok (
            u8 type_uhid_create
            ++ u16 m.id
            ++ u16 m.vendor_id
            ++ u16 m.product_id
            ++ u8 (pos (length (c.encode m.name)))
            ++ c.encode m.name
            ++ u16 (pos (length m.descriptor))
            ++ m.descriptor))
unfolding uhid_create_bytes
uhid_create_bytes-layout c m =
    ap (λ r. if ltb 255 (length (c.encode m.name)) then throw plain_error else r)
      (written-Writes _ 0 _ _ (search writing depth 20)
        (omega (arith, length-append {0}, length-be_bytes)))

pub uhid_input_bytes-layout :
    (m : UhidInput)
    → uhid_input_bytes m
      ≡ ok (u8 type_uhid_input ++ u16 m.id ++ u16 (pos (length m.report)) ++ m.report)
unfolding uhid_input_bytes
uhid_input_bytes-layout m =
    written-Writes _ 0 _ _ (search writing depth 20)
      (omega (arith, length-append {0}, length-be_bytes))

pub uhid_destroy_bytes-layout :
    (id : ℤ) → uhid_destroy_bytes id ≡ ok (u8 type_uhid_destroy ++ u16 id)
unfolding uhid_destroy_bytes
uhid_destroy_bytes-layout id =
    written-Writes _ 0 _ _ (search writing depth 20)
      (omega (arith, length-append {0}, length-be_bytes))

-- However far the mouse moved, the three deltas of a report are signed bytes that the host reads
-- back as the clamped movement.
clamp_127-IsInt : (d : ℤ) → IsInt 1 (clamp_127 d)
unfolding clamp_127
clamp_127-IsInt (pos n) = ground arith
clamp_127-IsInt (negsuc n) = ground arith

-- A movement within ±127 is sent as it is.
clamp_127_within : (d : ℤ) → negsuc 126 ≤ℤ d → d ≤ℤ pos 127 → clamp_127 d ≡ d
unfolding clamp_127
clamp_127_within d h k = ground arith
