-- ===== src/Control/Uhid.antt =====
-- UhidCreateMessage.ts, UhidInputMessage.ts, UhidDestroyMessage.ts: virtual keyboard and mouse.
pub mod Layout
use Prim.Native.Nat.{bit_and}
use proxmoxwhatsapp.Prelude.{
  ℕ, zero, suc, ◌+◌, ◌-◌, ◌%◌, List, [], ◌∷◌, ◌++◌, length, take, set, zeros, if◌then◌else◌, ltb, ℤ,
  pos, negsuc, pos_part, neg_part, sub_ℕ, Result, throw, plain_error, leb_ℤ,
}
use proxmoxwhatsapp.Text.{TextCodec}
use proxmoxwhatsapp.Bytes.{to_uint}
use proxmoxwhatsapp.Writer.{write_uint8, write_uint16_be, write_bytes, ◌▹◌, written}
use proxmoxwhatsapp.Control.Types.{type_uhid_create, type_uhid_input, type_uhid_destroy}

abbrev pub keyboard_descriptor : List ℕ
keyboard_descriptor =
    0x05 ∷ 0x01 ∷ 0x09 ∷ 0x06 ∷ 0xa1 ∷ 0x01 ∷ 0x05 ∷ 0x07 ∷ 0x19 ∷ 0xe0 ∷ 0x29 ∷ 0xe7 ∷ 0x15 ∷ 0x00
    ∷ 0x25 ∷ 0x01 ∷ 0x75 ∷ 0x01 ∷ 0x95 ∷ 0x08 ∷ 0x81 ∷ 0x02 ∷ 0x95 ∷ 0x01 ∷ 0x75 ∷ 0x08 ∷ 0x81
    ∷ 0x01 ∷ 0x95 ∷ 0x06 ∷ 0x75 ∷ 0x08 ∷ 0x15 ∷ 0x00 ∷ 0x25 ∷ 0x65 ∷ 0x05 ∷ 0x07 ∷ 0x19 ∷ 0x00
    ∷ 0x29 ∷ 0x65 ∷ 0x81 ∷ 0x00 ∷ 0xc0 ∷ []

abbrev pub mouse_descriptor : List ℕ
mouse_descriptor =
    0x05 ∷ 0x01 ∷ 0x09 ∷ 0x02 ∷ 0xa1 ∷ 0x01 ∷ 0x09 ∷ 0x01 ∷ 0xa1 ∷ 0x00 ∷ 0x05 ∷ 0x09 ∷ 0x19 ∷ 0x01
    ∷ 0x29 ∷ 0x05 ∷ 0x15 ∷ 0x00 ∷ 0x25 ∷ 0x01 ∷ 0x75 ∷ 0x01 ∷ 0x95 ∷ 0x05 ∷ 0x81 ∷ 0x02 ∷ 0x95
    ∷ 0x01 ∷ 0x75 ∷ 0x03 ∷ 0x81 ∷ 0x01 ∷ 0x05 ∷ 0x01 ∷ 0x09 ∷ 0x30 ∷ 0x09 ∷ 0x31 ∷ 0x09 ∷ 0x38
    ∷ 0x15 ∷ 0x81 ∷ 0x25 ∷ 0x7f ∷ 0x75 ∷ 0x08 ∷ 0x95 ∷ 0x03 ∷ 0x81 ∷ 0x06 ∷ 0xc0 ∷ 0xc0 ∷ []

module _ (c : TextCodec) where
  pub record UhidCreate : Type 0 where
    pub id : ℤ
    pub vendor_id : ℤ
    pub product_id : ℤ
    pub name : c.Text
    pub descriptor : List ℕ

  -- `createKeyboard` and `createMouse`; the names are literals of the source.
  unfoldable pub create_keyboard : c.Text → ℤ → UhidCreate
  create_keyboard keyboard_name id = record {
    id = id;
    vendor_id = pos 0;
    product_id = pos 0;
    name = keyboard_name;
    descriptor = keyboard_descriptor;
  }

  unfoldable pub create_mouse : c.Text → ℤ → UhidCreate
  create_mouse mouse_name id = record {
    id = id;
    vendor_id = pos 0;
    product_id = pos 0;
    name = mouse_name;
    descriptor = mouse_descriptor;
  }

  unfoldable pub uhid_create_bytes : UhidCreate → Result (List ℕ)
  uhid_create_bytes m =
      let name_bytes = c.encode m.name in
      let size = 1 + 2 + 2 + 2 + 1 + length name_bytes + 2 + length m.descriptor in
      if ltb 0xff (length name_bytes)
      then throw plain_error
      else written size (
          write_uint8 type_uhid_create
          ▹ write_uint16_be m.id
          ▹ write_uint16_be m.vendor_id
          ▹ write_uint16_be m.product_id
          ▹ write_uint8 (pos (length name_bytes))
          ▹ write_bytes name_bytes
          ▹ write_uint16_be (pos (length m.descriptor))
          ▹ write_bytes m.descriptor)

pub record UhidInput : Type 0 where
  pub id : ℤ
  pub report : List ℕ

-- An element of a Uint8Array takes the low byte of a number.
abbrev byte : ℤ → ℕ
byte = to_uint 1

-- The loop of `createKeyboardReport`, from element `i` on: `n` rounds are left.
unfoldable pub put_keycodes : ℕ → ℕ → List ℤ → List ℕ → List ℕ
put_keycodes zero i keycodes report = report
put_keycodes (suc n) i [] report = report
put_keycodes (suc n) i (k ∷ ks) report = put_keycodes n (i + 1) ks (set report (2 + i) (byte k))

unfoldable pub keyboard_report : ℤ → ℤ → List ℤ → UhidInput
unfolding put_keycodes
keyboard_report id modifier keycodes = record {
  id = id;
  report = put_keycodes 6 0 keycodes (set (set (zeros 8) 0 (byte modifier)) 1 0);
}

-- `Math.max(-127, Math.min(127, d))`
unfoldable pub clamp_127 : ℤ → ℤ
clamp_127 d =
    let low = if leb_ℤ d (pos 127) then d else pos 127 in
    if leb_ℤ (negsuc 126) low then low else negsuc 126

unfoldable pub mouse_report : ℤ → ℤ → ℤ → ℤ → ℤ → UhidInput
unfolding clamp_127
mouse_report id buttons dx dy wheel = record {
  id = id;
  report =
      byte buttons
      ∷ to_uint 1 (clamp_127 dx)
      ∷ to_uint 1 (clamp_127 dy)
      ∷ to_uint 1 (clamp_127 wheel)
      ∷ [];
}

unfoldable pub uhid_input_bytes : UhidInput → Result (List ℕ)
uhid_input_bytes m = written (1 + 2 + 2 + length m.report) (
    write_uint8 type_uhid_input
    ▹ write_uint16_be m.id
    ▹ write_uint16_be (pos (length m.report))
    ▹ write_bytes m.report)

unfoldable pub uhid_destroy_bytes : ℤ → Result (List ℕ)
uhid_destroy_bytes id = written 3 (write_uint8 type_uhid_destroy ▹ write_uint16_be id)
