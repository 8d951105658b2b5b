-- ===== src/Control/Input.antt =====
-- KeyCodeControlMessage.ts, TextControlMessage.ts, TouchControlMessage.ts, ScrollControlMessage.ts.
pub mod Layout
use proxmoxwhatsapp.Prelude.{
  ℕ, suc, ◌+◌, ◌*◌, ◌/◌, List, length, Bool, if◌then◌else◌, ltb, ℤ, pos, negsuc, Result, min,
}
use proxmoxwhatsapp.Text.{TextCodec}
use proxmoxwhatsapp.Writer.{
  Write, write_uint8, write_int8, write_uint16_be, write_int16_be, write_uint32_be, write_int32_be,
  write_bytes, ◌▹◌, written,
}
use proxmoxwhatsapp.Control.Types.{type_keycode, type_text, type_touch, type_scroll}

pub record KeyCode : Type 0 where
  pub action : ℤ
  pub keycode : ℤ
  pub repeat : ℤ
  pub meta_state : ℤ

abbrev pub key_code_payload_length : ℕ
key_code_payload_length = 13

unfoldable pub key_code_bytes : KeyCode → Result (List ℕ)
key_code_bytes m = written (key_code_payload_length + 1) (
    write_int8 type_keycode
    ▹ write_int8 m.action
    ▹ write_int32_be m.keycode
    ▹ write_int32_be m.repeat
    ▹ write_int32_be m.meta_state)

module _ (c : TextCodec) where
  abbrev pub text_size_field_length : ℕ
  text_size_field_length = 4

  unfoldable pub text_bytes : c.Text → Result (List ℕ)
  text_bytes text =
      let bytes = c.encode text in
      written (1 + text_size_field_length + length bytes)
        (write_uint8 type_text ▹ write_uint32_be (pos (length bytes)) ▹ write_bytes bytes)

-- Position.ts, Point.ts and Size.ts where a message carries them: rounded coordinates.
pub record Position : Type 0 where
  pub x : ℤ
  pub y : ℤ
  pub width : ℤ
  pub height : ℤ

-- The floating-point steps of a touch's pressure. `scaled p` is what `setUint16` makes of
-- `p * MAX_PRESSURE_VALUE`, before it wraps.
pub record Pressure : Type 1 where
  pub Float : Type 0
  pub is_finite : Float → Bool
  pub zero_one_clamp : Float → Float
  pub zero : Float
  pub scaled : Float → ℤ

pub record Touch (Float : Type 0) : Type 0 where
  pub action : ℤ
  pub pointer_id : ℤ
  pub position : Position
  pub pressure : Float
  pub action_button : ℤ
  pub buttons : ℤ

abbrev pub touch_payload_length : ℕ
touch_payload_length = 31

module _ (f : Pressure) where
  unfoldable pub touch_pressure : f.Float → ℤ
  touch_pressure p = f.scaled (if f.is_finite p then f.zero_one_clamp p else f.zero)

  unfoldable pub touch_bytes : Touch f.Float → Result (List ℕ)
  touch_bytes m = written (touch_payload_length + 1) (
      write_uint8 type_touch
      ▹ write_uint8 m.action
      ▹ write_uint32_be (pos 0)
      ▹ write_uint32_be m.pointer_id
      ▹ write_uint32_be m.position.x
      ▹ write_uint32_be m.position.y
      ▹ write_uint16_be m.position.width
      ▹ write_uint16_be m.position.height
      ▹ write_uint16_be (touch_pressure m.pressure)
      ▹ write_uint32_be m.action_button
      ▹ write_uint32_be m.buttons)

-- Scroll ticks are -1, 0 or 1, and integers in any case, so that the float steps are exact.
pub record Scroll : Type 0 where
  pub position : Position
  pub h_scroll : ℤ
  pub v_scroll : ℤ
  pub buttons : ℤ

abbrev pub scroll_payload_length : ℕ
scroll_payload_length = 20

abbrev pub scroll_divisor : ℕ
scroll_divisor = 128

-- `-n`, for a number.
abbrev neg : ℕ → ℤ
neg n = elim n [ ℕ.zero ↦ pos 0 | ℕ.suc m ↦ negsuc m ]

-- `floatToI16FP(max(-1, min(1, ticks / 128)))` with the fraction kept over 128: a negative one is
-- `-round(-f * 0x8000)`, another one `round(f * 0x7fff)`, and `round(a / 128)` is ⌊(2 a + 128) / 256⌋.
unfoldable pub scroll_fixed_point : ℤ → ℤ
scroll_fixed_point (negsuc n) =
    neg ((2 * (min (suc n) scroll_divisor * 0x8000) + scroll_divisor) / (2 * scroll_divisor))
scroll_fixed_point (pos n) =
    pos ((2 * (min n scroll_divisor * 0x7fff) + scroll_divisor) / (2 * scroll_divisor))

unfoldable pub scroll_bytes : Scroll → Result (List ℕ)
scroll_bytes m = written (scroll_payload_length + 1) (
    write_uint8 type_scroll
    ▹ write_uint32_be m.position.x
    ▹ write_uint32_be m.position.y
    ▹ write_uint16_be m.position.width
    ▹ write_uint16_be m.position.height
    ▹ write_int16_be (scroll_fixed_point m.h_scroll)
    ▹ write_int16_be (scroll_fixed_point m.v_scroll)
    ▹ write_uint32_be m.buttons)
