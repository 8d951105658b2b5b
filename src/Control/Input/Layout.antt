-- ===== src/Control/Input/Layout.antt =====
-- The exact bytes of the input messages: every `toUint8Array` succeeds, fills its buffer to the end, and
-- lays the fields out in this order.
use proxmoxwhatsapp.Prelude.{◌≡◌, ◌++◌, length, arith, ℤ, pos, negsuc, ok, length-append}
use proxmoxwhatsapp.Text.{TextCodec}
use proxmoxwhatsapp.Bytes.Fields.{u8, u16, u32}
use proxmoxwhatsapp.Bytes.Laws.{length-be_bytes, IsInt}
use proxmoxwhatsapp.Writer.Laws.{writing, written-Writes}
use proxmoxwhatsapp.Control.Types.{type_keycode, type_text, type_touch, type_scroll}
use proxmoxwhatsapp.Control.Input.{
  KeyCode, key_code_bytes, text_bytes, Pressure, Touch, touch_pressure, touch_bytes, Scroll,
  scroll_bytes, scroll_fixed_point,
}

-- A key message is 14 bytes: type, action, and key code, repeat count and meta state of four bytes each.
pub key_code_bytes-layout :
    (m : KeyCode)
    → (key_code_bytes m
        ≡ ok (u8 type_keycode ++ u8 m.action ++ u32 m.keycode ++ u32 m.repeat ++ u32 m.meta_state))
unfolding key_code_bytes
key_code_bytes-layout m =
    written-Writes _ 0 _ _ (search writing depth 20)
      (omega (arith, length-append {0}, length-be_bytes))

-- A text message is its type, the length of the UTF-8 bytes, and these bytes.
pub text_bytes-layout :
    (c : TextCodec) (text : c.Text)
    → text_bytes c text ≡ ok (u8 type_text ++ u32 (pos (length (c.encode text))) ++ c.encode text)
unfolding text_bytes
text_bytes-layout c text =
    written-Writes _ 0 _ _ (search writing depth 20)
      (omega (arith, length-append {0}, length-be_bytes))

-- A touch message never overruns or underfills its 32 bytes: it is the type, the action, a pointer
-- id of 8 bytes, the position, the size of the screen, the pressure and the two button fields, in
-- this order.
pub touch_bytes-layout :
    (f : Pressure) (m : Touch f.Float)
    → touch_bytes f m
      ≡ ok (
          u8 type_touch
          ++ u8 m.action
          ++ u32 (pos 0)
          ++ u32 m.pointer_id
          ++ u32 m.position.x
          ++ u32 m.position.y
          ++ u16 m.position.width
          ++ u16 m.position.height
          ++ u16 (touch_pressure f m.pressure)
          ++ u32 m.action_button
          ++ u32 m.buttons)
unfolding touch_bytes
touch_bytes-layout f m =
    written-Writes _ 0 _ _ (search writing depth 20)
      (omega (arith, length-append {0}, length-be_bytes))

-- A scroll message never overruns or underfills its 21 bytes: it is the type, the position, the
-- size of the screen, the two scroll values in fixed point, and the buttons, in this order.
pub scroll_bytes-layout :
    (m : Scroll)
    → scroll_bytes m
      ≡ ok (
          u8 type_scroll
          ++ u32 m.position.x
          ++ u32 m.position.y
          ++ u16 m.position.width
          ++ u16 m.position.height
          ++ u16 (scroll_fixed_point m.h_scroll)
          ++ u16 (scroll_fixed_point m.v_scroll)
          ++ u32 m.buttons)
unfolding scroll_bytes
scroll_bytes-layout m =
    written-Writes _ 0 _ _ (search writing depth 20)
      (omega (arith, length-append {0}, length-be_bytes))

-- The fixed-point value of any integral scroll distance fits the signed 16 bits in which it is
-- written.
pub scroll_fixed_point_range : (z : ℤ) → IsInt 2 (scroll_fixed_point z)
unfolding scroll_fixed_point
scroll_fixed_point_range (pos n) = omega arith
scroll_fixed_point_range (negsuc n) = ground arith
