-- ===== src/Control/Command.antt =====
-- CommandControlMessage.ts, the commands other than those of a file push.
pub mod Layout
use proxmoxwhatsapp.Prelude.{
  ℕ, ◌+◌, List, length, Bool, Option, none, some, if◌then◌else◌, ℤ, pos, Result, [],
}
use proxmoxwhatsapp.Text.{TextCodec}
use proxmoxwhatsapp.Writer.{
  write_uint8, write_int8, write_int32_be, write_big_uint64_be, write_bytes, ◌▹◌, written,
}
use proxmoxwhatsapp.Control.Types.{
  type_get_clipboard, type_set_clipboard, type_set_screen_power_mode, type_change_stream_parameters,
}

abbrev pub payload_length : ℕ
payload_length = 0

-- `toUint8Array` of a command without a buffer of its own: the type alone.
unfoldable pub command_bytes : ℤ → Result (List ℕ)
command_bytes type = written (payload_length + 1) (write_uint8 type)

-- The argument is the encoded VideoSettings.
unfoldable pub set_video_settings_command : List ℕ → Result (List ℕ)
set_video_settings_command temp =
    written (payload_length + 1 + length temp)
      (write_uint8 type_change_stream_parameters ▹ write_bytes temp)

unfoldable pub get_clipboard_command : ℤ → Result (List ℕ)
get_clipboard_command copy_key =
    written (1 + 1) (write_uint8 type_get_clipboard ▹ write_uint8 copy_key)

abbrev flag : Bool → ℤ
flag b = if b then pos 1 else pos 0

module _ (c : TextCodec) where
  -- `text ? encode(text) : null`, and the bytes of `null` are not written.
  unfoldable pub clipboard_text : c.Text → List ℕ
  clipboard_text text = if c.is_empty text then [] else c.encode text

  unfoldable pub set_clipboard_command : c.Text → Bool → ℤ → Result (List ℕ)
  unfolding clipboard_text
  set_clipboard_command text paste sequence =
      let text_bytes = clipboard_text text in
      let header =
        write_int8 type_set_clipboard
        ▹ write_big_uint64_be sequence
        ▹ write_uint8 (flag paste)
        ▹ write_int32_be (pos (length text_bytes)) in
      written (1 + 8 + 1 + 4 + length text_bytes)
        (if c.is_empty text then header else header ▹ write_bytes text_bytes)

unfoldable pub set_screen_power_mode_command : Bool → Result (List ℕ)
set_screen_power_mode_command mode =
    written (1 + 1) (write_int8 type_set_screen_power_mode ▹ write_uint8 (flag mode))
