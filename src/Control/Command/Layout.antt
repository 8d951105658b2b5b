-- ===== src/Control/Command/Layout.antt =====
-- The exact bytes of the commands.
use proxmoxwhatsapp.Prelude.{
  ℕ, ◌≡◌, List, ◌++◌, length, arith, ℤ, pos, ok, length-append, Bool, if◌then◌else◌, append-nil,
  Bool-cases, inl, inr,
}
use proxmoxwhatsapp.Text.{TextCodec}
use proxmoxwhatsapp.Bytes.Fields.{u8, u32, u64}
use proxmoxwhatsapp.Bytes.Laws.{length-be_bytes}
use proxmoxwhatsapp.Writer.Laws.{writing, written-Writes}
use proxmoxwhatsapp.Control.Types.{
  type_get_clipboard, type_set_clipboard, type_set_screen_power_mode, type_change_stream_parameters,
}
use proxmoxwhatsapp.Control.Command.{
  command_bytes, set_video_settings_command, get_clipboard_command, set_clipboard_command,
  set_screen_power_mode_command,
}

pub command_bytes-layout : (type : ℤ) → command_bytes type ≡ ok (u8 type)
unfolding command_bytes
command_bytes-layout type = written-Writes _ 0 _ _ (search writing) (omega (arith, length-be_bytes))

pub set_video_settings_command-layout :
    (temp : List ℕ)
    → set_video_settings_command temp ≡ ok (u8 type_change_stream_parameters ++ temp)
unfolding set_video_settings_command
set_video_settings_command-layout temp =
    written-Writes _ 0 _ _ (search writing depth 20)
      (omega (arith, length-append {0}, length-be_bytes))

-- The copy key follows the type: the server reads one byte after it.
pub get_clipboard_command-layout :
    (copy_key : ℤ) → get_clipboard_command copy_key ≡ ok (u8 type_get_clipboard ++ u8 copy_key)
unfolding get_clipboard_command
get_clipboard_command-layout copy_key =
    written-Writes _ 0 _ _ (search writing depth 20)
      (omega (arith, length-append {0}, length-be_bytes))

pub set_screen_power_mode_command-layout :
    (mode : Bool)
    → set_screen_power_mode_command mode
      ≡ ok (u8 type_set_screen_power_mode ++ u8 (if mode then pos 1 else pos 0))
unfolding set_screen_power_mode_command
set_screen_power_mode_command-layout mode =
    written-Writes _ 0 _ _ (search writing depth 20)
      (omega (arith, length-append {0}, length-be_bytes))

module _ (c : TextCodec) where
  -- A clipboard message for any text, the empty one too, exactly fills its buffer with the type,
  -- the sequence number, the paste flag, the length of the text's bytes and these bytes.
  pub set_clipboard_command-layout :
      (text : c.Text) (paste : Bool) (sequence : ℤ)
      → set_clipboard_command c text paste sequence
        ≡ ok (
            u8 type_set_clipboard
            ++ u64 sequence
            ++ u8 (if paste then pos 1 else pos 0)
            ++ u32 (pos (length (c.encode text)))
            ++ c.encode text)
  unfolding set_clipboard_command
  set_clipboard_command-layout text paste sequence = elim (Bool-cases (c.is_empty text)) [
    | inl e ↦
        rw
          (
            e,
            c.is_empty-true text e,
            c.encode-empty,
            append-nil (
                u8 type_set_clipboard
                ++ u64 sequence
                ++ u8 (if paste then pos 1 else pos 0)
                ++ u32 (pos 0)),
          )
          (written-Writes _ 0 _ _ (search writing depth 20)
            (omega (arith, length-append {0}, length-be_bytes)))
    | inr e ↦ rw e (
        written-Writes _ 0 _ _ (search writing depth 20)
          (omega (arith, length-append {0}, length-be_bytes)))
  ]
