-- ===== src/Security/Tests.antt =====
-- "it's" in a command line, and a photo with such a name.
use proxmoxwhatsapp.Prelude.{◌≡◌, ◌≢◌, refl, [], ◌∷◌, ◌++◌, some, true, All, ok}
use proxmoxwhatsapp.Subnet.Text.{Str, includes, split}
use proxmoxwhatsapp.Web.Text.{codes, eq_str}
use proxmoxwhatsapp.Security.DeviceInput.{
  text, check_path, without_slashes, is_protected, delete_files, is_alphanumeric, is_encoder_char,
  is_safe_encoder_name,
}
use proxmoxwhatsapp.Security.Commands.{IsSafeCommand, delete_files-IsSafeCommand}
use proxmoxwhatsapp.Security.Words.{is_safe_encoder_name-read_word}
use proxmoxwhatsapp.Security.{sh_arg}
use proxmoxwhatsapp.Security.Quoting.{bare, read_word, ends_word, is_special, read_word-sh_arg}

read_word-sh_arg_example :
    read_word bare (sh_arg (105 ∷ (116 ∷ (39 ∷ (115 ∷ [])))) ++ (32 ∷ (120 ∷ [])))
    ≡ some (105 ∷ (116 ∷ (39 ∷ (115 ∷ []))), 32 ∷ (120 ∷ []))
unfolding ends_word is_special
read_word-sh_arg_example = read_word-sh_arg (105 ∷ (116 ∷ (39 ∷ (115 ∷ [])))) (32 ∷ (120 ∷ [])) refl

abbrev photo : Str
photo = codes "/sdcard/DCIM/it's.jpg"

-- Two slashes at the front hide a protected directory from the check.
double_slash : check_path (text (codes "//sdcard")) ≡ ok (codes "//sdcard")
unfolding check_path includes split without_slashes is_protected eq_str
double_slash = refl

delete_files-IsSafeCommand_example :
    All IsSafeCommand
      (delete_files
        (λ udid command. true)
        (some (codes "emulator-5554"))
        (some (text photo ∷ []))).commands
delete_files-IsSafeCommand_example =
    delete_files-IsSafeCommand (λ udid command. true) (some (codes "emulator-5554"))
      (some (text photo ∷ []))

safe_encoder : is_safe_encoder_name (text (codes "c2.android")) ≡ true
unfolding is_safe_encoder_name is_encoder_char is_alphanumeric
safe_encoder = refl

is_safe_encoder_name-read_word_example :
    (codes "c2.android" ≢ [])
    × (read_word bare (codes "c2.android" ++ codes " a") ≡ some (codes "c2.android", codes " a"))
unfolding ends_word is_special
is_safe_encoder_name-read_word_example =
    is_safe_encoder_name-read_word (codes "c2.android") (codes " a") safe_encoder refl
