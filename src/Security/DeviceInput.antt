-- ===== src/Security/DeviceInput.antt =====
-- The checks of server/security/deviceInput.ts on serials, encoder names and paths to delete, and the
-- route of server/api/DeviceDiscoveryApi.ts that deletes files.
use proxmoxwhatsapp.Prelude.{
  ℕ, List, [], ◌∷◌, ◌++◌, length, all, any, Bool, true, false, not, ◌&&◌, ◌||◌, leb, ltb, ◌==◌,
  Option, none, some, if◌then◌else◌, Result, ok, throw, plain_error, ◌>>=◌,
}
use proxmoxwhatsapp.Subnet.Text.{Str, dash, dot, slash, includes, split}
use proxmoxwhatsapp.Web.Text.{codes, eq_str}
use proxmoxwhatsapp.Security.{sh_arg}

-- A value of a JSON body.
pub data Value : Type 0 where
  text : Str → Value
  other : Value

unfoldable pub is_alphanumeric : ℕ → Bool
is_alphanumeric c = (leb 65 c && leb c 90) || (leb 97 c && leb c 122) || (leb 48 c && leb c 57)

abbrev pub fits_128 : Str → Bool
fits_128 s = leb 1 (length s) && leb (length s) 128

-- `SERIAL_RE`.
unfoldable pub is_serial_char : ℕ → Bool
unfolding is_alphanumeric
is_serial_char c = is_alphanumeric c || c == dot || c == 95 || c == 58 || c == dash

abbrev pub starts_dashed : Str → Bool
starts_dashed [] = false
starts_dashed (x ∷ xs) = x == dash

unfoldable pub is_valid_serial : Value → Bool
unfolding is_serial_char
is_valid_serial other = false
is_valid_serial (text s) = not (starts_dashed s) && fits_128 s && all is_serial_char s

unfoldable pub assert_serial : Value → Result Str
unfolding is_valid_serial
assert_serial other = throw plain_error
assert_serial (text s) = if is_valid_serial (text s) then ok s else throw plain_error

unfoldable pub is_encoder_char : ℕ → Bool
unfolding is_alphanumeric
is_encoder_char c = is_alphanumeric c || c == 95 || c == dot || c == dash

unfoldable pub is_safe_encoder_name : Value → Bool
unfolding is_encoder_char
is_safe_encoder_name other = false
is_safe_encoder_name (text s) = fits_128 s && all is_encoder_char s

abbrev pub protected_roots : List Str
protected_roots =
    codes "/"
    ∷ (codes "/sdcard"
        ∷ (codes "/storage"
            ∷ (codes "/storage/emulated"
                ∷ (codes "/storage/emulated/0"
                    ∷ (codes "/data"
                        ∷ (codes "/system"
                            ∷ (codes "/vendor"
                                ∷ (codes "/mnt" ∷ (codes "/proc" ∷ (codes "/dev" ∷ []))))))))))

abbrev pub max_delete_paths : ℕ
max_delete_paths = 1000

abbrev pub or_root : Str → Str
or_root [] = codes "/"
or_root (x ∷ xs) = x ∷ xs

abbrev pub is_blank : Str → Bool
is_blank [] = true
is_blank (x ∷ xs) = false

-- `p.replace(/\/+$/, '')`.
unfoldable pub without_slashes : Str → Str
without_slashes [] = []
without_slashes (x ∷ xs) =
    let rest = without_slashes xs in if x == slash && is_blank rest then [] else x ∷ rest

abbrev pub is_dots : Str → Bool
is_dots segment = eq_str segment (codes ".") || eq_str segment (codes "..")

unfoldable pub is_protected : Str → Bool
is_protected normalized = any (λ root. eq_str normalized root) protected_roots

abbrev pub is_absolute : Str → Bool
is_absolute [] = false
is_absolute (x ∷ xs) = x == slash

-- The tests of one path, in their order.
unfoldable pub check_path : Value → Result Str
unfolding without_slashes is_protected
check_path other = throw plain_error
check_path (text p) =
    if is_blank p
    then throw plain_error
    else if includes 0 p
    then throw plain_error
    else if not (is_absolute p)
    then throw plain_error
    else if any is_dots (split slash p)
    then throw plain_error
    else if is_protected (or_root (without_slashes p))
    then throw plain_error
    else ok p

unfoldable pub check_paths : List Value → Result (List Str)
unfolding check_path
check_paths [] = ok []
check_paths (value ∷ values) = do p ← check_path value; ps ← check_paths values; ok (p ∷ ps)

-- None is a value that is no array.
unfoldable pub assert_deletable_paths : Option (List Value) → Result (List Str)
unfolding check_paths
assert_deletable_paths none = throw plain_error
assert_deletable_paths (some []) = throw plain_error
assert_deletable_paths (some (value ∷ values)) =
    if ltb max_delete_paths (length (value ∷ values))
    then throw plain_error
    else check_paths (value ∷ values)

unfoldable pub delete_command : Str → Str
unfolding sh_arg
delete_command path = codes "rm -rf " ++ sh_arg path

-- What the route has done: its status, the paths that failed, and the commands that it gave to adb.
pub record Deletion : Type 0 where
  pub status : ℕ
  pub failed : List Str
  pub commands : List Str

abbrev pub refused : Deletion
refused = record { status = 400; failed = []; commands = [] }

-- `shell` is whether a command succeeds on the device of the given serial.
module _ (shell : Str → Str → Bool) where
  -- AdbClient's `shell`: whether it works. `exec` throws before adb where the serial is invalid.
  unfoldable pub shell_works : Str → Str → Bool
  shell_works udid command = is_valid_serial (text udid) && shell udid command

  -- The commands that `exec` gives to adb for it.
  unfoldable pub given : Str → Str → List Str
  given udid command = if is_valid_serial (text udid) then command ∷ [] else []

  unfoldable pub delete_each : Str → List Str → Deletion
  unfolding delete_command shell_works given
  delete_each udid [] = record { status = 200; failed = []; commands = [] }
  delete_each udid (path ∷ paths) =
      let rest = delete_each udid paths in
      let command = delete_command path in
      let commands = given udid command ++ rest.commands in
      if shell_works udid command
      then record rest { commands = commands }
      else record { status = 207; failed = path ∷ rest.failed; commands = commands }

  -- After the check of the paths.
  unfoldable pub delete_checked : Str → Result (List Str) → Deletion
  unfolding delete_each
  delete_checked udid (throw e) = refused
  delete_checked udid (ok safe_paths) = delete_each udid safe_paths

  unfoldable pub delete_files : Option Str → Option (List Value) → Deletion
  unfolding delete_checked
  delete_files none paths = refused
  delete_files (some udid) paths =
      if is_blank udid then refused else delete_checked udid (assert_deletable_paths paths)
