-- ===== src/Security.antt =====
-- server/security/deviceInput.ts: values from the network on their way into device shells.
pub mod Quoting
pub mod DeviceInput
pub mod Deletion
pub mod Commands
pub mod Words
mod Tests
use proxmoxwhatsapp.Prelude.{
  ℕ, List, [], ◌∷◌, ◌++◌, Bool, true, false, ◌||◌, any, Option, none, some, ◌==◌, if◌then◌else◌,
}
use proxmoxwhatsapp.Subnet.Text.{Str}

abbrev pub quote : ℕ
quote = 39

abbrev pub backslash : ℕ
backslash = 92

-- `value.replace(/'/g, "'\\''")`.
unfoldable pub escape_quotes : Str → Str
escape_quotes [] = []
escape_quotes (x ∷ xs) =
    let rest = escape_quotes xs in
    if x == quote then quote ∷ (backslash ∷ (quote ∷ (quote ∷ rest))) else x ∷ rest

unfoldable pub sh_arg : Str → Str
sh_arg value = quote ∷ (escape_quotes value ++ quote ∷ [])
