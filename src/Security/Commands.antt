-- ===== src/Security/Commands.antt =====
-- What the route that deletes files asks of the device's shell.
use proxmoxwhatsapp.Prelude.{
  List, [], ◌∷◌, ◌++◌, All, All-append, Bool, true, false, Option, none, some, if◌then◌else◌,
  Bool-cases, inl, inr, ◌≡◌, refl, sym, ap, ◌∙◌, Result, ok, throw, plain_error, ◌>>=◌,
}
use mathlib.Core.Path.{subst}
use proxmoxwhatsapp.Subnet.Text.{Str}
use proxmoxwhatsapp.Web.Text.{codes}
use proxmoxwhatsapp.Security.{sh_arg}
use proxmoxwhatsapp.Security.Quoting.{bare, read_word, ends_word, read_word-sh_arg}
use proxmoxwhatsapp.Security.DeviceInput.{
  Value, text, is_blank, check_path, check_paths, assert_deletable_paths, delete_command,
  delete_each, delete_checked, delete_files, is_valid_serial, shell_works, given,
}
use proxmoxwhatsapp.Prelude.{append-nil}
use proxmoxwhatsapp.Security.Deletion.{IsDeletable, check_path-IsDeletable}

joined :
    (r : Result Str) (rs : Result (List Str)) (paths : List Str)
    → (r >>= λ p. rs >>= λ ps. ok (p ∷ ps)) ≡ ok paths
    → (p : Str) × (ps : List Str) × (r ≡ ok p) × (rs ≡ ok ps) × (p ∷ ps ≡ paths)
joined (throw e) rs paths h = absurd cc
joined (ok p) (throw e) paths h = absurd cc
joined (ok p) (ok ps) paths h = (p, ps, refl, refl, cc)

check_paths-All :
    (values : List Value) (paths : List Str) → check_paths values ≡ ok paths → All IsDeletable paths
unfolding check_paths
check_paths-All [] paths h = subst (All IsDeletable) (the_same h) tt
  where
    the_same : ok [] ≡ ok paths → [] ≡ paths
    the_same q = cc
check_paths-All (value ∷ values) paths h =
    let (p, ps, one, others, e) = joined (check_path value) (check_paths values) paths h in
    subst (All IsDeletable) e (check_path-IsDeletable value p one, check_paths-All values ps others)

-- A command that deletes one path, and nothing else, which may be deleted.
pub record IsSafeCommand (command : Str) : Type 0 where
  pub word : Str
  pub path : Str
  pub same : command ≡ codes "rm -rf " ++ word
  pub one_word : read_word bare word ≡ some (path, [])
  pub deletable : IsDeletable path

IsDeletable-command : (path : Str) → IsDeletable path → IsSafeCommand (delete_command path)
unfolding delete_command ends_word
IsDeletable-command path d = record {
  word = sh_arg path;
  path = path;
  same = refl;
  one_word = ap (read_word bare) (sym (append-nil (sh_arg path))) ∙ read_word-sh_arg path [] refl;
  deletable = d;
}

not_too_many :
    (many : Bool) (r : Result (List Str)) (paths : List Str)
    → (if many then throw plain_error else r) ≡ ok paths
    → r ≡ ok paths
not_too_many true r paths h = absurd cc
not_too_many false r paths h = h

module _ (shell : Str → Str → Bool) where
  -- A command is given to adb or not, whether it works or not.
  commands-step :
      (udid path : Str) (paths : List Str)
      → (delete_each shell udid (path ∷ paths)).commands
        ≡ given shell udid (delete_command path) ++ (delete_each shell udid paths).commands
  unfolding delete_each
  commands-step udid path paths = elim (Bool-cases (shell_works shell udid (delete_command path))) [
    | inl e ↦ rw e refl
    | inr e ↦ rw e refl
  ]

  given-IsSafeCommand :
      (udid path : Str)
      → IsDeletable path
      → All IsSafeCommand (given shell udid (delete_command path))
  unfolding given
  given-IsSafeCommand udid path d = elim (Bool-cases (is_valid_serial (text udid))) [
    | inl e ↦ rw e (IsDeletable-command path d, tt)
    | inr e ↦ rw e tt
  ]

  delete_each-IsSafeCommand :
      (udid : Str) (paths : List Str)
      → All IsDeletable paths
      → All IsSafeCommand (delete_each shell udid paths).commands
  unfolding delete_each
  delete_each-IsSafeCommand udid [] h = tt
  delete_each-IsSafeCommand udid (path ∷ paths) h =
      subst (All IsSafeCommand) (sym (commands-step udid path paths)) (
        All-append IsSafeCommand _ _ (given-IsSafeCommand udid path h.0)
          (delete_each-IsSafeCommand udid paths h.1))

  assert_deletable_paths-All :
      (values : Option (List Value)) (paths : List Str)
      → assert_deletable_paths values ≡ ok paths
      → All IsDeletable paths
  unfolding assert_deletable_paths
  assert_deletable_paths-All none paths h = absurd cc
  assert_deletable_paths-All (some []) paths h = absurd cc
  assert_deletable_paths-All (some (value ∷ values)) paths h =
      check_paths-All (value ∷ values) paths (not_too_many _ _ paths h)

  delete_checked-IsSafeCommand :
      (udid : Str) (r : Result (List Str))
      → ((paths : List Str) → r ≡ ok paths → All IsDeletable paths)
      → All IsSafeCommand (delete_checked shell udid r).commands
  unfolding delete_checked
  delete_checked-IsSafeCommand udid (throw e) h = tt
  delete_checked-IsSafeCommand udid (ok paths) h =
      delete_each-IsSafeCommand udid paths (h paths refl)

  -- Whatever a request to delete files asks, each command that is given to adb is `rm -rf` with one
  -- word for a POSIX shell, a path that is absolute, has no NUL and no segment of one or two dots,
  -- and is no protected directory, however many slashes follow it.
  pub delete_files-IsSafeCommand :
      (udid : Option Str) (values : Option (List Value))
      → All IsSafeCommand (delete_files shell udid values).commands
  unfolding delete_files
  delete_files-IsSafeCommand none values = tt
  delete_files-IsSafeCommand (some udid) values = elim (Bool-cases (is_blank udid)) [
    | inl e ↦ rw e tt
    | inr e ↦ rw e (
        delete_checked-IsSafeCommand udid (assert_deletable_paths values)
          (assert_deletable_paths-All values))
  ]
