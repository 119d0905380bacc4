-- ===== src/Install/Names.antt =====
-- The names of the prepared update, of the backup and of what was recovered.
use ssh_mountmate.Base.{
  Bool, false, ◌&&◌, ◌||◌, not, Option, none, some, [], ◌∷◌, ◌++◌, all, any, length, ◌==◌,
  if◌then◌else◌,
}
use ssh_mountmate.Text.{
  Text, codes, text_eq, is_empty, strip_prefix, strip_suffix, is_ascii_hexdigit,
}
use ssh_mountmate.Install.Types.{
  InstallKind, standalone_executable, directory_bundle, mac_application_bundle, InstallLayout,
  TransactionPaths,
}

-- The parts of `std::path::Path` that depend on the system.
pub record Paths : Type 0 where
  pub parent : Text → Option Text
  pub file_name : Text → Option Text
  pub join : Text → Text → Text
  pub with_file_name : Text → Text → Text
  pub starts_with : Text → Text → Bool
  pub path_strip_prefix : Text → Text → Option Text

-- `file_stem` and `extension` of a name: what stands before and after the last dot, if a dot stands
-- behind the first character, and the name is not `..`.
abbrev pub split_last_dot : Text → Option (Text × Text)
split_last_dot [] = none
split_last_dot (c ∷ s) =
    let rest = split_last_dot s in
    elim rest [
      | some parts ↦ some (c ∷ parts.0, parts.1)
      | none ↦ if c == b'.' then some ([], s) else none
    ]

abbrev pub with_stem : Option (Text × Text) → Option (Text × Text)
with_stem none = none
with_stem (some ([], extension)) = none
with_stem (some (c ∷ stem, extension)) = some (c ∷ stem, extension)

unfoldable pub stem_and_extension : Text → Option (Text × Text)
unfolding text_eq
stem_and_extension name =
    if text_eq name (codes "..") then none else with_stem (split_last_dot name)

abbrev pub with_extension : Text → Text → Option (Text × Text) → Text × Text
with_extension name phase (some (stem, extension)) =
    (codes "." ++ (stem ++ (codes ".ssh-mountmate-" ++ phase)), codes "." ++ extension)
with_extension name phase none = (codes "." ++ (name ++ (codes ".ssh-mountmate-" ++ phase)), [])

unfoldable pub transaction_name_parts : Text → InstallKind → Text → Text × Text
unfolding stem_and_extension
transaction_name_parts name standalone_executable phase =
    with_extension name phase (stem_and_extension name)
transaction_name_parts name mac_application_bundle phase =
    with_extension name phase (stem_and_extension name)
transaction_name_parts name directory_bundle phase = with_extension name phase none

abbrev pub joined_name : Option Text → Text × Text → Text
joined_name (some token) (prefix, suffix) = prefix ++ (codes "-" ++ (token ++ suffix))
joined_name none (prefix, suffix) = prefix ++ suffix

unfoldable pub transaction_file_name : Text → InstallKind → Text → Option Text → Text
unfolding transaction_name_parts
transaction_file_name name kind phase token =
    joined_name token (transaction_name_parts name kind phase)

-- A `String` counts its bytes; a token that passes has ASCII characters only.
abbrev pub is_token : Text → Bool
is_token token = length token == 32 && all is_ascii_hexdigit token

abbrev pub token_of : Text → Text → Option Text
token_of [] candidate = some candidate
token_of (c ∷ suffix) candidate = strip_suffix candidate (c ∷ suffix)

abbrev pub holds : (Text → Bool) → Option Text → Bool
holds p none = false
holds p (some t) = p t

abbrev pub token_in : Text → Option Text → Bool
token_in suffix none = false
token_in suffix (some candidate) = holds is_token (token_of suffix candidate)

unfoldable pub valid_prepared_name : Text → Text → InstallKind → Bool
unfolding transaction_name_parts
valid_prepared_name candidate target_name kind =
    let parts = transaction_name_parts target_name kind (codes "prepared") in
    token_in parts.1 (strip_prefix candidate (parts.0 ++ codes "-"))

abbrev pub name_eq : Option Text → Text → Bool
name_eq o t = holds (λ s. text_eq s t) o

abbrev pub unwrap_or_default : Option Text → Text
unwrap_or_default none = []
unwrap_or_default (some t) = t

module _ (paths : Paths) where
  -- By the parent and the name of the installation.
  abbrev pub shape_for : Option Text → Option Text → InstallKind → TransactionPaths → Bool
  shape_for none name kind transaction = false
  shape_for (some parent) none kind transaction = false
  shape_for (some parent) (some name) kind transaction =
      name_eq (paths.parent transaction.prepared) parent
      && (name_eq (paths.parent transaction.backup) parent
          && (name_eq (paths.file_name transaction.backup)
                (transaction_file_name name kind (codes "backup") none)
              && valid_prepared_name (unwrap_or_default (paths.file_name transaction.prepared)) name
                  kind))

  unfoldable pub validate_transaction_shape : InstallLayout → TransactionPaths → Bool
  unfolding transaction_file_name valid_prepared_name
  validate_transaction_shape layout transaction =
      shape_for (paths.parent layout.replace_path) (paths.file_name layout.replace_path) layout.kind
        transaction

  unfoldable pub rebase_path : Text → Text → Text
  rebase_path root relative = if is_empty relative then root else paths.join root relative

-- `semver::Version::parse(..).is_ok()` is a parameter.
unfoldable pub valid_versioned_executable_name : (Text → Bool) → Text → Bool
valid_versioned_executable_name is_version name =
    elim (strip_prefix name (codes "SSHMountMate-v")) [
      | none ↦ false
      | some rest ↦
          holds
            (λ version.
              is_version version && not (any (λ c. c == b'/' || (c == b'\\' || c == b':')) version))
            (strip_suffix rest (codes ".exe"))
    ]
