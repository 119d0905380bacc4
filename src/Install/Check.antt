-- ===== src/Install/Check.antt =====
-- What is checked before anything is moved.
use ssh_mountmate.Base.{
  Bool, true, false, ◌&&◌, ◌||◌, not, Option, none, some, Result, ok, err, if◌then◌else◌, refuse_if,
  ok_or, ◌>>=◌, ◌>>◌,
}
use ssh_mountmate.Text.{Text, codes, text_eq}
use ssh_mountmate.Dict.{Dict}
use ssh_mountmate.Install.Types.{
  InstallKind, standalone_executable, InstallLayout, kind_eq, layout_eq, is_directory_install,
  DirectoryPayload, TransactionPaths, PreparedPayload, ApplyUpdateError, invalid_transaction,
  installation_changed, invalid_prepared_payload, verification, layout, io,
}
use ssh_mountmate.Install.Names.{Paths, validate_transaction_shape, valid_versioned_executable_name}
use ssh_mountmate.Install.Directory.{Metadata, not_found, unreadable, found, Inspection}

-- `map_err(f)?`
abbrev pub map_err : {D E A : Type 0} → (D → E) → Result D A → Result E A
map_err f (ok a) = ok a
map_err f (err e) = err (f e)

-- The entry is a file, or a directory, and no link.
abbrev pub check_type : Bool → Text → Metadata → Result ApplyUpdateError (Unit {0})
check_type as_directory path not_found = err (io path (codes "entity not found"))
check_type as_directory path (unreadable error) = err (io path error)
check_type as_directory path (found is_file is_dir is_symlink) =
    refuse_if (is_symlink || not (if as_directory then is_dir else is_file))
      (invalid_prepared_payload path)

-- `path_entry_exists`, with the error as a text.
unfoldable pub path_entry_exists : Metadata → Result Text Bool
path_entry_exists not_found = ok false
path_entry_exists (unreadable error) = err error
path_entry_exists (found is_file is_dir is_symlink) = ok true

module _ {N : Type 0} (inspection : Inspection N) where
  abbrev pub located : PreparedPayload → Option DirectoryPayload → Bool
  located prepared none = false
  located prepared (some verified) =
      text_eq verified.root prepared.replace_path && text_eq verified.executable prepared.executable

  unfoldable pub validate_prepared_payload :
      InstallKind → PreparedPayload → Dict N → Result ApplyUpdateError (Unit {0})
  validate_prepared_payload kind prepared entries = do
    check_type (is_directory_install kind) prepared.replace_path
        (inspection.symlink_metadata entries prepared.replace_path)
    check_type false prepared.executable (inspection.symlink_metadata entries prepared.executable)
    actual ← map_err verification (inspection.file_sha256 entries prepared.executable)
    refuse_if (not (text_eq actual prepared.executable_sha256))
        (invalid_prepared_payload prepared.executable)
    tree ← map_err verification (inspection.prepared_tree_sha256 entries prepared.replace_path)
    refuse_if (not (text_eq tree prepared.tree_sha256))
        (invalid_prepared_payload prepared.replace_path)
    refuse_if
        (is_directory_install kind
          && not (
              located prepared (inspection.locate_directory_payload entries prepared.replace_path)))
        (invalid_prepared_payload prepared.replace_path)

-- What the checks have found: the digest of the installed executable, and where the executables lie.
pub record Checked : Type 0 where
  pub current_sha256 : Text
  pub current_relative : Text
  pub executable_relative : Text

module _ {N : Type 0} (inspection : Inspection N) (paths : Paths) (is_version : Text → Bool) where
  -- The destination of the new name is free.
  unfoldable pub check_destination : Text → Dict N → Result ApplyUpdateError (Unit {0})
  unfolding path_entry_exists
  check_destination destination entries = do
    exists ←
        map_err verification (path_entry_exists (inspection.symlink_metadata entries destination))
    refuse_if exists installation_changed

  -- The new name, on Windows, is free or is that of the installation.
  unfoldable pub check_installed_name :
      Bool → InstallLayout → Option Text → Dict N → Result ApplyUpdateError (Unit {0})
  unfolding valid_versioned_executable_name check_destination
  check_installed_name windows installation none entries = ok tt
  check_installed_name windows installation (some name) entries = do
    refuse_if
        (not windows
          || (not (kind_eq installation.kind standalone_executable)
              || not (valid_versioned_executable_name is_version name)))
        invalid_transaction
    let destination = paths.with_file_name installation.replace_path name
    if text_eq destination installation.replace_path
        then ok tt
        else check_destination destination entries

  unfoldable pub check_update :
      Bool
      → InstallLayout
      → PreparedPayload
      → TransactionPaths
      → Dict N
      → Result ApplyUpdateError Checked
  unfolding validate_transaction_shape validate_prepared_payload check_installed_name
  check_update windows installation prepared transaction entries = do
    refuse_if (not (validate_transaction_shape paths installation transaction)) invalid_transaction
    refuse_if
        (not (text_eq prepared.replace_path transaction.prepared)
          || not (paths.starts_with prepared.executable prepared.replace_path))
        invalid_transaction
    check_installed_name windows installation prepared.installed_name entries
    validate_prepared_payload inspection installation.kind prepared entries
    current ← map_err layout (inspection.detect_install_layout entries installation.executable)
    refuse_if (not (layout_eq current installation)) installation_changed
    current_sha256 ← map_err verification (inspection.file_sha256 entries installation.executable)
    current_relative ←
        ok_or (paths.path_strip_prefix installation.executable installation.replace_path)
          invalid_transaction
    executable_relative ←
        ok_or (paths.path_strip_prefix prepared.executable prepared.replace_path)
          invalid_transaction
    ok (record {
      current_sha256 = current_sha256;
      current_relative = current_relative;
      executable_relative = executable_relative;
    })
