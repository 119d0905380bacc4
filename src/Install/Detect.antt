-- ===== src/Install/Detect.antt =====
-- update_install.rs: which layout an installation has, by its running executable.
use ssh_mountmate.Base.{
  ℕ, Bool, true, false, ◌&&◌, ◌||◌, not, Option, none, some, List, [], ◌∷◌, ◌++◌, Result, ok, err,
  any, length, ◌==◌, refuse_if, if◌then◌else◌, ◌>>=◌, ◌>>◌,
}
use ssh_mountmate.Text.{Text, codes, text_eq}
use ssh_mountmate.Install.{
  Paths, Metadata, not_found, unreadable, found, InstallLayout, standalone_executable,
  directory_bundle, mac_application_bundle, holds, name_eq, map_err,
}

-- An `io::Error` is its text.
pub data InstallLayoutError : Type 0 where
  inspect : Text → Text → InstallLayoutError
  symlink_executable not_executable_file temporary_windows_location : Text → InstallLayoutError
  malformed_mac_application invalid_directory_bundle_marker : Text → InstallLayoutError
  incomplete_directory_bundle : Text → InstallLayoutError
  corrupt_directory_bundle : Text → Text → InstallLayoutError

pub data DirectoryBundleStatus : Type 0 where
  not_bundle complete : DirectoryBundleStatus

-- What the files and the paths give: `verify_bundled` is that of the embedded rclone.
pub record Probe : Type 0 where
  pub symlink_metadata : Text → Metadata
  pub metadata_len : Text → ℕ
  pub read : Text → Option Text
  pub canonicalize : Text → Result Text Text
  pub verify_bundled : Text → Result Text (Unit {0})
  pub components : Text → List Text
  pub ancestors : Text → List Text
  pub extension : Text → Option Text
  pub to_lowercase : Text → Text

abbrev pub directory_bundle_marker_name : Text
directory_bundle_marker_name = codes "SSHMountMate.install-layout"

abbrev pub directory_bundle_marker : Text
directory_bundle_marker = codes "ssh-mountmate-directory-bundle-v1" ++ (10 ∷ [])

module _ (probe : Probe) (paths : Paths) where
  abbrev pub component_eq : Bool → Text → Text → Bool
  component_eq case_insensitive actual expected =
      if case_insensitive
      then text_eq (probe.to_lowercase actual) (probe.to_lowercase expected)
      else text_eq actual expected

  unfoldable pub components_start_with : Bool → List Text → List Text → Bool
  components_start_with case_insensitive path [] = true
  components_start_with case_insensitive [] (expected ∷ directory) = false
  components_start_with case_insensitive (actual ∷ path) (expected ∷ directory) =
      component_eq case_insensitive actual expected
      && components_start_with case_insensitive path directory

  abbrev pub within : Text → Bool → Result Text Text → Bool
  within path case_insensitive (err source) = false
  within path case_insensitive (ok directory) =
      components_start_with case_insensitive (probe.components path) (probe.components directory)

  unfoldable pub path_is_within : Text → Text → Bool → Bool
  unfolding components_start_with
  path_is_within path directory case_insensitive =
      within path case_insensitive (probe.canonicalize directory)

  abbrev pub is_regular : Metadata → Bool
  is_regular not_found = false
  is_regular (unreadable source) = false
  is_regular (found is_file is_dir is_symlink) = is_file && not is_symlink

  -- The parent of a path, if that path has the name.
  abbrev pub above : Text → Option Text → Option Text
  above name none = none
  above name (some path) = if name_eq (paths.file_name path) name then paths.parent path else none

  abbrev pub as_application : Option Text → Option Text
  as_application none = none
  as_application (some application) =
      if name_eq (probe.extension application) (codes "app") then some application else none

  unfoldable pub mac_application_root : Text → Option Text
  unfolding text_eq
  mac_application_root executable =
      as_application (above (codes "Contents") (above (codes "MacOS") (paths.parent executable)))

  abbrev pub bundle_binary : Text → Text
  bundle_binary os = if text_eq os (codes "windows") then codes "rclone.exe" else codes "rclone"

  unfoldable pub directory_bundle_status :
      Text → Text → Metadata → Result InstallLayoutError DirectoryBundleStatus
  directory_bundle_status root os not_found = ok not_bundle
  directory_bundle_status root os (unreadable source) =
      err (inspect (paths.join root directory_bundle_marker_name) source)
  directory_bundle_status root os (found is_file is_dir is_symlink) = do
    let marker = paths.join root directory_bundle_marker_name
    refuse_if
        (not is_file
          || (is_symlink
              || (not (probe.metadata_len marker == length directory_bundle_marker)
                  || not (
                      holds (λ contents. text_eq contents directory_bundle_marker)
                        (probe.read marker)))))
        (invalid_directory_bundle_marker marker)
    let rclone = paths.join (paths.join root (codes "bin")) (bundle_binary os)
    let digest = paths.with_file_name rclone (bundle_binary os ++ codes ".sha256")
    refuse_if
        (not (is_regular (probe.symlink_metadata rclone))
          || not (is_regular (probe.symlink_metadata digest)))
        (incomplete_directory_bundle root)
    map_err (corrupt_directory_bundle rclone) (probe.verify_bundled rclone)
    ok complete

  abbrev pub parent_or_dot : Option Text → Text
  parent_or_dot none = codes "."
  parent_or_dot (some parent) = parent

  abbrev pub of_status : Text → Text → DirectoryBundleStatus → InstallLayout
  of_status executable parent complete = record {
    kind = directory_bundle;
    executable = executable;
    replace_path = parent;
  }
  of_status executable parent not_bundle = record {
    kind = standalone_executable;
    executable = executable;
    replace_path = executable;
  }

  -- Where the executable is in no application of macOS.
  abbrev pub in_directory : Text → Text → Result InstallLayoutError InstallLayout
  in_directory executable os = do
    let parent = parent_or_dot (paths.parent executable)
    status ←
        directory_bundle_status parent os
          (probe.symlink_metadata (paths.join parent directory_bundle_marker_name))
    ok (of_status executable parent status)

  abbrev pub on_mac : Text → Text → Option Text → Result InstallLayoutError InstallLayout
  on_mac executable os (some application) = ok (record {
    kind = mac_application_bundle;
    executable = executable;
    replace_path = application;
  })
  on_mac executable os none =
      if any (λ path. name_eq (probe.extension path) (codes "app")) (probe.ancestors executable)
      then err (malformed_mac_application executable)
      else in_directory executable os

  -- By the canonical path of the executable.
  unfoldable pub layout_of : Text → Text → Text → Result InstallLayoutError InstallLayout
  unfolding path_is_within mac_application_root directory_bundle_status
  layout_of os temporary_directory executable =
      if text_eq os (codes "windows") && path_is_within executable temporary_directory true
      then err (temporary_windows_location executable)
      else if text_eq os (codes "macos")
      then on_mac executable os (mac_application_root executable)
      else in_directory executable os

  abbrev pub check_executable : Text → Metadata → Result InstallLayoutError (Unit {0})
  check_executable executable not_found = err (inspect executable (codes "entity not found"))
  check_executable executable (unreadable source) = err (inspect executable source)
  check_executable executable (found is_file is_dir is_symlink) = do
    refuse_if is_symlink (symlink_executable executable)
    refuse_if (not is_file) (not_executable_file executable)

  unfoldable pub detect_install_layout :
      Text → Text → Text → Result InstallLayoutError InstallLayout
  unfolding layout_of
  detect_install_layout os temporary_directory executable = do
    check_executable executable (probe.symlink_metadata executable)
    canonical ← map_err (inspect executable) (probe.canonicalize executable)
    layout_of os temporary_directory canonical
