-- ===== src/Mountpoint/Custom.antt =====
-- The validation of a configured mountpoint: `validate_custom_path`.
use ssh_mountmate.Base.{ℕ, Bool, true, false, not, ◌&&◌, Result, ok, err, refuse_if, ◌>>◌}
use ssh_mountmate.Text.{Text}
use ssh_mountmate.Mountpoint.Paths.{path_is_absolute, is_windows_unc, windows_parent}

pub data WindowsVolumeKind : Type 0 where
  fixed mounted reparse non_ntfs remote removable cd_rom ram_disk unknown no_root missing :
      WindowsVolumeKind

pub data MountpointError : Type 0 where
  no_free_drive : MountpointError
  drive_in_use : Text → MountpointError
  windows_drive_query : Text → ℕ → MountpointError
  windows_drive_snapshot : Text → MountpointError
  preparation : Text → MountpointError
  not_absolute : Text → MountpointError
  parent_missing : Text → MountpointError
  windows_target_exists : Text → MountpointError
  windows_unc_path : Text → MountpointError
  windows_volume_missing : Text → MountpointError
  windows_volume_unsupported : Text → WindowsVolumeKind → MountpointError
  not_directory : Text → MountpointError
  already_reserved : Text → MountpointError
  no_unique_folder : Text → MountpointError

-- What the host answers while one mountpoint is chosen.
pub record MountpointProbe : Type 0 where
  pub windows_drive_occupancy : Result MountpointError ℕ
  pub path_exists : Text → Bool
  pub path_is_dir : Text → Bool
  pub path_is_mount : Text → Bool
  pub windows_volume_kind : Text → WindowsVolumeKind

abbrev pub require_fixed : Text → WindowsVolumeKind → Result MountpointError Unit
require_fixed parent WindowsVolumeKind.fixed = ok tt
require_fixed parent WindowsVolumeKind.missing = err (MountpointError.windows_volume_missing parent)
require_fixed parent kind = err (MountpointError.windows_volume_unsupported parent kind)

-- The last part, on Windows and elsewhere.
unfoldable pub check_target : Text → Bool → MountpointProbe → Result MountpointError Unit
check_target path true probe =
    let parent = windows_parent path in
    do
      refuse_if (not (probe.path_exists parent)) (MountpointError.parent_missing parent)
      require_fixed parent (probe.windows_volume_kind parent)
check_target path false probe =
    refuse_if (probe.path_exists path && not (probe.path_is_dir path))
      (MountpointError.not_directory path)

unfoldable pub validate_custom_path :
    Text → Bool → MountpointProbe → (Text → Bool) → Result MountpointError Unit
unfolding check_target
validate_custom_path path windows probe is_reserved = do
  refuse_if (not (path_is_absolute path windows)) (MountpointError.not_absolute path)
  refuse_if (windows && is_windows_unc path) (MountpointError.windows_unc_path path)
  refuse_if (is_reserved path) (MountpointError.already_reserved path)
  refuse_if (windows && probe.path_exists path) (MountpointError.windows_target_exists path)
  refuse_if (probe.path_is_mount path) (MountpointError.already_reserved path)
  check_target path windows probe
