-- ===== src/Model/Defaults.antt =====
-- `Settings`: the defaults and the migration of older files.
use ssh_mountmate.Base.{
  ℕ, Bool, true, false, ◌&&◌, ◌||◌, Option, none, some, [], ltb, ◌==◌, if◌then◌else◌, within, all,
}
use ssh_mountmate.Text.{
  Text, codes, text_eq, is_empty, trim, strip_prefix, is_ascii_hexdigit, byte_len,
}
use ssh_mountmate.Model.Types.{
  Settings, fuse, CredentialStorage, AppearanceMode, AccentColor, FontScale,
}

abbrev pub schema_version : ℕ
schema_version = 16

abbrev pub default_upload_transfers : ℕ
default_upload_transfers = 12

abbrev pub default_cache_mode : Text
default_cache_mode = codes "full"

abbrev pub default_cache_age : Text
default_cache_age = codes "30m"

abbrev pub default_write_back : Text
default_write_back = codes "1s"

abbrev pub default_dir_cache_time : Text
default_dir_cache_time = codes "5m"

abbrev pub default_settings : Settings
default_settings = record {
  settings_schema_version = schema_version;
  cache_root = [];
  vfs_cache_mode = default_cache_mode;
  vfs_cache_max_size = [];
  vfs_cache_max_age = default_cache_age;
  vfs_cache_min_free_space = [];
  vfs_write_back = default_write_back;
  dir_cache_time = default_dir_cache_time;
  buffer_size = [];
  vfs_upload_transfers = default_upload_transfers;
  macos_mount_backend = fuse;
  credential_storage = CredentialStorage.obscure;
  startup_all = false;
  auto_show_transfers = true;
  auto_check_updates = true;
  language = codes "auto";
  appearance_mode = AppearanceMode.system;
  accent_color = AccentColor.blue;
  custom_accent_color = none;
  font_scale = FontScale.standard;
}

unfoldable pub apply_recommended_cache_defaults : Bool → Settings → Settings
apply_recommended_cache_defaults clear_limits s = record s {
  vfs_cache_mode = default_cache_mode;
  vfs_cache_max_age = default_cache_age;
  vfs_write_back = default_write_back;
  dir_cache_time = default_dir_cache_time;
  vfs_cache_max_size = if clear_limits then [] else s.vfs_cache_max_size;
  vfs_cache_min_free_space = if clear_limits then [] else s.vfs_cache_min_free_space;
}

-- The first chain of conditions, which chooses among the recommended defaults.
unfoldable pub migrate_cache : ℕ → Settings → Settings
unfolding apply_recommended_cache_defaults
migrate_cache version s =
    if ltb version 2
      && text_eq s.vfs_cache_mode (codes "writes")
      && is_empty s.vfs_cache_max_size
      && is_empty s.vfs_cache_max_age
      && is_empty s.vfs_cache_min_free_space
      && is_empty s.vfs_write_back
      && is_empty s.dir_cache_time
    then apply_recommended_cache_defaults true s
    else if ltb version 3 && text_eq s.vfs_cache_mode (codes "off")
        || ltb version 5 && is_empty s.vfs_cache_mode
    then apply_recommended_cache_defaults false s
    else if ltb version 4
        && text_eq s.vfs_cache_mode (codes "minimal")
        && text_eq s.vfs_cache_max_size (codes "10G")
        && text_eq s.vfs_cache_min_free_space (codes "10G")
        && text_eq s.vfs_write_back (codes "0s")
        && text_eq s.dir_cache_time (codes "30s")
    then apply_recommended_cache_defaults true s
    else if ltb version 6
        && text_eq s.vfs_cache_mode (codes "writes")
        && is_empty s.vfs_cache_max_age
        && is_empty s.vfs_write_back
        && is_empty s.dir_cache_time
    then apply_recommended_cache_defaults false s
    else s

unfoldable pub migrate_zero_delay : ℕ → Settings → Settings
migrate_zero_delay version s =
    if ltb version 9
      && text_eq s.vfs_cache_mode (codes "full")
      && text_eq s.vfs_cache_max_age (codes "30m")
      && text_eq s.vfs_write_back (codes "0s")
      && text_eq s.dir_cache_time (codes "5m")
    then record s { vfs_write_back = default_write_back }
    else s

-- The digits behind `#`: six bytes, all of them hexadecimal digits.
abbrev pub six_hex_digits : Option Text → Bool
six_hex_digits none = false
six_hex_digits (some digits) = byte_len digits == 6 && all is_ascii_hexdigit digits

abbrev pub is_color : Option Text → Bool
is_color none = false
is_color (some color) = six_hex_digits (strip_prefix (trim color) (codes "#"))

unfoldable pub migrate_transfers : ℕ → Settings → Settings
migrate_transfers version s =
    let color = is_color s.custom_accent_color in
    if ltb version 15
    then record s {
      vfs_upload_transfers =
          if s.vfs_upload_transfers == 4 then default_upload_transfers else s.vfs_upload_transfers;
      accent_color = if color then AccentColor.custom else s.accent_color;
    }
    else s

unfoldable pub migrate_write_back : ℕ → Settings → Settings
migrate_write_back version s =
    if ltb version 16 && text_eq s.vfs_write_back (codes "5s")
    then record s { vfs_write_back = default_write_back }
    else s

unfoldable pub finish_migration : Settings → Settings
finish_migration s = record s {
  vfs_upload_transfers =
      if within 1 32 s.vfs_upload_transfers
      then s.vfs_upload_transfers
      else default_upload_transfers;
  settings_schema_version = schema_version;
}

unfoldable pub migrate : Settings → Settings
unfolding migrate_cache migrate_zero_delay migrate_transfers migrate_write_back finish_migration
migrate s =
    let version = s.settings_schema_version in
    finish_migration (
      migrate_write_back version
        (migrate_transfers version (migrate_zero_delay version (migrate_cache version s))))
