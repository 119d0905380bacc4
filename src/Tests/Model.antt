-- ===== src/Tests/Model.antt =====
-- Runs of the connections, tags, ports, identifiers and settings.
use ssh_mountmate.Base.{◌≡◌, refl, none, some, List, [], ◌∷◌}
use ssh_mountmate.Text.{
  text_eq, Text, codes, trim, trim_by, trim_start_by, trim_end_by, is_whitespace, is_digit,
}
use ssh_mountmate.Text.Decimal.{parse_uint, parse_digits, scan_digits, decimal, emit_digits}
use ssh_mountmate.Model.{
  ServerConfig, MountMapping, Settings, default_server, default_settings, normalize_port, migrate,
}
use ssh_mountmate.Model.Migration.{migrate_lem}

abbrev typed : List Text
typed = codes " work " ∷ codes "work" ∷ codes " " ∷ []

-- Leading zeros fall.
port_0022 : normalize_port (codes " 0022 ") ≡ some (codes "22")
unfolding normalize_port trim trim_by trim_start_by trim_end_by is_whitespace parse_uint
    parse_digits scan_digits is_digit decimal emit_digits
port_0022 = refl

port_zero : normalize_port (codes "0") ≡ none
unfolding normalize_port trim trim_by trim_start_by trim_end_by is_whitespace parse_uint
    parse_digits scan_digits is_digit
port_zero = refl

abbrev data_mount : MountMapping
data_mount = record { id = codes "1"; remote_path = codes "/data"; mountpoint = codes "auto" }

abbrev work : ServerConfig
work = record default_server { id = codes "work"; mounts = data_mount ∷ [] }

-- What the first version wrote.
abbrev old_settings : Settings
old_settings = record default_settings {
  settings_schema_version = 1;
  vfs_cache_mode = codes "writes";
  vfs_cache_max_age = [];
  vfs_write_back = [];
  dir_cache_time = [];
  vfs_upload_transfers = 64;
}

migrate_lem_example : migrate old_settings ≡ default_settings
unfolding text_eq
migrate_lem_example = migrate_lem old_settings

-- Settings of the first version that someone changed.
abbrev chosen_settings : Settings
chosen_settings = record old_settings {
  vfs_write_back = codes "5s";
  vfs_cache_max_size = codes "1G";
}

migrate_chosen : migrate chosen_settings ≡ record chosen_settings {
  settings_schema_version = 16;
  vfs_write_back = codes "1s";
  vfs_upload_transfers = 12;
}
unfolding text_eq migrate
migrate_chosen = refl
