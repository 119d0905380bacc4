-- ===== src/Model/Historic.antt =====
-- The settings that older versions wrote, as a table, and what `Settings::migrate` is to make of
-- them, field by field.
use ssh_mountmate.Base.{
  ℕ, Bool, true, false, not, ◌&&◌, ◌||◌, Option, none, some, List, [], ◌∷◌, ltb, ◌==◌,
  if◌then◌else◌, within,
}
use ssh_mountmate.Text.{Text, codes, text_eq}
use ssh_mountmate.Model.{Settings, AccentColor, is_color}

-- Cache settings that the versions of the schema below a number had of their own. A field without
-- a value may be anything. The limits of some of them are not kept.
pub record Historic : Type 0 where
  pub below : ℕ
  pub mode : Text
  pub max_size : Option Text
  pub max_age : Option Text
  pub min_free_space : Option Text
  pub write_back : Option Text
  pub dir_cache_time : Option Text
  pub clears_limits : Bool

-- Writes only, and nothing else that is set.
abbrev pub writes_alone : Historic
writes_alone = record {
  below = 2;
  mode = codes "writes";
  max_size = some [];
  max_age = some [];
  min_free_space = some [];
  write_back = some [];
  dir_cache_time = some [];
  clears_limits = true;
}

-- No cache at all.
abbrev pub without_cache : Historic
without_cache = record {
  below = 3;
  mode = codes "off";
  max_size = none;
  max_age = none;
  min_free_space = none;
  write_back = none;
  dir_cache_time = none;
  clears_limits = false;
}

-- No mode that is set.
abbrev pub without_mode : Historic
without_mode = record {
  below = 5;
  mode = [];
  max_size = none;
  max_age = none;
  min_free_space = none;
  write_back = none;
  dir_cache_time = none;
  clears_limits = false;
}

-- The least cache, of ten gigabytes.
abbrev pub small_cache : Historic
small_cache = record {
  below = 4;
  mode = codes "minimal";
  max_size = some (codes "10G");
  max_age = none;
  min_free_space = some (codes "10G");
  write_back = some (codes "0s");
  dir_cache_time = some (codes "30s");
  clears_limits = true;
}

-- Writes only, and no times that are set.
abbrev pub writes_without_times : Historic
writes_without_times = record {
  below = 6;
  mode = codes "writes";
  max_size = none;
  max_age = some [];
  min_free_space = none;
  write_back = some [];
  dir_cache_time = some [];
  clears_limits = false;
}

abbrev pub historic : List Historic
historic = writes_alone ∷ without_cache ∷ without_mode ∷ small_cache ∷ writes_without_times ∷ []

abbrev pub agrees : Option Text → Text → Bool
agrees none value = true
agrees (some wanted) value = text_eq value wanted

abbrev pub is_of : Settings → Historic → Bool
is_of s rule =
    ltb s.settings_schema_version rule.below
    && text_eq s.vfs_cache_mode rule.mode
    && agrees rule.max_size s.vfs_cache_max_size
    && agrees rule.max_age s.vfs_cache_max_age
    && agrees rule.min_free_space s.vfs_cache_min_free_space
    && agrees rule.write_back s.vfs_write_back
    && agrees rule.dir_cache_time s.dir_cache_time

abbrev pub first_of : Settings → List Historic → Option Historic
first_of s [] = none
first_of s (rule ∷ rules) = if is_of s rule then some rule else first_of s rules

-- A value, or another one where a rule applies.
abbrev pub reset : Option Historic → Text → Text → Text
reset none new old = old
reset (some rule) new old = new

abbrev pub cleared : Option Historic → Text → Text
cleared none old = old
cleared (some rule) old = if rule.clears_limits then [] else old

-- The delays before a file is written back that versions below 9 and below 16 had.
abbrev pub has_old_delay : Settings → Bool
has_old_delay s =
    (ltb s.settings_schema_version 9
      && text_eq s.vfs_cache_mode (codes "full")
      && text_eq s.vfs_cache_max_age (codes "30m")
      && text_eq s.vfs_write_back (codes "0s")
      && text_eq s.dir_cache_time (codes "5m"))
    || (ltb s.settings_schema_version 16 && text_eq s.vfs_write_back (codes "5s"))

abbrev pub upload_transfers : Settings → ℕ
upload_transfers s =
    if not (within 1 32 s.vfs_upload_transfers)
      || (ltb s.settings_schema_version 15 && s.vfs_upload_transfers == 4)
    then 12
    else s.vfs_upload_transfers

-- The settings under the rule that applies to them, if one does.
abbrev pub migrated_by : Option Historic → Settings → Settings
migrated_by rule s = record s {
  settings_schema_version = 16;
  vfs_cache_mode = reset rule (codes "full") s.vfs_cache_mode;
  vfs_cache_max_size = cleared rule s.vfs_cache_max_size;
  vfs_cache_max_age = reset rule (codes "30m") s.vfs_cache_max_age;
  vfs_cache_min_free_space = cleared rule s.vfs_cache_min_free_space;
  vfs_write_back =
      reset rule (codes "1s") (if has_old_delay s then codes "1s" else s.vfs_write_back);
  dir_cache_time = reset rule (codes "5m") s.dir_cache_time;
  vfs_upload_transfers = upload_transfers s;
  accent_color =
      if ltb s.settings_schema_version 15 && is_color s.custom_accent_color
      then AccentColor.custom
      else s.accent_color;
}

abbrev pub migrated : Settings → Settings
migrated s = migrated_by (first_of s historic) s
