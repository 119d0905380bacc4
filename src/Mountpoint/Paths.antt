-- ===== src/Mountpoint/Paths.antt =====
-- Paths as texts: `windows_drive`, `windows_parent`, `path_is_absolute`, `path_key` and the like.
use ssh_mountmate.Base.{
  ℕ, ◌+◌, ◌-◌, ◌/◌, ◌%◌, ◌^◌, Bool, true, false, not, ◌&&◌, ◌||◌, Option, none, some, List, [], ◌∷◌,
  keep_if, ◌==◌, if◌then◌else◌, take, drop, length,
}
use ssh_mountmate.Text.{
  Text, codes, text_eq, is_empty, is_ascii_alphabetic, ascii_upper, starts_with, trim, trim_by,
  trim_end_by, map_text, to_ascii_lowercase, byte_len,
}

abbrev pub windows_auto_drives : List ℕ
windows_auto_drives = codes "ZYXWVUTSRQPONMLKJIHGFED"

abbrev pub home_mountpoint_value : Text
home_mountpoint_value = codes "__home_mnt__"

-- The bit of the mask that the letter has, counted from `A`.
unfoldable pub drive_is_occupied : ℕ → ℕ → Bool
unfolding ascii_upper
drive_is_occupied mask drive = mask / 2 ^ (ascii_upper drive - b'A') % 2 == 1

unfoldable pub drive_letters_from_mask : ℕ → List ℕ
drive_letters_from_mask mask =
    keep_if (λ drive. not (drive_is_occupied mask drive)) windows_auto_drives

-- `\` or `/`
abbrev pub is_separator : ℕ → Bool
is_separator c = c == b'\\' || c == b'/'

abbrev pub drive_letter : ℕ → Option ℕ
drive_letter c = if is_ascii_alphabetic c then some (ascii_upper c) else none

unfoldable pub windows_drive : Text → Option ℕ
windows_drive (c ∷ d ∷ []) = if d == b':' then drive_letter c else none
windows_drive (c ∷ d ∷ e ∷ []) = if d == b':' && is_separator e then drive_letter c else none
windows_drive _ = none

-- The path of a drive: `format!("{drive}:")`.
abbrev pub drive_path : ℕ → Text
drive_path drive = drive ∷ b':' ∷ []

-- What stands before the last separator, where there is one.
unfoldable pub before_separator : Text → Option Text
before_separator [] = none
before_separator (c ∷ s) = before (is_separator c) c (before_separator s)
  where
    before : Bool → ℕ → Option Text → Option Text
    before b c (some t) = some (c ∷ t)
    before true c none = some []
    before false c none = none

-- A root keeps its separator: `C:\child` lies in `C:\`.
abbrev pub keep_root : Text → Option Text → Text
keep_root path (some t) = if byte_len t == 2 then take (length t + 1) path else t
keep_root path none = []

-- A path with no separator has no parent here; `validate_custom_path` has refused it before.
unfoldable pub windows_parent : Text → Text
unfolding before_separator byte_len
windows_parent path = keep_root path (before_separator path)

unfoldable pub is_windows_unc : Text → Bool
is_windows_unc path = starts_with path (codes "\\\\") || starts_with path (codes "//")

-- A letter, a colon and a separator.
abbrev pub has_drive_root : Text → Bool
has_drive_root (c ∷ d ∷ e ∷ s) = is_ascii_alphabetic c && d == b':' && is_separator e
has_drive_root _ = false

unfoldable pub path_is_absolute : Text → Bool → Bool
path_is_absolute path windows =
    if not windows
    then starts_with path (codes "/")
    else has_drive_root path || starts_with path (codes "\\\\") || starts_with path (codes "//")

module _ (join : Text → Text → Text) where
  unfoldable pub expand_home : Text → Text → Text
  expand_home path home =
      if text_eq path (codes "~")
      then home
      else if starts_with path (codes "~/") || starts_with path (codes "~\\")
      then join home (drop 2 path)
      else path

-- Characters of a folder name that are not alphanumeric, and that do not stand at its ends.
abbrev pub is_punctuation : ℕ → Bool
is_punctuation c = c == b'.' || c == b'_' || c == b'-'

module _ (is_alphanumeric : ℕ → Bool) where
  unfoldable pub stable_folder_name : Text → Text
  stable_folder_name value =
      let name =
        trim_by is_punctuation (
          map_text (λ c. if is_alphanumeric c || is_punctuation c then c else b'_') (trim value)) in
      if is_empty name then codes "Server" else name

-- Paths that differ in separators, in a final separator and, on Windows, in case are the same.
unfoldable pub path_key : Text → Bool → Text
path_key path windows =
    let value =
      trim_end_by (λ c. c == b'/') (map_text (λ c. if c == b'\\' then b'/' else c) path) in
    if windows then to_ascii_lowercase value else value
