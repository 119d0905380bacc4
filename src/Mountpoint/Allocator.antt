-- ===== src/Mountpoint/Allocator.antt =====
-- `MountpointAllocator`: it hands out mountpoints and remembers which it has handed out.
use ssh_mountmate.Base.{
  ℕ, zero, suc, ◌+◌, Bool, not, ◌&&◌, ◌||◌, Option, none, some, List, [], ◌∷◌, ◌++◌, ◌==◌,
  if◌then◌else◌, find, Result, ok, err, ok_or, refuse_if, ◌>>=◌, ◌>>◌,
}
use ssh_mountmate.Text.{Text, codes, text_eq, is_empty, trim, eq_ignore_ascii_case}
use ssh_mountmate.Text.Decimal.{decimal}
use ssh_mountmate.Dict.{mem}
use ssh_mountmate.Model.{ServerConfig, display_name}
use ssh_mountmate.Mountpoint.Paths.{
  windows_auto_drives, home_mountpoint_value, drive_is_occupied, windows_drive, drive_path,
  path_key, expand_home, stable_folder_name,
}
use ssh_mountmate.Mountpoint.Custom.{MountpointError, MountpointProbe, validate_custom_path}

pub record MountpointAllocator : Type 0 where
  pub home : Text
  pub windows : Bool
  pub probe : MountpointProbe
  pub reserved : List Text

abbrev pub new_allocator : Text → Bool → MountpointProbe → MountpointAllocator
new_allocator h w p = record { home = h; windows = w; probe = p; reserved = [] }

unfoldable pub reserve : Text → MountpointAllocator → MountpointAllocator
reserve path a = record a { reserved = path_key path a.windows ∷ a.reserved }

unfoldable pub is_reserved : MountpointAllocator → Text → Bool
is_reserved a path = mem (path_key path a.windows) a.reserved

-- The first drive that is free, by the mask of occupied drives.
unfoldable pub free_drive : MountpointAllocator → ℕ → Option ℕ
free_drive a occupied =
    find (λ drive. not (drive_is_occupied occupied drive) && not (is_reserved a (drive_path drive)))
      windows_auto_drives

unfoldable pub allocate_windows_drive : MountpointAllocator → Result MountpointError Text
unfolding free_drive
allocate_windows_drive a = do
  occupied ← a.probe.windows_drive_occupancy
  drive ← ok_or (free_drive a occupied) MountpointError.no_free_drive
  ok (drive_path drive)

-- The two tests under which the loop goes on with the next candidate.
unfoldable pub is_taken : MountpointAllocator → Text → Bool
is_taken a candidate =
    is_reserved a candidate
    || a.windows && a.probe.path_exists candidate
    || a.probe.path_is_mount candidate
    || not a.windows && a.probe.path_exists candidate && not (a.probe.path_is_dir candidate)

-- The candidates of the loop over `1..1000`.
unfoldable pub folder_candidates : ℕ
folder_candidates = 999

-- The end of `resolve`: the path is reserved and returned.
abbrev pub grant : MountpointAllocator → Text → Result MountpointError (Text × MountpointAllocator)
grant a path = ok (path, reserve path a)

module _ (join : Text → Text → Text) (is_alphanumeric : ℕ → Bool) where
  -- The name of the candidate with this index, which counts from 1.
  unfoldable pub candidate_name : Text → ℕ → Text
  candidate_name root index = if index == 1 then root else root ++ (codes "-" ++ decimal index)

  -- `steps` candidates, from this index on.
  unfoldable pub search_folder : MountpointAllocator → Text → Text → ℕ → ℕ → Option Text
  unfolding candidate_name
  search_folder a parent root zero index = none
  search_folder a parent root (suc steps) index =
      let rest = search_folder a parent root steps (index + 1) in
      let candidate = join parent (candidate_name root index) in
      if is_taken a candidate then rest else some candidate

  unfoldable pub allocate_home_folder :
      MountpointAllocator → ServerConfig → Result MountpointError Text
  unfolding search_folder
  allocate_home_folder a server =
      let root = stable_folder_name is_alphanumeric (display_name server) in
      let parent = join a.home (codes "mnt") in
      ok_or (search_folder a parent root folder_candidates 1)
        (MountpointError.no_unique_folder parent)

  unfoldable pub validate_custom : MountpointAllocator → Text → Result MountpointError Unit
  validate_custom a path = validate_custom_path path a.windows a.probe (is_reserved a)

  -- A configured drive.
  unfoldable pub take_drive : MountpointAllocator → ℕ → Result MountpointError Text
  take_drive a drive =
      let path = drive_path drive in
      if is_reserved a path then err (MountpointError.drive_in_use path) else do
        occupied ← a.probe.windows_drive_occupancy
        refuse_if (drive_is_occupied occupied drive) (MountpointError.drive_in_use path)
        ok path

  unfoldable pub take_custom : MountpointAllocator → Text → Result MountpointError Text
  unfolding validate_custom
  take_custom a configured =
      let path = expand_home join configured a.home in do validate_custom a path; ok path

  -- A configured drive on Windows, any other path elsewhere.
  abbrev pub take_configured : MountpointAllocator → Text → Option ℕ → Result MountpointError Text
  take_configured a configured (some drive) = take_drive a drive
  take_configured a configured none = take_custom a configured

  -- The path that `resolve` chooses.
  unfoldable pub choose_path : MountpointAllocator → ServerConfig → Result MountpointError Text
  unfolding allocate_windows_drive allocate_home_folder take_drive take_custom
  choose_path a server =
      let configured = trim server.mountpoint in
      if is_empty configured || eq_ignore_ascii_case configured (codes "auto")
      then (if a.windows then allocate_windows_drive a else allocate_home_folder a server)
      else if text_eq configured home_mountpoint_value
      then allocate_home_folder a server
      else take_configured a configured (if a.windows then windows_drive configured else none)

  unfoldable pub resolve :
      MountpointAllocator → ServerConfig → Result MountpointError (Text × MountpointAllocator)
  unfolding choose_path reserve
  resolve a server = do path ← choose_path a server; grant a path
