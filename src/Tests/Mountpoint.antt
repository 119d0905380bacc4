-- ===== src/Tests/Mountpoint.antt =====
-- Runs of the mountpoint allocator, on a Unix machine with nothing mounted.
use ssh_mountmate.Base.{◌≡◌, ◌↔◌, refl, true, false, some, [], ◌∷◌, ◌++◌, map, All, ok}
use ssh_mountmate.Text.{
  Text, codes, text_eq, trim, trim_by, trim_start_by, trim_end_by, is_whitespace,
  is_ascii_alphanumeric, is_ascii_alphabetic, ascii_upper, len_utf8, eq_ignore_ascii_case,
  to_ascii_lowercase, ascii_lower, starts_with,
}
use ssh_mountmate.Dict.{mem}
use ssh_mountmate.Model.{ServerConfig, default_server}
use ssh_mountmate.Model.Tags.{distinct}
use ssh_mountmate.Mountpoint.{
  MountpointAllocator, MountpointProbe, WindowsVolumeKind, new_allocator, resolve, reserve,
  is_reserved, search_folder, path_key, choose_path, take_custom, validate_custom,
  validate_custom_path, check_target, path_is_absolute, expand_home, drive_is_occupied,
  windows_drive, windows_parent, before_separator,
}
use ssh_mountmate.Mountpoint.Reserved.{done, granted, resolve-reserves, Resolves-distinct}
use ssh_mountmate.Mountpoint.Folders.{
  IsFirst, is_acceptable, search_folder-IsFirst, validate_custom_path_lem,
}

abbrev nothing_there : MountpointProbe
nothing_there = record {
  windows_drive_occupancy = ok 0;
  path_exists = λ p. false;
  path_is_dir = λ p. false;
  path_is_mount = λ p. false;
  windows_volume_kind = λ p. WindowsVolumeKind.missing;
}

abbrev empty_allocator : MountpointAllocator
empty_allocator = new_allocator (codes "/home/me") false nothing_there

-- `Path::join` for a child that is relative.
abbrev join_unix : Text → Text → Text
join_unix parent child = parent ++ (codes "/" ++ child)

abbrev server : ServerConfig
server = record default_server { mountpoint = codes " ~/data " }

abbrev data_path : Text
data_path = codes "/home/me/data"

resolve_custom :
    resolve join_unix is_ascii_alphanumeric empty_allocator server
    ≡ ok (data_path, reserve data_path empty_allocator)
unfolding resolve choose_path trim trim_by trim_start_by trim_end_by is_whitespace
    eq_ignore_ascii_case to_ascii_lowercase ascii_lower text_eq take_custom validate_custom
    validate_custom_path check_target expand_home starts_with path_is_absolute is_reserved mem
resolve_custom = refl

resolve-reserves_example :
    (is_reserved empty_allocator data_path ≡ false)
    × (is_reserved (reserve data_path empty_allocator) data_path ≡ true)
    × (reserve data_path empty_allocator ≡ reserve data_path empty_allocator)
resolve-reserves_example =
    resolve-reserves join_unix is_ascii_alphanumeric empty_allocator
      (reserve data_path empty_allocator) server data_path resolve_custom

Resolves-distinct_example :
    (distinct (map (λ path. path_key path false) (data_path ∷ [])) ≡ true)
    × All (λ path. is_reserved empty_allocator path ≡ false) (data_path ∷ [])
Resolves-distinct_example =
    Resolves-distinct join_unix is_ascii_alphanumeric empty_allocator
      (reserve data_path empty_allocator) (data_path ∷ [])
      (granted server data_path resolve_custom done)

search_folder-IsFirst_example :
    IsFirst join_unix is_ascii_alphanumeric empty_allocator
      (codes "/home/me/mnt")
      (codes "web")
      1
      2
      (search_folder join_unix is_ascii_alphanumeric empty_allocator
        (codes "/home/me/mnt")
        (codes "web")
        2
        1)
search_folder-IsFirst_example =
    search_folder-IsFirst join_unix is_ascii_alphanumeric empty_allocator (codes "/home/me/mnt")
      (codes "web") 2 1

validate_custom_path_lem_example :
    (validate_custom_path data_path false nothing_there (λ p. false) ≡ ok tt)
    ↔ (is_acceptable data_path false nothing_there (λ p. false) ≡ true)
validate_custom_path_lem_example =
    validate_custom_path_lem data_path false nothing_there (λ p. false)

-- A drive with its root, a bare letter, and bit 3 of the mask, which is drive D.
drive_z : windows_drive (codes "z:\\") ≡ some b'Z'
unfolding windows_drive is_ascii_alphabetic ascii_upper
drive_z = refl

child_of_root : windows_parent (codes "C:\\mnt") ≡ codes "C:\\"
unfolding windows_parent before_separator len_utf8
child_of_root = refl

drive_d : drive_is_occupied 8 b'd' ≡ true
unfolding drive_is_occupied
drive_d = refl
