-- ===== src/Install/Directory.antt =====
-- The directory that an update works in: its entries, each with all that is below it.
use ssh_mountmate.Base.{Bool, Option, none, some, List, [], ◌∷◌, Result, ok, err}
use ssh_mountmate.Text.{Text, codes}
use ssh_mountmate.Dict.{Dict, lookup, insert, remove}
use ssh_mountmate.Install.Types.{InstallLayout, DirectoryPayload}
use ssh_mountmate.Action.{Action}

-- The entries; for each coming change whether the system refuses it, and how; and the entries after
-- each change so far, the last one first.
pub record Disk (N : Type 0) : Type 0 where
  pub entries : Dict N
  pub refusals : List (Option Text)
  pub history : List (Dict N)

pub data Metadata : Type 0 where
  not_found : Metadata
  unreadable : Text → Metadata
  found : (is_file is_dir is_symlink : Bool) → Metadata

-- What is read from the entries: `symlink_metadata`, the digest of a file and of a tree, the bundle
-- in a directory, and the layout of the installation that an executable belongs to.
pub record Inspection (N : Type 0) : Type 0 where
  pub symlink_metadata : Dict N → Text → Metadata
  pub file_sha256 : Dict N → Text → Result Text Text
  pub prepared_tree_sha256 : Dict N → Text → Result Text Text
  pub locate_directory_payload : Dict N → Text → Option DirectoryPayload
  pub detect_install_layout : Dict N → Text → Result Text InstallLayout

module _ {N : Type 0} where
  abbrev pub changed : Dict N → Disk N → Disk N
  changed entries disk = record disk { entries = entries; history = entries ∷ disk.history }

  -- The move, by the entry at the source and the one at the destination.
  abbrev pub move_entry : Text → Text → Option N → Option N → Action Text (Disk N) (Unit {0})
  move_entry source destination none there disk = (err (codes "entity not found"), disk)
  move_entry source destination (some n) (some m) disk = (err (codes "entity already exists"), disk)
  move_entry source destination (some n) none disk =
      (ok tt, changed (insert destination n (remove source disk.entries)) disk)

  abbrev pub rename_unless : List (Option Text) → Text → Text → Action Text (Disk N) (Unit {0})
  rename_unless [] source destination disk =
      move_entry source destination (lookup source disk.entries) (lookup destination disk.entries)
        disk
  rename_unless (some error ∷ rest) source destination disk =
      (err error, record disk { refusals = rest })
  rename_unless (none ∷ rest) source destination disk =
      move_entry source destination (lookup source disk.entries) (lookup destination disk.entries)
        (record disk { refusals = rest })

  -- `renameat_with(.., NOREPLACE)` and `MoveFileW`: the entry is moved as a whole, where the
  -- destination is free, or nothing changes.
  unfoldable pub rename_no_replace : Text → Text → Action Text (Disk N) (Unit {0})
  unfolding lookup insert remove
  rename_no_replace source destination disk = rename_unless disk.refusals source destination disk

  abbrev pub remove_found : Text → Option N → Action Text (Disk N) (Unit {0})
  remove_found path none disk = (err (codes "entity not found"), disk)
  remove_found path (some n) disk = (ok tt, changed (remove path disk.entries) disk)

  -- A removal that is refused leaves what `left` says of the entry.
  abbrev pub remove_unless :
      (N → N) → List (Option Text) → Text → Option N → Action Text (Disk N) (Unit {0})
  remove_unless left [] path o disk = remove_found path o disk
  remove_unless left (none ∷ rest) path o disk =
      remove_found path o (record disk { refusals = rest })
  remove_unless left (some error ∷ rest) path none disk =
      (err error, record disk { refusals = rest })
  remove_unless left (some error ∷ rest) path (some n) disk =
      (err error, changed (insert path (left n) disk.entries) (record disk { refusals = rest }))

  unfoldable pub remove_path_entry : (N → N) → Text → Action Text (Disk N) (Unit {0})
  unfolding lookup insert remove
  remove_path_entry left path disk =
      remove_unless left disk.refusals path (lookup path disk.entries) disk
