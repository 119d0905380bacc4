-- ===== src/Install/Recovered.antt =====
-- What the recovery of an interrupted update leaves in the directory.
use ssh_mountmate.Base.{
  ◌≡◌, refl, ap, ◌∙◌, Option, none, some, List, [], ◌∷◌, Result, ok, err, All, Bool-cases, inl, inr,
}
use ssh_mountmate.Text.{Text, codes, text_eq-false, text_eq_refl}
use ssh_mountmate.Dict.{Dict, lookup}
use ssh_mountmate.Action.{Ends, Ends-ok, next_or, pure, throw}
use ssh_mountmate.Install.{
  InstallLayout, is_directory_install, TransactionPlanError, inspect, Paths, Inspection, Disk,
  Metadata, not_found, unreadable, found, transaction_file_name, usable_name, with_name,
  has_install_type, keep_backup, recover_beside, recover_backup, recover_in,
  recover_previous_update, rename_no_replace,
}
use ssh_mountmate.Install.Moves.{View, view, moved, IsMoved, IsKept, rename_lem}

module _ {N : Type 0} (inspection : Inspection N) (paths : Paths) (layout : InstallLayout)
    (token parent name : Text) (parent_of : paths.parent layout.replace_path ≡ some parent)
    (name_of : paths.file_name layout.replace_path ≡ some name)
    (metadata_lem : (entries : Dict N) (path : Text)
      → lookup path entries ≡ none
      → inspection.symlink_metadata entries path ≡ not_found)
    (disk : Disk N) where
  abbrev backup_of : Text → Text
  backup_of n = paths.join parent (transaction_file_name n layout.kind (codes "backup") none)

  abbrev recovered_of : Text → Text
  recovered_of n =
      paths.join parent (transaction_file_name n layout.kind (codes "recovered") (some token))

  -- The place of the backup is free, and the entry that was there has the new path; all others are
  -- as they were.
  abbrev pub IsRecovered : Text → Option Text → Disk N → Type 0
  IsRecovered backup none disk1 =
      (inspection.symlink_metadata disk1.entries backup ≡ not_found) × (disk1 ≡ disk)
  IsRecovered backup (some recovered) disk1 =
      (inspection.symlink_metadata disk1.entries backup ≡ not_found)
      × ((n : N) × (view disk backup ≡ some n)
          × (view disk recovered ≡ none)
          × (view disk1 ≡ moved backup recovered n (view disk)))

  abbrev pub IsUnchanged : TransactionPlanError → Disk N → Type 0
  IsUnchanged e disk1 = view disk1 ≡ view disk

  abbrev Trivial : View N → Type 0
  Trivial w = Unit {0}

  All-trivial : (history : List (Dict N)) → All (λ entries. Unit {0}) history
  All-trivial [] = tt
  All-trivial (entries ∷ history) = (tt, All-trivial history)

  keep_lem :
      (backup recovered : Text)
      → Ends (IsRecovered backup) IsUnchanged (keep_backup inspection paths backup recovered disk)
  unfolding keep_backup rename_no_replace
  keep_lem backup recovered = go (rename_no_replace backup recovered disk) (
      rename_lem Trivial backup recovered (view disk) disk refl (All-trivial disk.history)
        (λ n a b. tt))
    where
      go :
          (q : Result Text (Unit {0}) × Disk N)
          → Ends (IsMoved Trivial backup recovered (view disk)) (IsKept Trivial (view disk)) q
          → Ends
              (IsRecovered backup)
              IsUnchanged
              (next_or (λ u. pure (some recovered)) (λ source. throw (inspect backup source)) q)
      go (ok u, disk1) (n, a, b, c, d) = (
        metadata_lem disk1.entries backup (
            ap (λ (w : View N). w backup) c
            ∙ rw (text_eq-false recovered backup (λ e. absurd (cc)))
                (rw (text_eq_refl backup) refl)),
        (n, a, b, c),
      )
      go (err e, disk1) k = k.0

  beside_lem :
      (backup recovered : Text) (m : Metadata)
      → Ends
          (IsRecovered backup)
          IsUnchanged
          (recover_beside inspection paths layout backup recovered m disk)
  unfolding recover_beside
  beside_lem backup recovered not_found = refl
  beside_lem backup recovered (unreadable source) = refl
  beside_lem backup recovered (found f d l) =
      elim (Bool-cases (has_install_type (is_directory_install layout.kind) f d l)) [
        | inl t ↦ rw t (keep_lem backup recovered)
        | inr r ↦ rw r refl
      ]

  backup_lem :
      (backup recovered : Text) (m : Metadata)
      → inspection.symlink_metadata disk.entries backup ≡ m
      → Ends
          (IsRecovered backup)
          IsUnchanged
          (recover_backup inspection paths layout backup recovered m disk)
  unfolding recover_backup
  backup_lem backup recovered not_found h = (h, refl)
  backup_lem backup recovered (unreadable source) h = refl
  backup_lem backup recovered (found f d l) h =
      elim (Bool-cases (has_install_type (is_directory_install layout.kind) f d l)) [
        | inl t ↦ rw t (
            beside_lem backup recovered
              (inspection.symlink_metadata disk.entries layout.replace_path))
        | inr r ↦ rw r refl
      ]

  recover_lem :
      Ends
        (IsRecovered (backup_of name))
        IsUnchanged
        (recover_previous_update inspection paths layout token disk)
  unfolding recover_previous_update recover_in
  recover_lem = rw parent_of (rw name_of (go name))
    where
      go :
          (n : Text)
          → Ends (IsRecovered (backup_of n)) IsUnchanged (
              with_name inspection paths layout
                (recover_in inspection paths layout token)
                (some parent)
                (usable_name (some n))
                disk)
      go [] = refl
      go (c ∷ n) = backup_lem (backup_of (c ∷ n)) (recovered_of (c ∷ n)) _ refl

  -- A recovery that succeeds frees the place of the backup: an entry there has the new path that is
  -- returned, which was free, and all other entries are as they were. It is assumed that the
  -- installation has a parent and a name, and that nothing is found where there is no entry.
  pub recover_previous_update-IsRecovered :
      (result : Option Text) (disk1 : Disk N)
      → recover_previous_update inspection paths layout token disk ≡ (ok result, disk1)
      → IsRecovered
          (paths.join parent (transaction_file_name name layout.kind (codes "backup") none))
          result
          disk1
  recover_previous_update-IsRecovered result disk1 e =
      Ends-ok (IsRecovered (backup_of name)) IsUnchanged _ recover_lem e
