-- ===== src/Install/Recover.antt =====
-- The paths of a new transaction, and what an interrupted one has left.
use ssh_mountmate.Base.{Bool, ◌&&◌, not, Option, none, some, ◌∷◌, [], if◌then◌else◌}
use ssh_mountmate.Text.{Text, codes}
use ssh_mountmate.Action.{Action, pure, throw, next_or}
use ssh_mountmate.Install.Types.{
  InstallLayout, is_directory_install, TransactionPaths, TransactionPlanError, missing_parent,
  missing_name, backup_exists, prepared_exists, inspect,
}
use ssh_mountmate.Install.Names.{Paths, transaction_file_name}
use ssh_mountmate.Install.Directory.{
  Disk, Metadata, not_found, unreadable, found, Inspection, rename_no_replace,
}

abbrev pub Plan : Type 0 → Type 0 → Type 0
Plan N A = Action TransactionPlanError (Disk N) A

-- `filter(|value| !value.is_empty())`
abbrev pub usable_name : Option Text → Option Text
usable_name none = none
usable_name (some []) = none
usable_name (some (c ∷ name)) = some (c ∷ name)

-- The type of entry that an installation, or its backup, must have.
abbrev pub has_install_type : Bool → Bool → Bool → Bool → Bool
has_install_type directory_install is_file is_dir is_symlink =
    not is_symlink && (if directory_install then is_dir else is_file)

module _ {N : Type 0} (inspection : Inspection N) (paths : Paths) where
  -- What follows once the parent and the name of the installation are known.
  abbrev pub with_name :
      {A : Type 0} → InstallLayout → (Text → Text → Plan N A) → Option Text → Option Text → Plan N A
  with_name layout f none name = throw (missing_parent layout.replace_path)
  with_name layout f (some parent) none = throw (missing_name layout.replace_path)
  with_name layout f (some parent) (some name) = f parent name

  -- What follows where there is no entry at the path.
  abbrev pub unless_there :
      {A : Type 0} → Text → TransactionPlanError → Plan N A → Metadata → Plan N A
  unless_there path error m not_found = m
  unless_there path error m (unreadable source) = throw (inspect path source)
  unless_there path error m (found f d l) = throw error

  unfoldable pub plan_in : InstallLayout → Text → Text → Text → Plan N TransactionPaths
  unfolding transaction_file_name
  plan_in layout token parent name disk =
      let backup =
        paths.join parent (transaction_file_name name layout.kind (codes "backup") none) in
      let prepared =
        paths.join parent
          (transaction_file_name name layout.kind (codes "prepared") (some token)) in
      unless_there backup (backup_exists backup)
        (λ disk1.
          unless_there prepared (prepared_exists prepared)
            (pure (record { prepared = prepared; backup = backup }))
            (inspection.symlink_metadata disk1.entries prepared) disk1)
        (inspection.symlink_metadata disk.entries backup) disk

  -- `Uuid::new_v4()` gives the token.
  unfoldable pub plan_transaction_paths : InstallLayout → Text → Plan N TransactionPaths
  unfolding plan_in
  plan_transaction_paths layout token =
      with_name layout (plan_in layout token) (paths.parent layout.replace_path)
        (usable_name (paths.file_name layout.replace_path))

  unfoldable pub keep_backup : Text → Text → Plan N (Option Text)
  unfolding rename_no_replace
  keep_backup backup recovered disk =
      next_or (λ u. pure (some recovered)) (λ source. throw (inspect backup source))
        (rename_no_replace backup recovered disk)

  -- By what stands at the path of the installation.
  unfoldable pub recover_beside : InstallLayout → Text → Text → Metadata → Plan N (Option Text)
  unfolding keep_backup
  recover_beside layout backup recovered not_found disk =
      throw (inspect layout.replace_path (codes "entity not found")) disk
  recover_beside layout backup recovered (unreadable source) disk =
      throw (inspect layout.replace_path source) disk
  recover_beside layout backup recovered (found f d l) disk =
      if has_install_type (is_directory_install layout.kind) f d l
      then keep_backup backup recovered disk
      else throw
          (inspect layout.replace_path (codes "current installation has an unexpected file type"))
          disk

  -- By what stands at the path of the backup.
  unfoldable pub recover_backup : InstallLayout → Text → Text → Metadata → Plan N (Option Text)
  unfolding recover_beside
  recover_backup layout backup recovered not_found disk = pure none disk
  recover_backup layout backup recovered (unreadable source) disk =
      throw (inspect backup source) disk
  recover_backup layout backup recovered (found f d l) disk =
      if has_install_type (is_directory_install layout.kind) f d l
      then recover_beside layout backup recovered
          (inspection.symlink_metadata disk.entries layout.replace_path) disk
      else throw (inspect backup (codes "previous update backup has an unexpected file type")) disk

  unfoldable pub recover_in : InstallLayout → Text → Text → Text → Plan N (Option Text)
  unfolding transaction_file_name recover_backup
  recover_in layout token parent name disk =
      let backup =
        paths.join parent (transaction_file_name name layout.kind (codes "backup") none) in
      let recovered =
        paths.join parent
          (transaction_file_name name layout.kind (codes "recovered") (some token)) in
      recover_backup layout backup recovered (inspection.symlink_metadata disk.entries backup) disk

  unfoldable pub recover_previous_update : InstallLayout → Text → Plan N (Option Text)
  unfolding recover_in
  recover_previous_update layout token =
      with_name layout (recover_in layout token) (paths.parent layout.replace_path)
        (usable_name (paths.file_name layout.replace_path))
