-- ===== src/Install/Apply.antt =====
-- The update takes the place of the installation, step by step, and goes back where a step fails.
use ssh_mountmate.Base.{Bool, Option, none, some, if◌then◌else◌}
use ssh_mountmate.Text.{Text, text_eq}
use ssh_mountmate.Action.{Action, pure, throw, next, next_or}
use ssh_mountmate.Install.Types.{
  InstallLayout, TransactionPaths, PreparedPayload, AppliedUpdate, ApplyUpdateError,
  installation_changed, verification, io, restore_failed, rollback_restore_failed,
  rollback_recovery_failed,
}
use ssh_mountmate.Install.Names.{Paths, rebase_path}
use ssh_mountmate.Install.Check.{Checked, check_update}
use ssh_mountmate.Install.Directory.{Disk, Inspection, rename_no_replace, remove_path_entry}

abbrev pub Apply : Type 0 → Type 0 → Type 0
Apply N A = Action ApplyUpdateError (Disk N) A

module _ {N : Type 0} where
  abbrev pub restore : Text → Text → Text → Text → Apply N (Unit {0})
  restore target prepared backup replace_error disk =
      next_or (λ u. throw (io prepared replace_error))
        (λ restore_error. throw (restore_failed replace_error restore_error backup))
        (rename_no_replace backup target disk)

  unfoldable pub swap_paths : Text → Text → Text → Apply N (Unit {0})
  unfolding rename_no_replace
  swap_paths target prepared backup disk =
      next_or
        (λ u disk1.
          next_or pure (restore target prepared backup) (rename_no_replace prepared target disk1))
        (λ error. throw (io backup error)) (rename_no_replace target backup disk)

  abbrev pub recover_new : AppliedUpdate → Text → Apply N (Unit {0})
  recover_new applied restore_error disk =
      next_or (λ u. throw (rollback_restore_failed restore_error applied.backup))
        (λ recovery_error. throw (
          rollback_recovery_failed restore_error recovery_error applied.backup
            applied.failed_payload))
        (rename_no_replace applied.failed_payload applied.target disk)

  unfoldable pub rollback_applied_update : AppliedUpdate → Apply N (Unit {0})
  unfolding rename_no_replace
  rollback_applied_update applied disk =
      next_or
        (λ u disk1.
          next_or pure (recover_new applied)
            (rename_no_replace applied.backup applied.previous_target disk1))
        (λ error. throw (io applied.failed_payload error))
        (rename_no_replace applied.target applied.failed_payload disk)

  unfoldable pub commit_applied_update : (N → N) → AppliedUpdate → Apply N (Unit {0})
  unfolding remove_path_entry
  commit_applied_update left applied disk =
      next_or pure (λ error. throw (io applied.backup error))
        (remove_path_entry left applied.backup disk)

  -- `rollback_applied_update(&applied)?; return Err(error)`
  unfoldable pub roll_back_and_fail : {A : Type 0} → AppliedUpdate → ApplyUpdateError → Apply N A
  unfolding rollback_applied_update
  roll_back_and_fail applied error disk =
      next (λ u. throw error) (rollback_applied_update applied disk)

abbrev pub applied_update : InstallLayout → TransactionPaths → Text → AppliedUpdate
applied_update installation transaction executable = record {
  previous_target = installation.replace_path;
  previous_executable = installation.executable;
  executable = executable;
  target = installation.replace_path;
  failed_payload = transaction.prepared;
  backup = transaction.backup;
}

module _ {N : Type 0} (inspection : Inspection N) (paths : Paths) where
  -- The backup must be the installation that was checked.
  unfoldable pub verify_backup : Checked → AppliedUpdate → Apply N (Unit {0})
  unfolding roll_back_and_fail rebase_path
  verify_backup checked applied disk =
      next_or
        (λ backup_sha256.
          if text_eq backup_sha256 checked.current_sha256
          then pure tt
          else roll_back_and_fail applied installation_changed)
        (λ error. roll_back_and_fail applied (verification error))
        (
          inspection.file_sha256 disk.entries
              (rebase_path paths applied.backup checked.current_relative),
          disk,
        )

  unfoldable pub rename_installed :
      InstallLayout → Option Text → AppliedUpdate → Apply N AppliedUpdate
  unfolding rename_no_replace roll_back_and_fail
  rename_installed installation none applied disk = pure applied disk
  rename_installed installation (some name) applied disk =
      let destination = paths.with_file_name installation.replace_path name in
      if text_eq destination applied.target
      then pure applied disk
      else next_or (λ u. pure (record applied { target = destination; executable = destination }))
          (λ error. roll_back_and_fail applied (io destination error))
          (rename_no_replace applied.target destination disk)

  abbrev pub finish_apply :
      InstallLayout → PreparedPayload → Checked → AppliedUpdate → Apply N AppliedUpdate
  unfolding verify_backup rename_installed
  finish_apply installation prepared checked applied disk =
      next (λ u. rename_installed installation prepared.installed_name applied)
        (verify_backup checked applied disk)

  unfoldable pub apply_checked :
      InstallLayout → PreparedPayload → TransactionPaths → Checked → Apply N AppliedUpdate
  unfolding swap_paths verify_backup rename_installed rebase_path
  apply_checked installation prepared transaction checked disk =
      next
        (λ u. finish_apply installation prepared checked (
          applied_update installation transaction
            (rebase_path paths installation.replace_path checked.executable_relative)))
        (swap_paths installation.replace_path prepared.replace_path transaction.backup disk)

  unfoldable pub apply_prepared_update :
      (Text → Bool)
      → Bool
      → InstallLayout
      → PreparedPayload
      → TransactionPaths
      → Apply N AppliedUpdate
  unfolding check_update apply_checked
  apply_prepared_update is_version windows installation prepared transaction disk =
      next (apply_checked installation prepared transaction) (
        check_update inspection paths is_version windows installation prepared transaction
            disk.entries,
        disk,
      )
