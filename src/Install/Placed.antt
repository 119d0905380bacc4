-- ===== src/Install/Placed.antt =====
-- The place of an applied update: the path of the installation, or the new name beside it.
use ssh_mountmate.Base.{
  ◌≡◌, refl, sym, Bool, Option, none, some, Result, ok, err, inl, inr, Bool-cases,
}
use ssh_mountmate.Text.{Text, text_eq, text_eq_sound}
use ssh_mountmate.Action.{Ends, next, next_or, pure, throw}
use ssh_mountmate.Install.Types.{
  InstallLayout, TransactionPaths, PreparedPayload, AppliedUpdate, ApplyUpdateError, io,
}
use ssh_mountmate.Install.Names.{Paths, rebase_path}
use ssh_mountmate.Install.Check.{Checked, check_update}
use ssh_mountmate.Install.Directory.{Disk, Inspection, rename_no_replace}
use ssh_mountmate.Install.Apply.{
  rollback_applied_update, roll_back_and_fail, applied_update, verify_backup, rename_installed,
  finish_apply, swap_paths, apply_checked, apply_prepared_update,
}

-- Where an installation is to be, once it has been updated to a payload of that name.
abbrev pub installed_place : Paths → Text → Option Text → Text
installed_place paths target none = target
installed_place paths target (some name) = paths.with_file_name target name

abbrev pub IsAt : {N : Type 0} → Text → Result ApplyUpdateError AppliedUpdate × Disk N → Type 0
IsAt {N} place q = Ends (λ applied d. applied.target ≡ place) (λ e (d : Disk N). Unit {0}) q

module _ {N : Type 0} (place : Text) where
  fail-IsAt :
      (applied : AppliedUpdate) (error : ApplyUpdateError) (disk : Disk N)
      → IsAt place (roll_back_and_fail applied error disk)
  unfolding roll_back_and_fail
  fail-IsAt applied error disk = go (rollback_applied_update applied disk)
    where
      go :
          (q : Result ApplyUpdateError (Unit {0}) × Disk N) → IsAt place (next (λ u. throw error) q)
      go (ok u, d) = tt
      go (err e, d) = tt

  next-IsAt :
      {A : Type 0} (f : A → Disk N → Result ApplyUpdateError AppliedUpdate × Disk N)
      (q : Result ApplyUpdateError A × Disk N)
      → ((a : A) (d : Disk N) → IsAt place (f a d))
      → IsAt place (next f q)
  next-IsAt f (ok a, d) h = h a d
  next-IsAt f (err e, d) h = tt

module _ {N : Type 0} (inspection : Inspection N) (paths : Paths) where
  rename_installed-IsAt :
      (installation : InstallLayout) (name : Option Text) (applied : AppliedUpdate) (disk : Disk N)
      → applied.target ≡ installation.replace_path
      → IsAt
          (installed_place paths installation.replace_path name)
          (rename_installed inspection paths installation name applied disk)
  unfolding rename_installed
  rename_installed-IsAt installation none applied disk h = h
  rename_installed-IsAt installation (some name) applied disk h =
      let destination = paths.with_file_name installation.replace_path name in
      elim (Bool-cases (text_eq destination applied.target)) [
        | inl t ↦ rw t (sym (text_eq_sound destination applied.target t))
        | inr f ↦ rw f (go destination (rename_no_replace applied.target destination disk))
      ]
    where
      go :
          (destination : Text) (q : Result Text (Unit {0}) × Disk N)
          → IsAt destination (
              next_or
                (λ u. pure (record applied { target = destination; executable = destination }))
                (λ error. roll_back_and_fail applied (io destination error))
                q)
      go destination (ok u, d) = refl
      go destination (err e, d) = fail-IsAt destination applied (io destination e) d

  apply_checked-IsAt :
      (installation : InstallLayout) (prepared : PreparedPayload) (transaction : TransactionPaths)
      (checked : Checked) (disk : Disk N)
      → IsAt
          (installed_place paths installation.replace_path prepared.installed_name)
          (apply_checked inspection paths installation prepared transaction checked disk)
  unfolding apply_checked
  apply_checked-IsAt installation prepared transaction checked disk =
      let place = installed_place paths installation.replace_path prepared.installed_name in
      let applied =
        applied_update installation transaction
          (rebase_path paths installation.replace_path checked.executable_relative) in
      next-IsAt place (λ u. finish_apply inspection paths installation prepared checked applied)
        (swap_paths installation.replace_path prepared.replace_path transaction.backup disk)
        (λ u d.
          next-IsAt place
            (λ u. rename_installed inspection paths installation prepared.installed_name applied)
            (verify_backup inspection paths checked applied d)
            (λ u d'. rename_installed-IsAt installation prepared.installed_name applied d' refl))

  -- An applied update is in its place.
  pub apply_prepared_update-IsAt :
      (is_version : Text → Bool) (windows : Bool) (installation : InstallLayout)
      (prepared : PreparedPayload) (transaction : TransactionPaths) (disk : Disk N)
      → IsAt (installed_place paths installation.replace_path prepared.installed_name) (
          apply_prepared_update inspection paths is_version windows installation prepared
            transaction disk)
  unfolding apply_prepared_update
  apply_prepared_update-IsAt is_version windows installation prepared transaction disk =
      next-IsAt (installed_place paths installation.replace_path prepared.installed_name)
        (apply_checked inspection paths installation prepared transaction)
        (
          check_update inspection paths is_version windows installation prepared transaction
              disk.entries,
          disk,
        )
        (λ checked d. apply_checked-IsAt installation prepared transaction checked d)
