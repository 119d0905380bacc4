-- ===== src/Install/Safe.antt =====
-- `apply_prepared_update`: in every state on its way the old installation is there.
use mathlib.Core.Path.{fun_ext}
use ssh_mountmate.Base.{
  ◌≡◌, refl, sym, ap, ◌∙◌, subst, Bool, true, false, Option, none, some, Result, ok, err,
  if◌then◌else◌, arith, inl, inr, Bool-cases,
}
use ssh_mountmate.Text.{Text, text_eq, text_eq_iff, text_eq_refl}
use ssh_mountmate.Action.{Ends, Ends-next_or, Ends-next, pure, next_or}
use ssh_mountmate.Install.{
  Disk, Inspection, Paths, InstallLayout, TransactionPaths, PreparedPayload, Checked,
  rename_no_replace, AppliedUpdate, applied_update, rollback_applied_update, roll_back_and_fail,
  verify_backup, rename_installed, apply_checked, swap_paths, ApplyUpdateError,
  installation_changed, verification, io, rebase_path,
}
use ssh_mountmate.Install.Moves.{View, view, moved, WasGood, rename_lem}
use ssh_mountmate.Install.Swap.{
  is_broken, HasOld, installed, LeftFor, IsApplied, IsFailed, swap_paths_lem,
}
use ssh_mountmate.Install.Applied.{StuckFor, rollback_lem}

module _ {N : Type 0} (inspection : Inspection N) (paths : Paths) (installation : InstallLayout)
    (transaction : TransactionPaths) (old : N) (w0 : View N)
    (at_target : w0 installation.replace_path ≡ some old)
    (tp : text_eq installation.replace_path transaction.prepared ≡ false)
    (tb : text_eq installation.replace_path transaction.backup ≡ false)
    (pb : text_eq transaction.prepared transaction.backup ≡ false) where
  abbrev Done : AppliedUpdate → Disk N → Type 0
  Done applied disk =
      IsApplied installation.replace_path transaction.prepared transaction.backup old w0 applied
        disk

  abbrev Failed : ApplyUpdateError → Disk N → Type 0
  Failed e disk =
      IsFailed installation.replace_path transaction.prepared transaction.backup old w0 e disk

  unchanged_left :
      (b : Bool) (w : View N)
      → w ≡ w0
      → LeftFor b installation.replace_path transaction.prepared transaction.backup old w0 w
  unchanged_left true w e = tt
  unchanged_left false w e = inl e

  module _ (executable : Text) (n : N) (at_prepared : w0 transaction.prepared ≡ some n)
      (no_backup : w0 transaction.backup ≡ none) where
    abbrev first : AppliedUpdate
    first = applied_update installation transaction executable

    abbrev In : View N
    In =
        installed installation.replace_path transaction.prepared transaction.backup old w0
          installation.replace_path n

    stuck_left :
        (b : Bool) (w : View N)
        → StuckFor first old n w0 at_target at_prepared no_backup tp tb pb tp tb (inr refl) b w
        → LeftFor b installation.replace_path transaction.prepared transaction.backup old w0 w
    stuck_left true w e = tt
    stuck_left false w e = inr (n, at_prepared, e)

    roll_back_lem :
        {A : Type 0} (P : A → Disk N → Type 0) (error : ApplyUpdateError) (disk : Disk N)
        → view disk ≡ In
        → WasGood (HasOld installation.replace_path transaction.backup old) disk
        → Ends P Failed (roll_back_and_fail first error disk)
    unfolding roll_back_and_fail
    roll_back_lem P error disk e g =
        Ends-next _ _ _ _ _ (rollback_applied_update first disk)
          (rollback_lem first old n w0 at_target at_prepared no_backup tp tb pb tp tb (inr refl)
            disk e g)
          (λ u disk1 h. (
            h.1,
            subst (HasOld installation.replace_path transaction.backup old) (sym h.0)
                (inl at_target),
            unchanged_left (is_broken error) (view disk1) h.0,
          ))
          (λ e1 disk1 h. (h.0, h.1, stuck_left (is_broken e1) (view disk1) h.2))

    abbrev Still : Unit {0} → Disk N → Type 0
    Still u disk =
        (view disk ≡ In) × WasGood (HasOld installation.replace_path transaction.backup old) disk

    verify_backup_lem :
        (checked : Checked) (disk : Disk N)
        → view disk ≡ In
        → WasGood (HasOld installation.replace_path transaction.backup old) disk
        → Ends Still Failed (verify_backup inspection paths checked first disk)
    unfolding verify_backup
    verify_backup_lem checked disk e g = go (
        inspection.file_sha256 disk.entries
          (rebase_path paths transaction.backup checked.current_relative))
      where
        go :
            (r : Result Text Text)
            → Ends Still Failed (
                next_or
                  (λ backup_sha256.
                    if text_eq backup_sha256 checked.current_sha256
                    then pure tt
                    else roll_back_and_fail first installation_changed)
                  (λ error. roll_back_and_fail first (verification error))
                  (r, disk))
        go (err error) = roll_back_lem Still (verification error) disk e g
        go (ok sha) = elim (Bool-cases (text_eq sha checked.current_sha256)) [
          | inl t ↦ rw t (e, g)
          | inr f ↦ rw f (roll_back_lem Still installation_changed disk e g)
        ]

    -- A destination that was free, is not the backup, and gets the update.
    free_there :
        (destination : Text)
        → text_eq destination installation.replace_path ≡ false
        → text_eq destination transaction.prepared ≡ false
        → In destination ≡ none
        → (w0 destination ≡ none) × (text_eq destination transaction.backup ≡ false)
    free_there destination dt dp h = ground (
      arith,
      text_eq_iff installation.replace_path destination,
      text_eq_iff destination installation.replace_path,
      text_eq_iff transaction.prepared destination,
      text_eq_iff destination transaction.prepared,
      text_eq_iff transaction.backup destination,
      text_eq_iff destination transaction.backup,
    )

    moved_there :
        (destination k : Text)
        → moved installation.replace_path destination n In k
          ≡ installed installation.replace_path transaction.prepared transaction.backup old w0
              destination n k
    moved_there destination k =
        ground (arith, text_eq_iff installation.replace_path k, text_eq_iff destination k)

    backup_stays :
        (destination : Text) (m : N)
        → text_eq destination transaction.backup ≡ false
        → moved installation.replace_path destination m In transaction.backup ≡ some old
    backup_stays destination m h = ground (arith, text_eq_iff transaction.backup transaction.backup)

    is_n : (m : N) → In installation.replace_path ≡ some m → m ≡ n
    is_n m h =
        let at_place : In installation.replace_path ≡ some n =
          rw (text_eq_refl installation.replace_path) refl in
        cc

    done :
        (destination : Text)
        → text_eq destination installation.replace_path ≡ false
        → text_eq destination transaction.prepared ≡ false
        → (disk : Disk N) (m : N) → In installation.replace_path ≡ some m
        → In destination ≡ none
        → view disk ≡ moved installation.replace_path destination m In
        → WasGood (HasOld installation.replace_path transaction.backup old) disk
        → Done (record first { target = destination; executable = destination }) disk
    done destination dt dp disk m h k v g =
        let (was_free, not_backup) = free_there destination dt dp k in
        (
          n,
          at_prepared,
          no_backup,
          v
              ∙ ap (λ x. moved installation.replace_path destination x In) (is_n m h)
              ∙ fun_ext (moved_there destination),
          g,
          dp,
          not_backup,
          inl was_free,
          (refl, refl, refl),
        )

    rename_installed_lem :
        (name : Option Text) (disk : Disk N)
        → ((s : Text)
            → name ≡ some s
            → text_eq (paths.with_file_name installation.replace_path s) transaction.prepared
              ≡ false)
        → view disk ≡ In
        → WasGood (HasOld installation.replace_path transaction.backup old) disk
        → Ends Done Failed (rename_installed inspection paths installation name first disk)
    unfolding rename_installed
    rename_installed_lem none disk fresh e g =
        (n, at_prepared, no_backup, e, g, tp, tb, inr refl, (refl, refl, refl))
    rename_installed_lem (some name) disk fresh e g =
        elim (Bool-cases (
          text_eq (paths.with_file_name installation.replace_path name)
            installation.replace_path)) [
              | inl t ↦ rw t (n, at_prepared, no_backup, e, g, tp, tb, inr refl, (refl, refl, refl))
              | inr f ↦ rw f (
                  Ends-next_or _ _ _ _ _ _
                    (rename_no_replace installation.replace_path
                      (paths.with_file_name installation.replace_path name) disk)
                    (rename_lem (HasOld installation.replace_path transaction.backup old)
                      installation.replace_path
                      (paths.with_file_name installation.replace_path name) In disk e g
                      (λ m h h'. inr (
                        backup_stays (paths.with_file_name installation.replace_path name) m
                          (free_there (paths.with_file_name installation.replace_path name) f
                            (fresh name refl) h').1)))
                    (λ u disk1 h.
                      done (paths.with_file_name installation.replace_path name) f (fresh name refl)
                        disk1 h.0 h.1 h.2 h.3 h.4)
                    (λ error disk1 h.
                      roll_back_lem Done
                        (io (paths.with_file_name installation.replace_path name) error) disk1 h.0
                        h.1))
            ]

  pub apply_checked_lem :
      (prepared : PreparedPayload) (checked : Checked) (disk : Disk N)
      → prepared.replace_path ≡ transaction.prepared
      → ((s : Text)
          → prepared.installed_name ≡ some s
          → text_eq (paths.with_file_name installation.replace_path s) transaction.prepared ≡ false)
      → view disk ≡ w0
      → WasGood (HasOld installation.replace_path transaction.backup old) disk
      → Ends Done Failed
          (apply_checked inspection paths installation prepared transaction checked disk)
  unfolding apply_checked
  apply_checked_lem prepared checked disk its fresh e g = rw its (
      Ends-next _ _ _ _ _
        (swap_paths installation.replace_path transaction.prepared transaction.backup disk)
        (swap_paths_lem installation.replace_path transaction.prepared transaction.backup old w0
          at_target tp tb pb disk e g)
        (λ u disk1 h.
          Ends-next _ _ _ _ _
            (verify_backup inspection paths checked
              (applied_update installation transaction
                (rebase_path paths installation.replace_path checked.executable_relative))
              disk1)
            (verify_backup_lem
              (rebase_path paths installation.replace_path checked.executable_relative) h.0 h.1 h.2
              checked disk1 h.3 h.4)
            (λ u' disk2 k.
              rename_installed_lem
                (rebase_path paths installation.replace_path checked.executable_relative) h.0 h.1
                h.2 prepared.installed_name disk2 fresh k.0 k.1)
            (λ e' disk2 k. k))
        (λ e' disk1 h. h))
