-- ===== src/Install/Applied.antt =====
-- An update that was applied, and its rollback.
use mathlib.Core.Path.{fun_ext}
use ssh_mountmate.Base.{
  ◌≡◌, refl, sym, ap, ◌∙◌, subst, Bool, true, false, Option, none, some, ok, arith, ◌⊎◌, inl, inr,
}
use ssh_mountmate.Text.{Text, text_eq, text_eq_iff, text_eq_refl}
use ssh_mountmate.Action.{Ends, Ends-next_or, next_or}
use ssh_mountmate.Install.{
  Disk, rename_no_replace, AppliedUpdate, rollback_applied_update, recover_new, ApplyUpdateError,
}
use ssh_mountmate.Install.Moves.{View, view, moved, WasGood, rename_lem, moved-destination}
use ssh_mountmate.Install.Swap.{is_broken, HasOld, installed, taken_out}

same : {N : Type 0} {n m : N} {o : Option N} → o ≡ some n → o ≡ some m → m ≡ n
same h k = cc

module _ {N : Type 0} (applied : AppliedUpdate) (old n : N) (w0 : View N)
    (at_target : w0 applied.previous_target ≡ some old)
    (at_prepared : w0 applied.failed_payload ≡ some n) (no_backup : w0 applied.backup ≡ none)
    (tp : text_eq applied.previous_target applied.failed_payload ≡ false)
    (tb : text_eq applied.previous_target applied.backup ≡ false)
    (pb : text_eq applied.failed_payload applied.backup ≡ false)
    (lp : text_eq applied.target applied.failed_payload ≡ false)
    (lb : text_eq applied.target applied.backup ≡ false)
    (free : (w0 applied.target ≡ none) ⊎ (applied.target ≡ applied.previous_target)) where
  -- The update is in place, and the old installation is the backup.
  abbrev pub in_place : View N
  in_place =
      installed applied.previous_target applied.failed_payload applied.backup old w0 applied.target
        n

  -- The update has been moved back to where it was prepared.
  abbrev out : View N
  out = moved applied.target applied.failed_payload n in_place

  pub HasOld-in_place : in_place applied.backup ≡ some old
  HasOld-in_place = ground (arith, text_eq_iff applied.backup applied.backup)

  out_backup :
      (m : N) → moved applied.target applied.failed_payload m in_place applied.backup ≡ some old
  out_backup m = ground (arith, text_eq_iff applied.backup applied.backup)

  again_backup :
      (m : N) → moved applied.failed_payload applied.target m out applied.backup ≡ some old
  again_backup m = ground (arith, text_eq_iff applied.backup applied.backup)

  back : (k : Text) → moved applied.backup applied.previous_target old out k ≡ w0 k
  back k =
      taken_out applied.previous_target applied.failed_payload applied.backup old w0 at_target tp tb
        pb applied.target n k lp lb free at_prepared no_backup

  -- What a failed rollback leaves.
  abbrev pub StuckFor : Bool → View N → Type 0
  StuckFor true w = Unit
  StuckFor false w = w ≡ in_place

  abbrev pub IsRolledBack : Unit {0} → Disk N → Type 0
  IsRolledBack u disk =
      (view disk ≡ w0) × WasGood (HasOld applied.previous_target applied.backup old) disk

  abbrev pub IsStuck : ApplyUpdateError → Disk N → Type 0
  IsStuck e disk =
      WasGood (HasOld applied.previous_target applied.backup old) disk
      × HasOld applied.previous_target applied.backup old (view disk)
      × StuckFor (is_broken e) (view disk)

  recover_lem :
      (restore_error : Text) (disk : Disk N)
      → view disk ≡ out
      → WasGood (HasOld applied.previous_target applied.backup old) disk
      → Ends IsRolledBack IsStuck (recover_new applied restore_error disk)
  recover_lem restore_error disk e g =
      Ends-next_or _ _ _ _ _ _ (rename_no_replace applied.failed_payload applied.target disk)
        (rename_lem (HasOld applied.previous_target applied.backup old) applied.failed_payload
          applied.target out disk e g (λ m f f'. inr (again_backup m)))
        (λ u disk1 k. (
          k.4,
          subst (HasOld applied.previous_target applied.backup old) (sym k.3)
              (inr (again_backup k.0)),
          tt,
        ))
        (λ e1 disk1 k. (
          k.1,
          subst (HasOld applied.previous_target applied.backup old) (sym k.0) (inr (out_backup n)),
          tt,
        ))

  pub rollback_lem :
      (disk : Disk N)
      → view disk ≡ in_place
      → WasGood (HasOld applied.previous_target applied.backup old) disk
      → Ends IsRolledBack IsStuck (rollback_applied_update applied disk)
  unfolding rollback_applied_update
  rollback_lem disk e g =
      Ends-next_or _ _ _ _ _ _ (rename_no_replace applied.target applied.failed_payload disk)
        (rename_lem (HasOld applied.previous_target applied.backup old) applied.target
          applied.failed_payload in_place disk e g (λ m f f'. inr (out_backup m)))
        (λ u disk1 k.
          go disk1
            (k.3
              ∙ ap (λ m. moved applied.target applied.failed_payload m in_place)
                  (same (moved_in n) k.1))
            k.4)
        (λ e1 disk1 k. (
          k.1,
          subst (HasOld applied.previous_target applied.backup old) (sym k.0) (inr HasOld-in_place),
          k.0,
        ))
    where
      moved_in : (m : N) → in_place applied.target ≡ some n
      moved_in m = rw (text_eq_refl applied.target) refl

      go :
          (disk1 : Disk N)
          → view disk1 ≡ out
          → WasGood (HasOld applied.previous_target applied.backup old) disk1
          → Ends IsRolledBack IsStuck (
              next_or
                (λ u d. (ok tt, d))
                (recover_new applied)
                (rename_no_replace applied.backup applied.previous_target disk1))
      go disk1 f g1 =
          Ends-next_or _ _ _ _ _ (recover_new applied)
            (rename_no_replace applied.backup applied.previous_target disk1)
            (rename_lem (HasOld applied.previous_target applied.backup old) applied.backup
              applied.previous_target out disk1 f g1
              (λ m h h'. inl (
                moved-destination applied.backup applied.previous_target m out
                ∙ ap some (same (out_backup n) h))))
            (λ u disk2 k. (
              k.3
                  ∙ ap (λ m. moved applied.backup applied.previous_target m out)
                      (same (out_backup n) k.1)
                  ∙ fun_ext back,
              k.4,
            ))
            (λ e1 disk2 k. recover_lem e1 disk2 k.0 k.1)
