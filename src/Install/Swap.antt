-- ===== src/Install/Swap.antt =====
-- Swapping the installation and the prepared update, and swapping them back.
use mathlib.Core.Path.{fun_ext}
use ssh_mountmate.Base.{
  ◌≡◌, sym, ap, ◌∙◌, subst, Bool, true, false, Option, none, some, ok, if◌then◌else◌, arith, ◌⊎◌,
  inl, inr,
}
use ssh_mountmate.Text.{Text, text_eq, text_eq_iff}
use ssh_mountmate.Action.{Ends, Ends-next_or, next_or}
use ssh_mountmate.Install.{
  Disk, rename_no_replace, swap_paths, restore, AppliedUpdate, ApplyUpdateError,
  invalid_transaction, installation_changed, invalid_prepared_payload, verification, layout, io,
  restore_failed, rollback_restore_failed, rollback_recovery_failed,
}
use ssh_mountmate.Install.Moves.{View, view, moved, WasGood, rename_lem, moved-destination}

-- Whether the error says that the old installation could not be put back.
abbrev pub is_broken : ApplyUpdateError → Bool
is_broken (restore_failed a b c) = true
is_broken (rollback_restore_failed a b) = true
is_broken (rollback_recovery_failed a b c d) = true
is_broken invalid_transaction = false
is_broken installation_changed = false
is_broken (invalid_prepared_payload p) = false
is_broken (verification m) = false
is_broken (layout m) = false
is_broken (io p m) = false

-- The old installation is in its place, or is the backup.
abbrev pub HasOld : {N : Type 0} → Text → Text → N → View N → Type 0
HasOld target backup old w = (w target ≡ some old) ⊎ (w backup ≡ some old)

-- The update `n` is at `place`, and the old installation is the backup.
abbrev pub installed : {N : Type 0} → Text → Text → Text → N → View N → Text → N → View N
installed target prepared backup old w0 place n k =
    if text_eq place k
    then some n
    else if text_eq target k
    then none
    else if text_eq prepared k
    then none
    else if text_eq backup k
    then some old
    else w0 k

-- What a failure leaves, unless its error says that something could not be put back: the entries are
-- what they were, or the update is in place and the old installation is the backup.
abbrev pub LeftFor : {N : Type 0} → Bool → Text → Text → Text → N → View N → View N → Type 0
LeftFor true target prepared backup old w0 w = Unit
LeftFor {N} false target prepared backup old w0 w =
    (w ≡ w0)
    ⊎ ((n : N) × (w0 prepared ≡ some n) × (w ≡ installed target prepared backup old w0 target n))

-- The old installation is there after a failure, and was so all the time.
abbrev pub IsFailed :
    {N : Type 0} → Text → Text → Text → N → View N → ApplyUpdateError → Disk N → Type 0
IsFailed target prepared backup old w0 e disk =
    WasGood (HasOld target backup old) disk
    × HasOld target backup old (view disk)
    × LeftFor (is_broken e) target prepared backup old w0 (view disk)

-- The update is at its place, which was free or was that of the installation; the old installation
-- is the backup, no other entry has changed, and so all the time the old installation was there.
abbrev pub IsApplied :
    {N : Type 0} → Text → Text → Text → N → View N → AppliedUpdate → Disk N → Type 0
IsApplied {N} target prepared backup old w0 applied disk =
    (n : N) × (w0 prepared ≡ some n)
    × (w0 backup ≡ none)
    × (view disk ≡ installed target prepared backup old w0 applied.target n)
    × WasGood (HasOld target backup old) disk
    × (text_eq applied.target prepared ≡ false)
    × (text_eq applied.target backup ≡ false)
    × ((w0 applied.target ≡ none) ⊎ (applied.target ≡ target))
    × ((applied.previous_target ≡ target)
        × (applied.failed_payload ≡ prepared)
        × (applied.backup ≡ backup))

module _ {N : Type 0} (target prepared backup : Text) (old : N) (w0 : View N)
    (at_target : w0 target ≡ some old) (tp : text_eq target prepared ≡ false)
    (tb : text_eq target backup ≡ false) (pb : text_eq prepared backup ≡ false) where
  pub away :
      (k : Text) → w0 backup ≡ none → moved backup target old (moved target backup old w0) k ≡ w0 k
  away k h = ground (
    arith,
    text_eq_iff target k,
    text_eq_iff backup k,
    text_eq_iff backup target,
    text_eq_iff target backup,
  )

  put_in :
      (n : N) (k : Text)
      → w0 prepared ≡ some n
      → moved prepared target n (moved target backup old w0) k
        ≡ installed target prepared backup old w0 target n k
  put_in n k h = ground (arith, text_eq_iff target k, text_eq_iff backup k, text_eq_iff prepared k)

  pub taken_out :
      (place : Text) (n : N) (k : Text)
      → text_eq place prepared ≡ false
      → text_eq place backup ≡ false
      → w0 place ≡ none ⊎ (place ≡ target)
      → w0 prepared ≡ some n
      → w0 backup ≡ none
      → moved backup target old
          (moved place prepared n (installed target prepared backup old w0 place n))
          k
        ≡ w0 k
  taken_out place n k pp pb' (inl e) h l = ground (
    arith,
    text_eq_iff target k,
    text_eq_iff backup k,
    text_eq_iff prepared k,
    text_eq_iff place k,
    text_eq_iff prepared backup,
    text_eq_iff place backup,
  )
  taken_out place n k pp pb' (inr e) h l = ground (
    arith,
    text_eq_iff target k,
    text_eq_iff backup k,
    text_eq_iff prepared k,
    text_eq_iff place k,
    text_eq_iff prepared backup,
    text_eq_iff place backup,
  )

  -- The update has taken the place of the installation.
  abbrev pub IsInstalled : Text → Unit {0} → Disk N → Type 0
  IsInstalled place u disk =
      (n : N) × (w0 prepared ≡ some n)
      × (w0 backup ≡ none)
      × (view disk ≡ installed target prepared backup old w0 place n)
      × WasGood (HasOld target backup old) disk

  pub same : {n m : N} {o : Option N} → o ≡ some n → o ≡ some m → m ≡ n
  same h k = cc

  pub still_backup :
      (n : N) → moved prepared target n (moved target backup old w0) backup ≡ some old
  still_backup n = ground (arith, text_eq_iff backup backup)

  pub was_prepared : (n : N) → moved target backup old w0 prepared ≡ some n → w0 prepared ≡ some n
  was_prepared n h = ground (arith, text_eq_iff prepared backup, text_eq_iff backup prepared)

  restore_lem :
      (replace_error : Text) (disk : Disk N)
      → w0 backup ≡ none
      → view disk ≡ moved target backup old w0
      → WasGood (HasOld target backup old) disk
      → Ends
          (IsInstalled target)
          (IsFailed target prepared backup old w0)
          (restore target prepared backup replace_error disk)
  restore_lem replace_error disk h e g =
      Ends-next_or _ _ _ _ _ _ (rename_no_replace backup target disk)
        (rename_lem (HasOld target backup old) backup target (moved target backup old w0) disk e g
          (λ n f f'. inl (
            moved-destination backup target n (moved target backup old w0) ∙ ap some (is_old n f))))
        (λ u disk1 k. back disk1 k.0 (is_old k.0 k.1) k.3 k.4)
        (λ e1 disk1 k. (
          k.1,
          subst (HasOld target backup old) (sym k.0) (inr (moved-destination target backup old w0)),
          tt,
        ))
    where
      is_old : (n : N) → moved target backup old w0 backup ≡ some n → n ≡ old
      is_old n f = same (moved-destination target backup old w0) f

      back :
          (disk1 : Disk N) (n : N)
          → n ≡ old
          → view disk1 ≡ moved backup target n (moved target backup old w0)
          → WasGood (HasOld target backup old) disk1
          → IsFailed target prepared backup old w0 (io prepared replace_error) disk1
      back disk1 n f v g1 =
          let returned : view disk1 ≡ w0 =
            v
            ∙ ap (λ m. moved backup target m (moved target backup old w0)) f
            ∙ fun_ext (λ k. away k h) in
          (g1, subst (HasOld target backup old) (sym returned) (inl at_target), inl returned)

  pub swap_paths_lem :
      (disk : Disk N)
      → view disk ≡ w0
      → WasGood (HasOld target backup old) disk
      → Ends
          (IsInstalled target)
          (IsFailed target prepared backup old w0)
          (swap_paths target prepared backup disk)
  unfolding swap_paths
  swap_paths_lem disk e g =
      Ends-next_or _ _ _ _ _ _ (rename_no_replace target backup disk)
        (rename_lem (HasOld target backup old) target backup w0 disk e g
          (λ n h k. inr (moved-destination target backup n w0 ∙ ap some (same at_target h))))
        (λ u disk1 h.
          go disk1 h.2 (h.3 ∙ ap (λ m. moved target backup m w0) (same at_target h.1)) h.4)
        (λ e1 disk1 h. (h.1, subst (HasOld target backup old) (sym h.0) (inl at_target), inl h.0))
    where
      go :
          (disk1 : Disk N)
          → w0 backup ≡ none
          → view disk1 ≡ moved target backup old w0
          → WasGood (HasOld target backup old) disk1
          → Ends (IsInstalled target) (IsFailed target prepared backup old w0) (
              next_or
                (λ u d. (ok tt, d))
                (restore target prepared backup)
                (rename_no_replace prepared target disk1))
      go disk1 h f g1 =
          Ends-next_or _ _ _ _ _ (restore target prepared backup)
            (rename_no_replace prepared target disk1)
            (rename_lem (HasOld target backup old) prepared target (moved target backup old w0)
              disk1 f g1 (λ n k l. inr (still_backup n)))
            (λ u disk2 k. (
              k.0,
              was_prepared k.0 k.1,
              h,
              k.3 ∙ fun_ext (λ j. put_in k.0 j (was_prepared k.0 k.1)),
              k.4,
            ))
            (λ e1 disk2 k. restore_lem e1 disk2 h k.0 k.1)
