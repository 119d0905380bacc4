-- ===== src/Install/Whole.antt =====
-- The whole of `apply_prepared_update`, its checks included.
use ssh_mountmate.Base.{
  ◌≡◌, refl, Bool, true, false, not, ◌||◌, none, some, [], Option, subst, Result, ok, err, inl,
  arith, refuse_if, refuse_if-ok, then-ok,
}
use ssh_mountmate.Text.{Text, text_eq, text_eq_sound}
use ssh_mountmate.Dict.{Dict}
use ssh_mountmate.Action.{Ends, Ends-ok, Ends-err, next}
use ssh_mountmate.Install.{
  Disk, Inspection, Paths, InstallLayout, TransactionPaths, PreparedPayload, Checked, AppliedUpdate,
  apply_checked, apply_prepared_update, check_update, validate_transaction_shape, ApplyUpdateError,
  invalid_transaction, check_installed_name, valid_versioned_executable_name, kind_eq,
  standalone_executable,
}
use ssh_mountmate.Install.Moves.{view, WasGood}
use ssh_mountmate.Install.Swap.{LeftFor, is_broken, HasOld, IsApplied, IsFailed}
use ssh_mountmate.Install.Distinct.{
  AreDistinct, validate_transaction_shape-AreDistinct, validate_transaction_shape-fresh,
}
use ssh_mountmate.Install.Safe.{apply_checked_lem}

-- A new name that passes is one of a version.
versioned :
    {N : Type 0} (inspection : Inspection N) (paths : Paths) (is_version : Text → Bool)
    (windows : Bool) (installation : InstallLayout) (o : Option Text) (entries : Dict N)
    (u : Unit {0})
    → check_installed_name inspection paths is_version windows installation o entries ≡ ok u
    → (s : Text) → o ≡ some s
    → valid_versioned_executable_name is_version s ≡ true
unfolding check_installed_name
versioned inspection paths is_version windows installation none entries u h s e = absurd (cc)
versioned inspection paths is_version windows installation (some name) entries u h s e =
    let ((v, first), rest) = then-ok (refuse_if (named_badly) invalid_transaction) _ u h in
    let agrees = refuse_if-ok named_badly invalid_transaction v first in
    subst (λ (t : Text). valid_versioned_executable_name is_version t ≡ true) same
      (ground (arith, agrees))
  where
    same : name ≡ s
    same = cc

    named_badly : Bool
    named_badly =
        not windows
        || (not (kind_eq installation.kind standalone_executable)
            || not (valid_versioned_executable_name is_version name))

-- A fact that does not depend on how an operation ends.
with_fact :
    {E S A : Type 0} (X : Type 0) (P : A → S → Type 0) (Q : E → S → Type 0) (r : Result E A × S)
    → X
    → Ends P Q r
    → Ends (λ a s. X × P a s) Q r
with_fact X P Q (ok a, s) x h = (x, h)
with_fact X P Q (err e, s) x h = h

module _ {N : Type 0} (inspection : Inspection N) (paths : Paths) (is_version : Text → Bool)
    (with_file_name_lem : (path name : Text)
      → valid_versioned_executable_name is_version name ≡ true
      → paths.file_name (paths.with_file_name path name) ≡ some name)
    (windows : Bool) (installation : InstallLayout) (prepared : PreparedPayload)
    (transaction : TransactionPaths) (old : N) where
  -- What the checks have found where they pass.
  checked_lem :
      (entries : Dict N) (checked : Checked)
      → check_update inspection paths is_version windows installation prepared transaction entries
        ≡ ok checked
      → (prepared.replace_path ≡ transaction.prepared)
        × (validate_transaction_shape paths installation transaction ≡ true)
        × ((s : Text)
            → prepared.installed_name ≡ some s
            → valid_versioned_executable_name is_version s ≡ true)
  unfolding check_update
  checked_lem entries checked h =
      let ((v, first), rest) =
        then-ok
          (refuse_if (not (validate_transaction_shape paths installation transaction))
            invalid_transaction)
          _ checked h in
      let ((u, second), more) =
        then-ok
          (refuse_if
            (not (text_eq prepared.replace_path transaction.prepared)
              || not (paths.starts_with prepared.executable prepared.replace_path))
            invalid_transaction)
          _ checked rest in
      let ((w, third), end) =
        then-ok
          (check_installed_name inspection paths is_version windows installation
            prepared.installed_name entries)
          _ checked more in
      let shape =
        refuse_if-ok (not (validate_transaction_shape paths installation transaction))
          invalid_transaction v first in
      let agrees =
        refuse_if-ok
          (not (text_eq prepared.replace_path transaction.prepared)
            || not (paths.starts_with prepared.executable prepared.replace_path))
          invalid_transaction u second in
      (
        text_eq_sound prepared.replace_path transaction.prepared (ground (arith, agrees)),
        ground (arith, shape),
        versioned inspection paths is_version windows installation prepared.installed_name entries w
            third,
      )

  module _ (disk : Disk N) (at_target : view disk installation.replace_path ≡ some old)
      (no_history : disk.history ≡ []) where
    abbrev Applied : AppliedUpdate → Disk N → Type 0
    Applied applied disk1 =
        IsApplied installation.replace_path transaction.prepared transaction.backup old (view disk)
          applied disk1

    abbrev Failed : ApplyUpdateError → Disk N → Type 0
    Failed error disk1 =
        IsFailed installation.replace_path transaction.prepared transaction.backup old (view disk)
          error disk1

    untouched :
        (b : Bool)
        → LeftFor b installation.replace_path transaction.prepared transaction.backup old
            (view disk)
            (view disk)
    untouched true = tt
    untouched false = inl refl

    pub apply_lem :
        Ends
          (λ applied disk1. AreDistinct installation transaction × Applied applied disk1)
          Failed
          (apply_prepared_update inspection paths is_version windows installation prepared
            transaction disk)
    unfolding apply_prepared_update
    apply_lem =
        go
          (check_update inspection paths is_version windows installation prepared transaction
            disk.entries)
          refl
      where
        start : WasGood (HasOld installation.replace_path transaction.backup old) disk
        start = rw no_history tt

        go :
            (r : Result ApplyUpdateError Checked)
            → check_update inspection paths is_version windows installation prepared transaction
                disk.entries
              ≡ r
            → Ends
                (λ applied disk1. AreDistinct installation transaction × Applied applied disk1)
                Failed
                (next (apply_checked inspection paths installation prepared transaction) (r, disk))
        go (err e) h = (start, inl at_target, untouched (is_broken e))
        go (ok checked) h =
            let (its, shape, versions) = checked_lem disk.entries checked h in
            let distinct =
              validate_transaction_shape-AreDistinct paths installation transaction shape in
            with_fact (AreDistinct installation transaction) Applied Failed _ distinct (
              apply_checked_lem inspection paths installation transaction old (view disk) at_target
                distinct.0 distinct.1 distinct.2 prepared checked disk its
                (λ s e.
                  validate_transaction_shape-fresh paths is_version installation transaction
                    (paths.with_file_name installation.replace_path s) s shape (versions s e)
                    (with_file_name_lem installation.replace_path s (versions s e)))
                refl start)

    -- An update that was applied is at its place, where nothing was or the installation was; the
    -- old installation is the backup, no other entry has changed, and in every state on the way the
    -- old installation was in its place or was the backup. It is assumed that `with_file_name`
    -- gives a path of that name, for the name of a version, and that there is an installation and
    -- no history of the directory yet.
    pub apply_prepared_update-IsApplied :
        (applied : AppliedUpdate) (disk1 : Disk N)
        → apply_prepared_update inspection paths is_version windows installation prepared
            transaction disk
          ≡ (ok applied, disk1)
        → IsApplied installation.replace_path transaction.prepared transaction.backup old
            (view disk)
            applied
            disk1
    apply_prepared_update-IsApplied applied disk1 e =
        (Ends-ok (λ a d. AreDistinct installation transaction × Applied a d) Failed _ apply_lem e).1

    -- After an update that fails the old installation is in its place or is the backup, as it was
    -- in every state on the way; and unless the error says that something could not be put back,
    -- all entries are as they were, or the update is in place with the old installation as the
    -- backup. It is assumed that `with_file_name` gives a path of that name, for the name of a
    -- version, and that there is an installation and no history of the directory yet.
    pub apply_prepared_update-IsFailed :
        (error : ApplyUpdateError) (disk1 : Disk N)
        → apply_prepared_update inspection paths is_version windows installation prepared
            transaction disk
          ≡ (err error, disk1)
        → IsFailed installation.replace_path transaction.prepared transaction.backup old
            (view disk)
            error
            disk1
    apply_prepared_update-IsFailed error disk1 e =
        Ends-err (λ a d. AreDistinct installation transaction × Applied a d) Failed _ apply_lem e
