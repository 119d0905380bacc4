-- ===== src/Install/Planned.antt =====
-- The paths that are planned for a transaction, and those that an interrupted one leaves.
use ssh_mountmate.Base.{◌≡◌, ap, true, none, some, [], ◌∷◌, ◌++◌, ok, append-nil}
use ssh_mountmate.Text.{Text, codes, text_eq_refl, strip_prefix}
use ssh_mountmate.Text.Affixes.{strip_suffix-append, strip_prefix-append}
use ssh_mountmate.Action.{Ends, Ends-ok}
use ssh_mountmate.Install.{
  InstallKind, InstallLayout, TransactionPaths, TransactionPlanError, Paths, Inspection, Disk,
  Metadata, not_found, unreadable, found, is_token, token_of, token_in, transaction_name_parts,
  transaction_file_name, joined_name, valid_prepared_name, validate_transaction_shape,
  plan_transaction_paths, plan_in, Plan, usable_name, with_name, unless_there,
}

token_of-append : (suffix token : Text) → token_of suffix (token ++ suffix) ≡ some token
token_of-append [] token = ap some (append-nil token)
token_of-append (c ∷ suffix) token = strip_suffix-append token (c ∷ suffix)

-- The name that is planned passes the test of names.
valid-planned :
    (name : Text) (kind : InstallKind) (token : Text)
    → is_token token ≡ true
    → valid_prepared_name
        (transaction_file_name name kind (codes "prepared") (some token))
        name
        kind
      ≡ true
unfolding valid_prepared_name transaction_file_name
valid-planned name kind token h = go (transaction_name_parts name kind (codes "prepared"))
  where
    go :
        (parts : Text × Text)
        → token_in parts.1 (strip_prefix (joined_name (some token) parts) (parts.0 ++ codes "-"))
          ≡ true
    go (prefix, suffix) =
        rw (strip_prefix-append prefix (codes "-") (token ++ suffix))
          (unfold strip_prefix in rw (token_of-append suffix token) h)

abbrev backup_name : InstallKind → Text → Text
backup_name kind name = transaction_file_name name kind (codes "backup") none

abbrev prepared_name : InstallKind → Text → Text → Text
prepared_name kind token name = transaction_file_name name kind (codes "prepared") (some token)

module _ {N : Type 0} (inspection : Inspection N) (paths : Paths) (layout : InstallLayout)
    (token parent name : Text) (is_hex : is_token token ≡ true)
    (parent_of : paths.parent layout.replace_path ≡ some parent)
    (name_of : paths.file_name layout.replace_path ≡ some name)
    (backup_parent : paths.parent (paths.join parent (backup_name layout.kind name)) ≡ some parent)
    (prepared_parent : paths.parent (paths.join parent (prepared_name layout.kind token name))
      ≡ some parent)
    (backup_file : paths.file_name (paths.join parent (backup_name layout.kind name))
      ≡ some (backup_name layout.kind name))
    (prepared_file : paths.file_name (paths.join parent (prepared_name layout.kind token name))
      ≡ some (prepared_name layout.kind token name)) where
  abbrev planned : TransactionPaths
  planned = record {
    prepared = paths.join parent (prepared_name layout.kind token name);
    backup = paths.join parent (backup_name layout.kind name);
  }

  shaped : validate_transaction_shape paths layout planned ≡ true
  unfolding validate_transaction_shape
  shaped = rw parent_of (
      rw name_of (
        rw prepared_parent (
          rw backup_parent (
            rw backup_file (
              rw prepared_file (
                rw (text_eq_refl parent) (
                  rw (text_eq_refl (backup_name layout.kind name))
                    (valid-planned name layout.kind token is_hex))))))))

  abbrev IsShaped : TransactionPaths → Disk N → Type 0
  IsShaped transaction disk = validate_transaction_shape paths layout transaction ≡ true

  abbrev Anything : TransactionPlanError → Disk N → Type 0
  Anything e disk = Unit {0}

  plan_lem :
      (disk : Disk N)
      → Ends IsShaped Anything (plan_transaction_paths inspection paths layout token disk)
  unfolding plan_transaction_paths plan_in
  plan_lem disk = rw parent_of (rw name_of (go name (shaped)))
    where
      free :
          (path : Text) (error : TransactionPlanError) (act : Plan N TransactionPaths)
          (m : Metadata)
          → Ends IsShaped Anything (act disk)
          → Ends IsShaped Anything (unless_there inspection paths path error act m disk)
      free path error act not_found h = h
      free path error act (unreadable source) h = tt
      free path error act (found f d l) h = tt

      go :
          (n : Text)
          → validate_transaction_shape paths layout (record {
            prepared = paths.join parent (prepared_name layout.kind token n);
            backup = paths.join parent (backup_name layout.kind n);
          })
            ≡ true
          → Ends IsShaped Anything (
              with_name inspection paths layout
                (plan_in inspection paths layout token)
                (some parent)
                (usable_name (some n))
                disk)
      go [] h = tt
      go (c ∷ n) h =
          free (paths.join parent (backup_name layout.kind (c ∷ n))) _ _
            (inspection.symlink_metadata disk.entries
              (paths.join parent (backup_name layout.kind (c ∷ n))))
            (free (paths.join parent (prepared_name layout.kind token (c ∷ n))) _ _
              (inspection.symlink_metadata disk.entries
                (paths.join parent (prepared_name layout.kind token (c ∷ n))))
              h)

  -- The paths that are planned for a transaction have the shape that is checked before it is
  -- applied. It is assumed that the token has 32 hexadecimal digits, and that a path that was joined
  -- has its parent and its name.
  pub validate_transaction_shape-plan_transaction_paths :
      (disk disk1 : Disk N) (transaction : TransactionPaths)
      → plan_transaction_paths inspection paths layout token disk ≡ (ok transaction, disk1)
      → validate_transaction_shape paths layout transaction ≡ true
  validate_transaction_shape-plan_transaction_paths disk disk1 transaction e =
      Ends-ok IsShaped Anything _ (plan_lem disk) e
