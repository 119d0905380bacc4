-- ===== src/Install/Distinct.antt =====
-- The paths of a transaction that passes the checks are different.
use ssh_mountmate.Base.{
  any, ◌≡◌, sym, ap, ◌∙◌, ℕ, ◌+◌, Bool, true, false, ◌&&◌, ◌||◌, not, Option, none, some, [], ◌∷◌,
  ◌++◌, arith, ForSome, length, ◌==◌, ==_iff, Bool-cases, inl, inr, &&-eq_true,
}
use ssh_mountmate.Text.{
  Text, codes, text_eq, text_eq_sound, text_eq-false, strip_prefix, strip_suffix,
}
use ssh_mountmate.Install.{
  InstallKind, standalone_executable, directory_bundle, mac_application_bundle, InstallLayout,
  TransactionPaths, Paths, stem_and_extension, with_extension, transaction_name_parts, holds,
  token_in, valid_prepared_name, name_eq, unwrap_or_default, shape_for, validate_transaction_shape,
  valid_versioned_executable_name,
}
use ssh_mountmate.Install.Lengths.{length-valid_prepared_name, length-backup}

abbrev first : Text → ℕ
first [] = 0
first (c ∷ s) = c

first-strip_prefix :
    (s : Text) (c : ℕ) (p : Text) → ForSome (λ (r : Text). first s ≡ c) (strip_prefix s (c ∷ p))
unfolding strip_prefix
first-strip_prefix [] c p = tt
first-strip_prefix (d ∷ s) c p = elim (Bool-cases (c == d)) [
  | inl t ↦ rw t (go (strip_prefix s p) (sym ((==_iff c d).0 t)))
  | inr f ↦ rw f tt
]
  where
    go : (o : Option Text) → d ≡ c → ForSome (λ (r : Text). d ≡ c) o
    go none h = tt
    go (some r) h = h

first-with_extension :
    (candidate name phase : Text) (o : Option (Text × Text))
    → ForSome
        (λ (r : Text). first candidate ≡ b'.')
        (strip_prefix candidate ((with_extension name phase o).0 ++ codes "-"))
first-with_extension candidate name phase (some (stem, extension)) =
    first-strip_prefix candidate b'.' _
first-with_extension candidate name phase none = first-strip_prefix candidate b'.' _

first-valid_prepared_name :
    (candidate name : Text) (kind : InstallKind)
    → valid_prepared_name candidate name kind ≡ true
    → first candidate ≡ b'.'
unfolding valid_prepared_name
first-valid_prepared_name candidate name kind h =
    go
      (strip_prefix candidate
        ((transaction_name_parts name kind (codes "prepared")).0 ++ codes "-"))
      (dotted kind) h
  where
    dotted :
        (k : InstallKind)
        → ForSome
            (λ (r : Text). first candidate ≡ b'.')
            (strip_prefix candidate
              ((transaction_name_parts name k (codes "prepared")).0 ++ codes "-"))
    dotted standalone_executable =
        unfold transaction_name_parts in
        first-with_extension candidate name (codes "prepared") (stem_and_extension name)
    dotted mac_application_bundle =
        unfold transaction_name_parts in
        first-with_extension candidate name (codes "prepared") (stem_and_extension name)
    dotted directory_bundle =
        unfold transaction_name_parts in first-with_extension candidate name (codes "prepared") none

    go :
        (o : Option Text)
        → ForSome (λ (r : Text). first candidate ≡ b'.') o
        → token_in (transaction_name_parts name kind (codes "prepared")).1 o ≡ true
        → first candidate ≡ b'.'
    go none k l = absurd (cc)
    go (some r) k l = k

first-valid_versioned_executable_name :
    (is_version : Text → Bool) (name : Text)
    → valid_versioned_executable_name is_version name ≡ true
    → first name ≡ b'S'
unfolding valid_versioned_executable_name
first-valid_versioned_executable_name is_version name h =
    go (strip_prefix name (codes "SSHMountMate-v"))
      (first-strip_prefix name b'S' (codes "SHMountMate-v")) h
  where
    go :
        (o : Option Text)
        → ForSome (λ (r : Text). first name ≡ b'S') o
        → elim o [
          | none ↦ false
          | some rest ↦
              holds
                (λ version.
                  is_version version
                  && not (any (λ c. c == b'/' || (c == b'\\' || c == b':')) version))
                (strip_suffix rest (codes ".exe"))
        ]
          ≡ true
        → first name ≡ b'S'
    go none k l = absurd (cc)
    go (some r) k l = k

-- The installation, the prepared update and the backup have different paths.
abbrev pub AreDistinct : InstallLayout → TransactionPaths → Type 0
AreDistinct installation transaction =
    (text_eq installation.replace_path transaction.prepared ≡ false)
    × (text_eq installation.replace_path transaction.backup ≡ false)
    × (text_eq transaction.prepared transaction.backup ≡ false)

module _ (paths : Paths) where
  abbrev name_of : Text → Text
  name_of path = unwrap_or_default (paths.file_name path)

  named : (o : Option Text) (t : Text) → name_eq o t ≡ true → unwrap_or_default o ≡ t
  named none t h = absurd (cc)
  named (some s) t h = text_eq_sound s t h

  -- What the shape says of the names.
  abbrev HasShape : InstallLayout → TransactionPaths → Type 0
  HasShape installation transaction =
      (length (name_of transaction.backup) ≡ length (name_of installation.replace_path) + 22)
      × (length (name_of transaction.prepared) ≡ length (name_of installation.replace_path) + 57)
      × (first (name_of transaction.prepared) ≡ b'.')

  shape_lem :
      (installation : InstallLayout) (transaction : TransactionPaths)
      → validate_transaction_shape paths installation transaction ≡ true
      → HasShape installation transaction
  unfolding validate_transaction_shape
  shape_lem installation transaction h =
      go (paths.parent installation.replace_path) (paths.file_name installation.replace_path) h
    where
      go :
          (parent name : Option Text)
          → shape_for paths parent name installation.kind transaction ≡ true
          → (length (name_of transaction.backup) ≡ length (unwrap_or_default name) + 22)
            × (length (name_of transaction.prepared) ≡ length (unwrap_or_default name) + 57)
            × (first (name_of transaction.prepared) ≡ b'.')
      go none name k = absurd (cc)
      go (some parent) none k = absurd (cc)
      go (some parent) (some name) k =
          let (a, k1) = &&-eq_true _ _ k in
          let (b, k2) = &&-eq_true _ _ k1 in
          let (c, d) = &&-eq_true _ _ k2 in
          (
            ap length (named (paths.file_name transaction.backup) _ c)
                ∙ length-backup name installation.kind,
            length-valid_prepared_name (name_of transaction.prepared) name installation.kind d,
            first-valid_prepared_name (name_of transaction.prepared) name installation.kind d,
          )

  pub validate_transaction_shape-AreDistinct :
      (installation : InstallLayout) (transaction : TransactionPaths)
      → validate_transaction_shape paths installation transaction ≡ true
      → AreDistinct installation transaction
  validate_transaction_shape-AreDistinct installation transaction h =
      let shape = shape_lem installation transaction h in
      (
        text_eq-false _ _
            (λ e. omega (arith, shape.0, shape.1, ap (λ (p : Text). length (name_of p)) e)),
        text_eq-false _ _
            (λ e. omega (arith, shape.0, shape.1, ap (λ (p : Text). length (name_of p)) e)),
        text_eq-false _ _
            (λ e. omega (arith, shape.0, shape.1, ap (λ (p : Text). length (name_of p)) e)),
      )

  -- A new name starts with another character than the name of a prepared update.
  pub validate_transaction_shape-fresh :
      (is_version : Text → Bool) (installation : InstallLayout) (transaction : TransactionPaths)
      (path name : Text)
      → validate_transaction_shape paths installation transaction ≡ true
      → valid_versioned_executable_name is_version name ≡ true
      → paths.file_name path ≡ some name
      → text_eq path transaction.prepared ≡ false
  validate_transaction_shape-fresh is_version installation transaction path name h k l =
      let shape = shape_lem installation transaction h in
      text_eq-false _ _ (λ e. omega (
        arith,
        shape.2,
        first-valid_versioned_executable_name is_version name k,
        ap (λ (p : Text). first (name_of p)) e,
        ap (λ (o : Option Text). first (unwrap_or_default o)) l,
      ))
