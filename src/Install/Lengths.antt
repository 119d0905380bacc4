-- ===== src/Install/Lengths.antt =====
-- How long the names of a transaction are.
use ssh_mountmate.Base.{
  ◌≡◌, ap, suc, ◌+◌, Bool, true, false, Option, none, some, [], ◌∷◌, ◌++◌, arith, ForSome, length,
  length-append, ◌==◌, ==_iff, if◌then◌else◌, all, Bool-cases, inl, inr, &&-eq_true,
}
use ssh_mountmate.Text.{
  Text, codes, text_eq, text_eq_sound, strip_prefix, strip_suffix, is_ascii_hexdigit,
}
use ssh_mountmate.Install.{
  InstallKind, standalone_executable, directory_bundle, mac_application_bundle, split_last_dot,
  with_stem, stem_and_extension, with_extension, transaction_name_parts, transaction_file_name,
  is_token, token_of, holds, token_in, valid_prepared_name,
}

abbrev IsSplit : Text → Text × Text → Type 0
IsSplit name parts = length name ≡ suc (length parts.0 + length parts.1)

length-split_last_dot : (name : Text) → ForSome (IsSplit name) (split_last_dot name)
length-split_last_dot [] = tt
length-split_last_dot (c ∷ s) = go (split_last_dot s) (length-split_last_dot s)
  where
    here : (b : Bool) → ForSome (IsSplit (c ∷ s)) (if b then some ([], s) else none)
    here true = omega arith
    here false = tt

    go :
        (rest : Option (Text × Text))
        → ForSome (IsSplit s) rest
        → ForSome (IsSplit (c ∷ s)) (elim rest [
          | some parts ↦ some (c ∷ parts.0, parts.1)
          | none ↦ if c == b'.' then some ([], s) else none
        ])
    go (some parts) h = omega (arith, h)
    go none h = here (c == b'.')

length-stem_and_extension : (name : Text) → ForSome (IsSplit name) (stem_and_extension name)
unfolding stem_and_extension
length-stem_and_extension name = go (text_eq name (codes ".."))
  where
    stem :
        (o : Option (Text × Text)) → ForSome (IsSplit name) o → ForSome (IsSplit name) (with_stem o)
    stem none h = tt
    stem (some ([], extension)) h = tt
    stem (some (c ∷ s, extension)) h = h

    go : (b : Bool) → ForSome (IsSplit name) (if b then none else with_stem (split_last_dot name))
    go true = tt
    go false = stem (split_last_dot name) (length-split_last_dot name)

abbrev IsSized : Text → Text → Text × Text → Type 0
IsSized name phase parts = length parts.0 + length parts.1 ≡ length name + length phase + 16

length-with_extension :
    (name phase : Text) (o : Option (Text × Text))
    → ForSome (IsSplit name) o
    → IsSized name phase (with_extension name phase o)
length-with_extension name phase (some (stem, extension)) h =
    omega (arith, h, length-append stem (codes ".ssh-mountmate-" ++ phase))
length-with_extension name phase none h =
    omega (arith, length-append name (codes ".ssh-mountmate-" ++ phase))

length-transaction_name_parts :
    (name : Text) (kind : InstallKind) (phase : Text)
    → IsSized name phase (transaction_name_parts name kind phase)
unfolding transaction_name_parts
length-transaction_name_parts name standalone_executable phase =
    length-with_extension name phase (stem_and_extension name) (length-stem_and_extension name)
length-transaction_name_parts name mac_application_bundle phase =
    length-with_extension name phase (stem_and_extension name) (length-stem_and_extension name)
length-transaction_name_parts name directory_bundle phase = length-with_extension name phase none tt

length-strip_prefix :
    (s p : Text) → ForSome (λ (r : Text). length s ≡ length p + length r) (strip_prefix s p)
unfolding strip_prefix
length-strip_prefix s [] = omega arith
length-strip_prefix [] (c ∷ p) = tt
length-strip_prefix (d ∷ s) (c ∷ p) = go (c == d) (strip_prefix s p) (length-strip_prefix s p)
  where
    go :
        (b : Bool) (o : Option Text)
        → ForSome (λ (r : Text). length s ≡ length p + length r) o
        → ForSome (λ (r : Text). suc (length s) ≡ suc (length p) + length r) (if b then o else none)
    go true (some r) h = omega (arith, h)
    go true none h = tt
    go false o h = tt

length-strip_suffix :
    (s p : Text) → ForSome (λ (r : Text). length s ≡ length r + length p) (strip_suffix s p)
unfolding strip_suffix
length-strip_suffix [] [] = omega arith
length-strip_suffix [] (c ∷ p) = tt
length-strip_suffix (c ∷ s) p = elim (Bool-cases (text_eq (c ∷ s) p)) [
  | inl t ↦ rw t (omega (arith, ap length (text_eq_sound (c ∷ s) p t)))
  | inr f ↦ rw f (go (strip_suffix s p) (length-strip_suffix s p))
]
  where
    go :
        (o : Option Text)
        → ForSome (λ (r : Text). length s ≡ length r + length p) o
        → ForSome
            (λ (r : Text). suc (length s) ≡ length r + length p)
            (elim o [ none ↦ none | some r ↦ some (c ∷ r) ])
    go none h = tt
    go (some r) h = omega (arith, h)

-- What a token and a suffix take.
length-token_of :
    (suffix candidate : Text)
    → holds is_token (token_of suffix candidate) ≡ true
    → length candidate ≡ 32 + length suffix
length-token_of [] candidate h =
    let (a, b) = &&-eq_true (length candidate == 32) (all is_ascii_hexdigit candidate) h in
    omega (arith, (==_iff (length candidate) 32).0 a)
length-token_of (c ∷ suffix) candidate h =
    go (strip_suffix candidate (c ∷ suffix)) (length-strip_suffix candidate (c ∷ suffix)) h
  where
    go :
        (o : Option Text)
        → ForSome (λ (r : Text). length candidate ≡ length r + suc (length suffix)) o
        → holds is_token o ≡ true
        → length candidate ≡ 32 + suc (length suffix)
    go none k l = absurd (cc)
    go (some r) k l =
        let (a, b) = &&-eq_true (length r == 32) (all is_ascii_hexdigit r) l in
        omega (arith, k, (==_iff (length r) 32).0 a)

length-token_in :
    (suffix prefix candidate : Text) (o : Option Text)
    → ForSome (λ (r : Text). length candidate ≡ length prefix + length r) o
    → token_in suffix o ≡ true
    → length candidate ≡ length prefix + 32 + length suffix
length-token_in suffix prefix candidate none h k = absurd (cc)
length-token_in suffix prefix candidate (some r) h k = omega (arith, h, length-token_of suffix r k)

pub length-valid_prepared_name :
    (candidate name : Text) (kind : InstallKind)
    → valid_prepared_name candidate name kind ≡ true
    → length candidate ≡ length name + 57
unfolding valid_prepared_name
length-valid_prepared_name candidate name kind h = omega (
  arith,
  length-transaction_name_parts name kind (codes "prepared"),
  length-append (transaction_name_parts name kind (codes "prepared")).0 (codes "-"),
  length-token_in (transaction_name_parts name kind (codes "prepared")).1
      ((transaction_name_parts name kind (codes "prepared")).0 ++ codes "-") candidate _
      (length-strip_prefix candidate
        ((transaction_name_parts name kind (codes "prepared")).0 ++ codes "-"))
      h,
)

pub length-backup :
    (name : Text) (kind : InstallKind)
    → length (transaction_file_name name kind (codes "backup") none) ≡ length name + 22
unfolding transaction_file_name
length-backup name kind = omega (
  arith,
  length-transaction_name_parts name kind (codes "backup"),
  length-append (transaction_name_parts name kind (codes "backup")).0
      (transaction_name_parts name kind (codes "backup")).1,
)
