-- ===== src/Credential/SystemStore.antt =====
-- `SystemCredentialStore` over a keyring is a store as the transactions need it.
use ssh_mountmate.Action.{Ends}
use ssh_mountmate.Base.{◌≡◌, refl, none, some, Result, ok, err, true}
use ssh_mountmate.Text.{Text}
use ssh_mountmate.Credential.{
  Keyring, KeyringError, no_entry, other, system_store, with_entry, to_unavailable, read_answer,
  deleted_answer, CredentialError, unavailable, to_string,
}
use ssh_mountmate.Credential.Faithful.{View, SameView, SameOthers, IsFaithful, is_missing}

-- Which entry an answer about a removal leaves.
abbrev pub LeavesEntry : Text → View → KeyringError → Type 0
LeavesEntry r w no_entry = w r ≡ none
LeavesEntry r w (other m) = Unit

-- What the keyring documents: it reads what it holds, `NoEntry` means that there is no entry, and
-- writing or removing an entry touches no other.
pub record IsKeyring {S : Type 0} (keyring : Keyring S) (view : S → View) : Type 0 where
  pub get_lem :
      (r : Text) (s : S)
      → Ends
          (λ x s1. (view s r ≡ some x) × SameView (view s) (view s1))
          (λ e s1. LeavesEntry r (view s) e × SameView (view s) (view s1))
          (keyring.get_password r s)
  pub set_lem :
      (r x : Text) (s : S)
      → Ends
          (λ u s1. SameOthers r (view s) (view s1))
          (λ e s1. SameOthers r (view s) (view s1))
          (keyring.set_password r x s)
  pub delete_lem :
      (r : Text) (s : S)
      → Ends
          (λ u s1. (view s1 r ≡ none) × SameOthers r (view s) (view s1))
          (λ e s1. LeavesEntry r (view s1) e × SameOthers r (view s) (view s1))
          (keyring.delete_credential r s)

-- An entry that cannot be made changes nothing.
with_entry_lem :
    {S A : Type 0} (P : A → S → Type 0) (Q : CredentialError → S → Type 0)
    (n : Result KeyringError (Unit {0})) (m : S → Result CredentialError A × S) (s : S)
    → Ends P Q (m s)
    → ((t : Text) → Q (unavailable t) s)
    → Ends P Q (with_entry n m s)
with_entry_lem P Q (ok u) m s h k = h
with_entry_lem P Q (err e) m s h k = k (to_string e)

module _ {S : Type 0} (keyring : Keyring S) (view : S → View)
    (documented : IsKeyring keyring view) where
  get_faithful :
      (r : Text) (s : S)
      → Ends
          (λ x s1. (view s r ≡ some x) × SameView (view s) (view s1))
          (λ e s1. (is_missing e ≡ true → view s r ≡ none) × SameView (view s) (view s1))
          ((system_store keyring).get r s)
  get_faithful r s =
      with_entry_lem _ _ (keyring.new_entry r) (λ t. read_answer r (keyring.get_password r t)) s
        (go (keyring.get_password r s) (documented.get_lem r s))
        (λ t. (λ f. absurd (cc), λ k. refl))
    where
      go :
          (q : Result KeyringError Text × S)
          → Ends
              (λ x s1. (view s r ≡ some x) × SameView (view s) (view s1))
              (λ e s1. LeavesEntry r (view s) e × SameView (view s) (view s1))
              q
          → Ends
              (λ x s1. (view s r ≡ some x) × SameView (view s) (view s1))
              (λ e s1. (is_missing e ≡ true → view s r ≡ none) × SameView (view s) (view s1))
              (read_answer r q)
      go (ok x, s1) h = h
      go (err no_entry, s1) h = (λ f. h.0, h.1)
      go (err (other m), s1) h = (λ f. absurd (cc), h.1)

  set_faithful :
      (r x : Text) (s : S)
      → Ends
          (λ u s1. SameOthers r (view s) (view s1))
          (λ e s1. SameOthers r (view s) (view s1))
          ((system_store keyring).set r x s)
  set_faithful r x s =
      with_entry_lem _ _ (keyring.new_entry r) (λ t. to_unavailable (keyring.set_password r x t)) s
        (go (keyring.set_password r x s) (documented.set_lem r x s)) (λ t k f. refl)
    where
      go :
          (q : Result KeyringError (Unit {0}) × S)
          → Ends
              (λ u s1. SameOthers r (view s) (view s1))
              (λ e s1. SameOthers r (view s) (view s1))
              q
          → Ends
              (λ u s1. SameOthers r (view s) (view s1))
              (λ e s1. SameOthers r (view s) (view s1))
              (to_unavailable q)
      go (ok v, s1) h = h
      go (err e, s1) h = h

  delete_faithful :
      (r : Text) (s : S)
      → Ends
          (λ u s1. (view s1 r ≡ none) × SameOthers r (view s) (view s1))
          (λ e s1. SameOthers r (view s) (view s1))
          ((system_store keyring).delete r s)
  delete_faithful r s =
      with_entry_lem _ _ (keyring.new_entry r) (λ t. deleted_answer (keyring.delete_credential r t))
        s (go (keyring.delete_credential r s) (documented.delete_lem r s)) (λ t k f. refl)
    where
      go :
          (q : Result KeyringError (Unit {0}) × S)
          → Ends
              (λ u s1. (view s1 r ≡ none) × SameOthers r (view s) (view s1))
              (λ e s1. LeavesEntry r (view s1) e × SameOthers r (view s) (view s1))
              q
          → Ends
              (λ u s1. (view s1 r ≡ none) × SameOthers r (view s) (view s1))
              (λ e s1. SameOthers r (view s) (view s1))
              (deleted_answer q)
      go (ok v, s1) h = h
      go (err no_entry, s1) h = h
      go (err (other m), s1) h = h.1

  -- Over a keyring that does what it documents, the store of the system reads what is in it,
  -- reports a secret as missing only where there is none, and touches one reference at a time.
  pub system_store-IsFaithful : IsFaithful (system_store keyring) view
  system_store-IsFaithful = record {
    get_lem = get_faithful;
    set_lem = set_faithful;
    delete_lem = delete_faithful;
  }
