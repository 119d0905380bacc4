-- ===== src/Credential/Types.antt =====
-- The errors, the interface of a store of credentials, and the store of the system over a keyring.
use ssh_mountmate.Action.{Action}
use ssh_mountmate.Base.{Option, List, ◌++◌, Result, ok, err}
use ssh_mountmate.Text.{Text, codes}
use ssh_mountmate.Model.{ServerConfig}

pub data CredentialKind : Type 0 where
  password key_passphrase : CredentialKind

abbrev pub suffix : CredentialKind → Text
suffix password = codes "password"
suffix key_passphrase = codes "key-passphrase"

pub data CredentialError : Type 0 where
  unavailable verification missing reveal obscure persistence rollback : Text → CredentialError

abbrev pub app_id : Text
app_id = codes "ssh-mountmate"

unfoldable pub credential_reference : Text → CredentialKind → Text
credential_reference server_id kind =
    app_id ++ (codes ":" ++ (server_id ++ (codes ":" ++ suffix kind)))

-- What an operation on a store in some state gives, and the state that it leaves.
abbrev pub M : Type 0 → Type 0 → Type 0
M S A = Action CredentialError S A

-- `dyn CredentialStore`, whose implementation has a state.
pub record CredentialStore (S : Type 0) : Type 0 where
  pub set : Text → Text → M S Unit
  pub get : Text → M S Text
  pub delete : Text → M S Unit

pub data KeyringError : Type 0 where
  no_entry : KeyringError
  other : Text → KeyringError

-- What the crate `keyring` does for the service of the program.
pub record Keyring (S : Type 0) : Type 0 where
  pub new_entry : Text → Result KeyringError Unit
  pub set_password : Text → Text → S → Result KeyringError Unit × S
  pub get_password : Text → S → Result KeyringError Text × S
  pub delete_credential : Text → S → Result KeyringError Unit × S

-- `error.to_string()`, whose text for a missing entry belongs to the crate.
abbrev pub to_string : KeyringError → Text
to_string no_entry = codes "No matching entry found in secure storage"
to_string (other message) = message

abbrev pub to_unavailable :
    {A S : Type 0} → Result KeyringError A × S → Result CredentialError A × S
to_unavailable (ok a, s) = (ok a, s)
to_unavailable (err e, s) = (err (unavailable (to_string e)), s)

abbrev pub read_answer :
    {S : Type 0} → Text → Result KeyringError Text × S → Result CredentialError Text × S
read_answer reference (ok secret, s) = (ok secret, s)
read_answer reference (err no_entry, s) = (err (missing reference), s)
read_answer reference (err (other message), s) = (err (unavailable message), s)

abbrev pub deleted_answer :
    {S : Type 0} → Result KeyringError Unit × S → Result CredentialError Unit × S
deleted_answer (ok u, s) = (ok tt, s)
deleted_answer (err no_entry, s) = (ok tt, s)
deleted_answer (err (other message), s) = (err (unavailable message), s)

-- `Self::entry(reference)?`, and then the operation.
abbrev pub with_entry : {A S : Type 0} → Result KeyringError Unit → M S A → M S A
with_entry (ok u) m s = m s
with_entry (err e) m s = (err (unavailable (to_string e)), s)

abbrev pub system_store : {S : Type 0} → Keyring S → CredentialStore S
system_store keyring = record {
  set = λ reference secret.
      with_entry (keyring.new_entry reference)
        (λ s. to_unavailable (keyring.set_password reference secret s));
  get = λ reference.
      with_entry (keyring.new_entry reference)
        (λ s. read_answer reference (keyring.get_password reference s));
  delete = λ reference.
      with_entry (keyring.new_entry reference)
        (λ s. deleted_answer (keyring.delete_credential reference s));
}

pub record CredentialChange : Type 0 where
  pub reference : Text
  pub previous : Option Text

pub data CredentialMigrationKind : Type 0 where
  to_system to_obscure : CredentialMigrationKind

pub record CredentialMigration : Type 0 where
  pub candidate : ServerConfig
  pub changes : List CredentialChange
  pub retired_references : List Text
  pub kind : CredentialMigrationKind

pub record CredentialCommit : Type 0 where
  pub server : ServerConfig
  pub retired_references : List Text
