-- ===== src/Credential/Migrations.antt =====
-- The migration of a connection's secrets to the store and back, and the removal of its secrets.
use ssh_mountmate.Action.{◌>>=◌, pure, throw, lift, next, next_or}
use ssh_mountmate.Base.{
  not, Option, none, some, List, [], ◌∷◌, ◌++◌, keep_if, Result, if◌then◌else◌,
}
use ssh_mountmate.Text.{Text, is_empty}
use ssh_mountmate.Model.{ServerConfig}
use ssh_mountmate.Credential.Types.{
  CredentialKind, password, key_passphrase, CredentialError, credential_reference, M,
  CredentialStore, CredentialChange, to_system, to_obscure, CredentialMigration,
}
use ssh_mountmate.Credential.Changes.{
  read_previous, replace_verified, store_verified, rollback_changes,
}

-- What rclone's `reveal` and `obscure` give.
abbrev pub Conversion : Type 0
Conversion = Text → Result CredentialError Text

abbrev pub with_secret : Text → Option Text → List (Text × Text) → List (Text × Text)
with_secret reference none more = more
with_secret reference (some secret) more = (reference, secret) ∷ more

abbrev pub references : ServerConfig → List Text
references server = server.password_credential ∷ server.key_pass_credential ∷ []

abbrev pub used_references : List Text → List Text
used_references = keep_if (λ reference. not (is_empty reference))

module _ {S : Type 0} (store : CredentialStore S) where
  -- The reference of the migrated secret, and the changes so far.
  unfoldable pub migrate_obscured_field :
      Conversion
      → Text
      → Text
      → Text
      → CredentialKind
      → List CredentialChange
      → M S (Text × List CredentialChange)
  unfolding replace_verified
  migrate_obscured_field revealed obscured reference server_id kind changes s =
      if not (is_empty reference)
      then next (λ secret. pure (reference, changes)) (store.get reference s)
      else if is_empty obscured
      then pure (reference, changes) s
      else next
          (λ plaintext s1.
            next (λ change. pure (credential_reference server_id kind, changes ++ (change ∷ [])))
              (replace_verified store (credential_reference server_id kind) plaintext s1))
          (lift (revealed obscured) s)

  -- The changes that were made are undone, and the error is returned, or that of undoing them.
  unfoldable pub abort : {A : Type 0} → List CredentialChange → CredentialError → M S A
  unfolding rollback_changes
  abort changes error s = next (λ u. throw error) (rollback_changes store changes s)

  unfoldable pub migrate_key_passphrase :
      Conversion → ServerConfig → Text × List CredentialChange → M S CredentialMigration
  unfolding migrate_obscured_field abort
  migrate_key_passphrase revealed server first s =
      next_or
        (λ second. pure (record {
          candidate = record server {
            password_credential = first.0;
            key_pass_credential = second.0;
          };
          changes = second.1;
          retired_references = [];
          kind = to_system;
        }))
        (abort first.1)
        (migrate_obscured_field revealed server.key_pass_obscured server.key_pass_credential
          server.id key_passphrase first.1 s)

  unfoldable pub prepare_server_to_system : Conversion → ServerConfig → M S CredentialMigration
  unfolding migrate_obscured_field abort migrate_key_passphrase
  prepare_server_to_system revealed server s =
      next_or (migrate_key_passphrase revealed server) (abort []) (
        migrate_obscured_field revealed server.password_obscured server.password_credential
          server.id password [] s)

  -- `CredentialMigration::rollback`
  unfoldable pub rollback_migration : CredentialMigration → M S Unit
  unfolding rollback_changes
  rollback_migration migration = rollback_changes store migration.changes

  -- The obscured secret that the field has afterwards.
  unfoldable pub hydrate_field : Conversion → Text → Text → M S Text
  hydrate_field obscured_by reference obscured s =
      if is_empty reference
      then pure obscured s
      else next (λ plaintext. lift (obscured_by plaintext)) (store.get reference s)

  unfoldable pub hydrate_server_from_system : Conversion → ServerConfig → M S ServerConfig
  unfolding hydrate_field
  hydrate_server_from_system obscured_by server = do
    password_obscured ←
        hydrate_field obscured_by server.password_credential server.password_obscured
    key_pass_obscured ←
        hydrate_field obscured_by server.key_pass_credential server.key_pass_obscured
    pure (record server {
      password_obscured = password_obscured;
      key_pass_obscured = key_pass_obscured;
    })

  unfoldable pub prepare_server_to_obscure : Conversion → ServerConfig → M S CredentialMigration
  unfolding hydrate_server_from_system
  prepare_server_to_obscure obscured_by server s =
      next
        (λ candidate. pure (record {
          candidate = candidate;
          changes = [];
          retired_references = used_references (references candidate);
          kind = to_obscure;
        }))
        (hydrate_server_from_system obscured_by server s)

module _ {S : Type 0} (store : CredentialStore S) where
  -- The references that have a secret, with it.
  unfoldable pub read_existing : List Text → M S (List (Text × Text))
  unfolding read_previous
  read_existing [] s = pure [] s
  read_existing (reference ∷ rest) s =
      next
        (λ previous.
          λ s1. next (λ more. pure (with_secret reference previous more)) (read_existing rest s1))
        (read_previous store reference s)

  -- All that may be gone is written again. The last error of this, if there is one, is returned.
  unfoldable pub restore_deleted : List (Text × Text) → CredentialError → M S Unit
  unfolding store_verified
  restore_deleted [] error s = throw error s
  restore_deleted ((reference, secret) ∷ rest) error s =
      next_or (λ u. restore_deleted rest error) (restore_deleted rest)
        (store_verified store reference secret s)

  -- The loop over the existing references, with those that it has deleted.
  unfoldable pub delete_existing : List (Text × Text) → List (Text × Text) → M S Unit
  unfolding restore_deleted
  delete_existing deleted [] s = pure tt s
  delete_existing deleted (entry ∷ rest) s =
      next_or (λ u. delete_existing (deleted ++ (entry ∷ [])) rest)
        (restore_deleted (deleted ++ (entry ∷ []))) (store.delete entry.0 s)

  unfoldable pub delete_credential_references : List Text → M S Unit
  unfolding read_existing delete_existing
  delete_credential_references references s =
      next (delete_existing []) (read_existing (used_references references) s)

  unfoldable pub delete_server_credentials : ServerConfig → M S Unit
  unfolding delete_credential_references
  delete_server_credentials server = delete_credential_references (references server)
