-- ===== src/Credential/Commits.antt =====
-- A migration is finished only for the record that was stored.
use ssh_mountmate.Action.{pure, lift, next}
use ssh_mountmate.Base.{Bool, true, false, not, ◌&&◌, ◌||◌, [], Result, ok, refuse_if, ◌>>◌}
use ssh_mountmate.Text.{Text, codes, text_eq, is_empty}
use ssh_mountmate.Model.{ServerConfig}
use ssh_mountmate.Credential.Types.{
  CredentialError, M, CredentialStore, persistence, CredentialMigrationKind, to_system, to_obscure,
  CredentialMigration, CredentialCommit,
}
use ssh_mountmate.Credential.Migrations.{
  references, used_references, Conversion, prepare_server_to_system, prepare_server_to_obscure,
}

abbrev pub kind_eq : CredentialMigrationKind → CredentialMigrationKind → Bool
kind_eq to_system to_system = true
kind_eq to_system to_obscure = false
kind_eq to_obscure to_system = false
kind_eq to_obscure to_obscure = true

-- One round of the loop of `ensure_persisted_candidate`.
unfoldable pub ensure_field : Text → Text → Text → Text → Text → Result CredentialError Unit
ensure_field field staged_reference persisted_reference staged_obscured persisted_obscured = do
  refuse_if (not (text_eq staged_reference persisted_reference)) (persistence field)
  refuse_if (not (is_empty staged_obscured) && not (text_eq staged_obscured persisted_obscured))
      (persistence field)

unfoldable pub ensure_persisted_candidate :
    CredentialMigration → ServerConfig → CredentialMigrationKind → Result CredentialError Unit
unfolding ensure_field
ensure_persisted_candidate migration persisted expected_kind = do
  refuse_if
      (not (kind_eq migration.kind expected_kind)
        || not (text_eq persisted.id migration.candidate.id))
      (persistence (codes "server"))
  ensure_field (codes "password") migration.candidate.password_credential
      persisted.password_credential migration.candidate.password_obscured
      persisted.password_obscured
  ensure_field (codes "key passphrase") migration.candidate.key_pass_credential
      persisted.key_pass_credential migration.candidate.key_pass_obscured
      persisted.key_pass_obscured

unfoldable pub finalize_to_system :
    CredentialMigration → ServerConfig → Result CredentialError ServerConfig
unfolding ensure_persisted_candidate
finalize_to_system migration persisted = do
  ensure_persisted_candidate migration persisted to_system
  ok persisted

-- A reference that the candidate has is retired, and cleared in the record.
abbrev pub cleared : Text → Text → Text
cleared staged persisted = elim (is_empty staged) [ true ↦ persisted | false ↦ [] ]

abbrev pub commit_of : CredentialMigration → ServerConfig → CredentialCommit
commit_of migration persisted = record {
  server = record persisted {
    password_credential =
        cleared migration.candidate.password_credential persisted.password_credential;
    key_pass_credential =
        cleared migration.candidate.key_pass_credential persisted.key_pass_credential;
  };
  retired_references = used_references (references migration.candidate);
}

unfoldable pub finalize_to_obscure :
    CredentialMigration → ServerConfig → Result CredentialError CredentialCommit
unfolding ensure_persisted_candidate
finalize_to_obscure migration persisted = do
  ensure_persisted_candidate migration persisted to_obscure
  ok (commit_of migration persisted)

module _ {S : Type 0} (store : CredentialStore S) where
  unfoldable pub migrate_server_to_system : Conversion → ServerConfig → M S ServerConfig
  unfolding prepare_server_to_system finalize_to_system
  migrate_server_to_system revealed server s =
      next (λ migration. lift (finalize_to_system migration migration.candidate))
        (prepare_server_to_system store revealed server s)

  unfoldable pub migrate_server_to_obscure : Conversion → ServerConfig → M S ServerConfig
  unfolding prepare_server_to_obscure finalize_to_obscure
  migrate_server_to_obscure obscured_by server s =
      next
        (λ migration s1.
          next (λ commit. pure commit.server)
            (lift (finalize_to_obscure migration migration.candidate) s1))
        (prepare_server_to_obscure store obscured_by server s)
