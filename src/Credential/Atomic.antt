-- ===== src/Credential/Atomic.antt =====
-- `prepare_server_to_system` moves both secrets, or leaves the store as it was; what it has done is
-- undone by `rollback`.
use ssh_mountmate.Action.{Ends, Ends-next_or, Ends-ok, Ends-err}
use ssh_mountmate.Base.{◌≡◌, refl, sym, ◌∙◌, Bool, true, false, List, [], ok, err}
use ssh_mountmate.Text.{Text, is_empty}
use ssh_mountmate.Model.{ServerConfig}
use ssh_mountmate.Credential.{
  CredentialError, password, key_passphrase, credential_reference, CredentialStore,
  CredentialChange, CredentialMigration, Conversion, migrate_obscured_field, abort,
  migrate_key_passphrase, prepare_server_to_system, rollback_migration,
}
use ssh_mountmate.Credential.Faithful.{is_rollback, View, SameView, SameOthers, IsFaithful}
use ssh_mountmate.Credential.Undo.{undo}
use ssh_mountmate.Credential.Replaced.{rollback_changes_lem}
use ssh_mountmate.Credential.Migrated.{
  references_differ, MovedFor, IsMoved, NoneLost, IsUndone, IsField, abort_lem,
  migrate_obscured_field_lem,
}

-- Writing the key passphrase leaves the password where it is.
IsMoved-SameOthers :
    (revealed : Conversion) (id obscured before after : Text) (w v : View)
    → SameOthers (credential_reference id key_passphrase) w v
    → NoneLost w v
    → IsMoved revealed id password obscured before after w
    → IsMoved revealed id password obscured before after v
IsMoved-SameOthers revealed id obscured before after w v h kept =
    go (is_empty before) (is_empty obscured)
  where
    go :
        (b c : Bool)
        → MovedFor b c revealed id password obscured before after w
        → MovedFor b c revealed id password obscured before after v
    go false c (e, (x, l)) = (e, kept after x l)
    go true true k = k
    go true false (x, f, g, l) = (x, f, g, h after (rw g (references_differ id)) ∙ l)

-- Both secrets are in the store `w`, under the references of the candidate.
abbrev pub IsPrepared : Conversion → ServerConfig → CredentialMigration → View → Type 0
IsPrepared revealed server migration w =
    IsMoved revealed server.id password server.password_obscured server.password_credential
      migration.candidate.password_credential w
    × IsMoved revealed server.id key_passphrase server.key_pass_obscured server.key_pass_credential
        migration.candidate.key_pass_credential w
    × (migration.candidate ≡ record server {
      password_credential = migration.candidate.password_credential;
      key_pass_credential = migration.candidate.key_pass_credential;
    })

module _ {S : Type 0} (store : CredentialStore S) (view : S → View)
    (faithful : IsFaithful store view) where
  abbrev Prepared : Conversion → ServerConfig → View → CredentialMigration → S → Type 0
  Prepared revealed server w migration s =
      IsUndone store view faithful w migration.changes s
      × IsPrepared revealed server migration (view s)

  abbrev Unchanged : View → CredentialError → S → Type 0
  Unchanged w e s = is_rollback e ≡ false → SameView w (view s)

  migrate_key_passphrase_lem :
      (revealed : Conversion) (server : ServerConfig) (w v : View)
      (first : Text × List CredentialChange) (s : S)
      → IsField store view faithful revealed server.id password server.password_obscured
          server.password_credential w v first s
      → Ends
          (Prepared revealed server w)
          (Unchanged w)
          (migrate_key_passphrase store revealed server first s)
  unfolding migrate_key_passphrase
  migrate_key_passphrase_lem revealed server w v first s h =
      Ends-next_or _ _ _ _ _ (abort store first.1)
        (migrate_obscured_field store revealed server.key_pass_obscured server.key_pass_credential
          server.id key_passphrase first.1 s)
        (migrate_obscured_field_lem store view faithful w revealed server.key_pass_obscured
          server.key_pass_credential server.id key_passphrase first.1 s h.0)
        (λ second s1 k. (
          k.0,
          (
            IsMoved-SameOthers revealed server.id server.password_obscured
                server.password_credential first.0 (view s) (view s1) k.2 k.3 h.1,
            k.1,
            refl,
          ),
        ))
        (λ e s1 k. abort_lem store view faithful (Prepared revealed server w) w first.1 e s1 k)

  prepare_lem :
      (revealed : Conversion) (server : ServerConfig) (s : S)
      → Ends
          (Prepared revealed server (view s))
          (Unchanged (view s))
          (prepare_server_to_system store revealed server s)
  unfolding prepare_server_to_system
  prepare_lem revealed server s =
      Ends-next_or _ _ _ _ (migrate_key_passphrase store revealed server) (abort store [])
        (migrate_obscured_field store revealed server.password_obscured server.password_credential
          server.id password [] s)
        (migrate_obscured_field_lem store view faithful (view s) revealed server.password_obscured
          server.password_credential server.id password [] s (λ k. refl))
        (migrate_key_passphrase_lem revealed server (view s) (view s))
        (λ e s1 k.
          abort_lem store view faithful (Prepared revealed server (view s)) (view s) [] e s1 k)

  -- After a migration that succeeds, a secret that rclone had obscured, in a field without a
  -- reference, is in the store under the reference that the candidate has for it; a field that had
  -- a reference keeps it, and the store has a secret under it; a field without either stays so; and
  -- nothing else of the candidate differs from the connection.
  pub prepare_server_to_system-IsPrepared :
      (revealed : Conversion) (server : ServerConfig) (s s1 : S) (migration : CredentialMigration)
      → prepare_server_to_system store revealed server s ≡ (ok migration, s1)
      → IsPrepared revealed server migration (view s1)
  prepare_server_to_system-IsPrepared revealed server s s1 migration e =
      (Ends-ok (Prepared revealed server (view s)) (Unchanged (view s)) _
        (prepare_lem revealed server s) e).1

  -- A migration that fails leaves every secret of the store as it was, unless its error says that
  -- undoing a change has failed.
  pub prepare_server_to_system-error :
      (revealed : Conversion) (server : ServerConfig) (s s1 : S) (error : CredentialError)
      → prepare_server_to_system store revealed server s ≡ (err error, s1)
      → is_rollback error ≡ false
      → SameView (view s) (view s1)
  prepare_server_to_system-error revealed server s s1 error e =
      Ends-err (Prepared revealed server (view s)) (Unchanged (view s)) _
        (prepare_lem revealed server s) e

  -- If a migration succeeds and is rolled back with success, every secret of the store is as it
  -- was before the migration.
  pub rollback-prepare_server_to_system :
      (revealed : Conversion) (server : ServerConfig) (s s1 s2 : S)
      (migration : CredentialMigration)
      → prepare_server_to_system store revealed server s ≡ (ok migration, s1)
      → rollback_migration store migration s1 ≡ (ok tt, s2)
      → SameView (view s) (view s2)
  unfolding rollback_migration
  rollback-prepare_server_to_system revealed server s s1 s2 migration e f k =
      Ends-ok (λ u s3. SameView (undo migration.changes (view s1)) (view s3))
        (λ e s3. is_rollback e ≡ true) _
        (rollback_changes_lem store view faithful migration.changes s1) f k
      ∙ sym (
          (Ends-ok (Prepared revealed server (view s)) (Unchanged (view s)) _
              (prepare_lem revealed server s) e).0
            k)
