-- ===== src/Tests/Credential.antt =====
-- Runs of the credential transactions over a keyring in memory.
use ssh_mountmate.Action.{Ends}
use ssh_mountmate.Base.{
  ◌≡◌, refl, ◌∙◌, Bool, true, false, Option, none, some, [], ◌∷◌, ◌++◌, Result, ok, err,
  if◌then◌else◌, any, ◌==◌,
}
use ssh_mountmate.Text.{Text, codes, text_eq, text_eq_refl, is_empty}
use ssh_mountmate.Dict.{Dict, lookup, insert, remove}
use ssh_mountmate.Dict.Laws.{lookup-insert, lookup-remove}
use ssh_mountmate.Model.{ServerConfig, default_server}
use ssh_mountmate.Credential.{
  CredentialError, read_answer, Keyring, KeyringError, no_entry, other, CredentialStore,
  system_store, credential_reference, CredentialMigration, CredentialCommit, unavailable, to_system,
  to_obscure, Conversion, references, used_references, prepare_server_to_system, rollback_migration,
  delete_credential_references, prepare_server_to_obscure, finalize_to_obscure,
}
use ssh_mountmate.Credential.Faithful.{is_missing, View, SameView, SameOthers, IsFaithful}
use ssh_mountmate.Credential.SystemStore.{LeavesEntry, IsKeyring, system_store-IsFaithful}
use ssh_mountmate.Credential.Atomic.{
  IsPrepared, prepare_server_to_system-IsPrepared, prepare_server_to_system-error,
  rollback-prepare_server_to_system,
}
use ssh_mountmate.Credential.Removed.{delete_credential_references-erases}
use ssh_mountmate.Credential.Restored.{IsWritable, delete_credential_references-restores}
use ssh_mountmate.Credential.Retired.{IsRetired, finalize_to_obscure-IsRetired}

abbrev Entries : Type 0
Entries = Dict Text

abbrev found : Option Text → Entries → Result KeyringError Text × Entries
found none s = (err no_entry, s)
found (some x) s = (ok x, s)

abbrev removed : Bool → Option Text → Text → Entries → Result KeyringError (Unit {0}) × Entries
removed true o r s = (err (other (codes "denied")), s)
removed false none r s = (err no_entry, s)
removed false (some x) r s = (ok tt, remove r s)

-- A keyring that refuses to remove one of its entries.
abbrev memory : Keyring Entries
memory = record {
  new_entry = λ r. ok tt;
  set_password = λ r x s. (ok tt, insert r x s);
  get_password = λ r s. found (lookup r s) s;
  delete_credential = λ r s. removed (text_eq r (codes "locked")) (lookup r s) r s;
}

abbrev view : Entries → View
view s k = lookup k s

memory_get :
    (r : Text) (s : Entries) (o : Option Text)
    → lookup r s ≡ o
    → Ends
        (λ x s1. (view s r ≡ some x) × SameView (view s) (view s1))
        (λ e s1. LeavesEntry r (view s) e × SameView (view s) (view s1))
        (found o s)
memory_get r s none e = (e, λ k. refl)
memory_get r s (some x) e = (e, λ k. refl)

memory_delete :
    (r : Text) (s : Entries) (b : Bool) (o : Option Text)
    → lookup r s ≡ o
    → Ends
        (λ u s1. (view s1 r ≡ none) × SameOthers r (view s) (view s1))
        (λ e s1. LeavesEntry r (view s1) e × SameOthers r (view s) (view s1))
        (removed b o r s)
memory_delete r s true o e = (tt, λ k f. refl)
memory_delete r s false none e = (e, λ k f. refl)
memory_delete r s false (some x) e =
    (lookup-remove r r s ∙ rw (text_eq_refl r) refl, λ k f. lookup-remove r k s ∙ rw f refl)

memory-IsKeyring : IsKeyring memory view
memory-IsKeyring = record {
  get_lem = λ r s. memory_get r s (lookup r s) refl;
  set_lem = λ r x s k f. lookup-insert r k x s ∙ rw f refl;
  delete_lem = λ r s. memory_delete r s (text_eq r (codes "locked")) (lookup r s) refl;
}

abbrev store : CredentialStore Entries
store = system_store memory

store-IsFaithful : IsFaithful store view
store-IsFaithful = system_store-IsFaithful memory view memory-IsKeyring

system_store-IsFaithful_example : IsFaithful store view
system_store-IsFaithful_example = system_store-IsFaithful memory view memory-IsKeyring

store_get :
    (s : Entries) (o : Option Text) (r : Text)
    → Ends (λ x s1. Unit {0}) (λ e s1. is_missing e ≡ true) (read_answer r (found o s))
store_get s none r = refl
store_get s (some x) r = tt

store-IsWritable : IsWritable store view
store-IsWritable = record {
  set_ok = λ r x s. lookup-insert r r x s ∙ rw (text_eq_refl r) refl;
  get_ok = λ r s. store_get s (lookup r s) r;
}

-- Conversions that write a mark, and take it off where it stands.
abbrev reveal_mark : Conversion
reveal_mark [] = err (CredentialError.reveal [])
reveal_mark (c ∷ x) = if c == b'*' then ok x else err (CredentialError.reveal [])

abbrev obscure_mark : Conversion
obscure_mark x = ok (codes "*" ++ x)

abbrev web : ServerConfig
web = record default_server {
  id = codes "web";
  password_obscured = codes "*secret";
  key_pass_obscured = codes "*phrase";
}

abbrev moved : Entries
moved =
    (codes "ssh-mountmate:web:password", codes "secret")
    ∷ (codes "ssh-mountmate:web:key-passphrase", codes "phrase")
    ∷ []

abbrev migration : CredentialMigration
migration = record {
  candidate = record web {
    password_credential = codes "ssh-mountmate:web:password";
    key_pass_credential = codes "ssh-mountmate:web:key-passphrase";
  };
  changes =
      record { reference = codes "ssh-mountmate:web:password"; previous = none }
      ∷ record { reference = codes "ssh-mountmate:web:key-passphrase"; previous = none }
      ∷ [];
  retired_references = [];
  kind = to_system;
}

prepared : prepare_server_to_system store reveal_mark web [] ≡ (ok migration, moved)
unfolding prepare_server_to_system credential_reference lookup insert text_eq
prepared = refl

-- The password has been moved before and its obscured copy is kept; the passphrase has not.
abbrev half_moved : ServerConfig
half_moved = record web { password_credential = codes "ssh-mountmate:web:password" }

abbrev half : Entries
half = (codes "ssh-mountmate:web:password", codes "secret") ∷ []

abbrev other_half : CredentialMigration
other_half = record migration {
  changes = record { reference = codes "ssh-mountmate:web:key-passphrase"; previous = none } ∷ [];
}

completed : prepare_server_to_system store reveal_mark half_moved half ≡ (ok other_half, moved)
unfolding prepare_server_to_system credential_reference lookup insert text_eq
completed = refl

prepare_server_to_system-IsPrepared_example :
    IsPrepared reveal_mark half_moved other_half (view moved)
prepare_server_to_system-IsPrepared_example =
    prepare_server_to_system-IsPrepared store view store-IsFaithful reveal_mark half_moved half
      moved other_half completed

-- A reference that is not in the store is an error.
lost :
    prepare_server_to_system store reveal_mark half_moved []
    ≡ (err (CredentialError.missing (codes "ssh-mountmate:web:password")), [])
unfolding prepare_server_to_system credential_reference lookup insert text_eq
lost = refl

-- The password is stored before the key passphrase turns out to be unreadable, and is taken back.
abbrev broken : ServerConfig
broken = record web { key_pass_obscured = codes "phrase" }

prepare_server_to_system-error_example : SameView (view []) (view [])
prepare_server_to_system-error_example =
    prepare_server_to_system-error store view store-IsFaithful reveal_mark broken [] []
      (CredentialError.reveal [])
      (unfold prepare_server_to_system credential_reference lookup insert remove text_eq in refl)
      refl

rollback-prepare_server_to_system_example : SameView (view []) (view [])
rollback-prepare_server_to_system_example =
    rollback-prepare_server_to_system store view store-IsFaithful reveal_mark web [] moved []
      migration prepared (unfold rollback_migration lookup insert remove text_eq in refl)

abbrev three : Entries
three = (codes "a", codes "x") ∷ (codes "b", codes "y") ∷ (codes "c", codes "z") ∷ []

delete_credential_references-erases_example : view ((codes "c", codes "z") ∷ []) (codes "b") ≡ (
    if any (λ r. text_eq r (codes "b")) (used_references (codes "a" ∷ [] ∷ codes "b" ∷ []))
    then none
    else view three (codes "b"))
delete_credential_references-erases_example =
    delete_credential_references-erases store view store-IsFaithful
      (codes "a" ∷ [] ∷ codes "b" ∷ []) three ((codes "c", codes "z") ∷ []) (codes "b")
      (unfold delete_credential_references lookup remove text_eq in refl)

abbrev two : Entries
two = (codes "a", codes "x") ∷ (codes "locked", codes "y") ∷ []

abbrev two_again : Entries
two_again = (codes "locked", codes "y") ∷ (codes "a", codes "x") ∷ []

delete_credential_references-restores_example : SameView (view two) (view two_again)
delete_credential_references-restores_example =
    delete_credential_references-restores store view store-IsFaithful store-IsWritable
      (codes "a" ∷ codes "locked" ∷ []) two two_again (unavailable (codes "denied"))
      (unfold delete_credential_references lookup insert remove text_eq in refl)

abbrev in_store : ServerConfig
in_store = record default_server { id = codes "web"; password_credential = codes "a" }

abbrev hydrated : ServerConfig
hydrated = record in_store { password_obscured = codes "*x" }

obscure_mark_full : (x o : Text) → obscure_mark x ≡ ok o → is_empty o ≡ false
obscure_mark_full x [] h = cc
obscure_mark_full x (c ∷ o) h = refl

abbrev finished : CredentialCommit
finished = record {
  server = record hydrated { password_credential = [] };
  retired_references = codes "a" ∷ [];
}

finalize_to_obscure-IsRetired_example :
    IsRetired obscure_mark (view three) (codes "a") (codes "*x") []
    × IsRetired obscure_mark (view three) [] [] []
    × (codes "a" ∷ [] ≡ used_references (references in_store))
finalize_to_obscure-IsRetired_example =
    finalize_to_obscure-IsRetired store view store-IsFaithful obscure_mark in_store hydrated three
      three
      (record {
        candidate = hydrated;
        changes = [];
        retired_references = codes "a" ∷ [];
        kind = to_obscure;
      })
      finished obscure_mark_full (unfold prepare_server_to_obscure lookup text_eq in refl)
      (unfold finalize_to_obscure text_eq in refl)
