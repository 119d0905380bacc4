-- ===== src/Credential/Changes.antt =====
-- Changes of the store: each is verified, and is undone where it fails.
use ssh_mountmate.Action.{◌>>=◌, pure, throw, next, next_or}
use ssh_mountmate.Base.{Option, none, some, List, [], ◌∷◌, if◌then◌else◌}
use ssh_mountmate.Text.{Text, text_eq}
use ssh_mountmate.Credential.Types.{
  CredentialError, unavailable, verification, missing, reveal, obscure, persistence, rollback, M,
  CredentialStore, CredentialChange,
}

abbrev pub absent : {S : Type 0} → CredentialError → M S (Option Text)
absent (missing m) = pure none
absent (unavailable m) = throw (unavailable m)
absent (verification m) = throw (verification m)
absent (reveal m) = throw (reveal m)
absent (obscure m) = throw (obscure m)
absent (persistence m) = throw (persistence m)
absent (rollback m) = throw (rollback m)

-- The reading of the restored value, compared to what it should be.
unfoldable pub check_value : {S : Type 0} → CredentialError → Text → Text → M S Unit
check_value error expected stored s = if text_eq stored expected then pure tt s else throw error s

module _ {S : Type 0} (store : CredentialStore S) where
  unfoldable pub restore_previous : Text → Option Text → M S Unit
  unfolding check_value
  restore_previous reference (some previous) s =
      next_or
        (λ u s1.
          next_or (check_value (rollback reference) previous) (λ e. throw (rollback reference))
            (store.get reference s1))
        (λ e. throw (rollback reference)) (store.set reference previous s)
  restore_previous reference none s =
      next_or (λ u. pure tt) (λ e. throw (rollback reference)) (store.delete reference s)

  -- `match store.get(reference)`: a value, none if it is missing, or the error.
  unfoldable pub read_previous : Text → M S (Option Text)
  read_previous reference s = next_or (λ secret. pure (some secret)) absent (store.get reference s)

  -- The failed change is undone: its error is returned, or that of undoing it.
  unfoldable pub undo_failed : {A : Type 0} → Text → Option Text → CredentialError → M S A
  unfolding restore_previous
  undo_failed reference previous error s =
      next (λ u. throw error) (restore_previous reference previous s)

  -- What is left to do after the write.
  unfoldable pub verify_written : Text → Text → Option Text → M S CredentialChange
  unfolding check_value undo_failed
  verify_written reference secret previous s =
      next_or (λ u. pure (record { reference = reference; previous = previous }))
        (undo_failed reference previous)
        (next_or (check_value (verification reference) secret) (λ e. throw (verification reference))
          (store.get reference s))

  unfoldable pub replace_verified : Text → Text → M S CredentialChange
  unfolding read_previous verify_written undo_failed
  replace_verified reference secret = do
    previous ← read_previous reference
    λ s.
        next_or (λ u. verify_written reference secret previous) (undo_failed reference previous)
          (store.set reference secret s)

  unfoldable pub store_verified : Text → Text → M S Unit
  unfolding replace_verified
  store_verified reference secret s = next (λ change. pure tt) (replace_verified reference secret s)

  unfoldable pub rollback_change : CredentialChange → M S Unit
  unfolding restore_previous
  rollback_change change = restore_previous change.reference change.previous

  -- The last change is undone first, and an error does not stop the loop; the error of the change
  -- that is undone last is the one that is returned.
  unfoldable pub rollback_changes : List CredentialChange → M S Unit
  unfolding rollback_change
  rollback_changes [] s = pure tt s
  rollback_changes (change ∷ later) s =
      next_or (λ u. rollback_change change)
        (λ e s1. next (λ u. throw e) (rollback_change change s1)) (rollback_changes later s)
