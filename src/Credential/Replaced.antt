-- ===== src/Credential/Replaced.antt =====
-- The replacement of a secret, and the undoing of changes.
use ssh_mountmate.Action.{next_or, Ends, Ends-next, Ends-next_or}
use ssh_mountmate.Base.{
  ◌≡◌, refl, sym, ◌∙◌, true, false, Option, none, some, List, [], ◌∷◌, Result, ok, err, Bool-cases,
  inl, inr, subst,
}
use ssh_mountmate.Text.{Text, text_eq, text_eq_sound}
use ssh_mountmate.Credential.{
  CredentialError, unavailable, verification, missing, reveal, obscure, persistence, rollback,
  CredentialStore, CredentialChange, restore_previous, check_value, read_previous, absent,
  undo_failed, verify_written, replace_verified, rollback_change, rollback_changes,
}
use ssh_mountmate.Credential.Faithful.{
  is_missing, is_rollback, View, SameView, SameOthers, SameView-of_others, IsFaithful,
}
use ssh_mountmate.Credential.Undo.{undo, confirm_lem, restore_previous_lem}

module _ {S : Type 0} (store : CredentialStore S) (view : S → View)
    (faithful : IsFaithful store view) where
  pub read_previous_lem :
      (r : Text) (s : S)
      → Ends
          (λ o s1. (view s r ≡ o) × SameView (view s) (view s1))
          (λ e s1. SameView (view s) (view s1))
          (read_previous store r s)
  unfolding read_previous
  read_previous_lem r s =
      Ends-next_or _ _ _ _ _ _ (store.get r s) (faithful.get_lem r s) (λ x s1 h. h) go
    where
      go :
          (e : CredentialError) (s1 : S)
          → (is_missing e ≡ true → view s r ≡ none) × SameView (view s) (view s1)
          → Ends
              (λ o s2. (view s r ≡ o) × SameView (view s) (view s2))
              (λ e' s2. SameView (view s) (view s2))
              (absent {S = S} e s1)
      go (missing m) s1 h = (h.0 refl, h.1)
      go (unavailable m) s1 h = h.1
      go (verification m) s1 h = h.1
      go (reveal m) s1 h = h.1
      go (obscure m) s1 h = h.1
      go (persistence m) s1 h = h.1
      go (rollback m) s1 h = h.1

  -- A failed write is undone: the store is as it was, unless the error says that it is not.
  undo_failed_lem :
      {A : Type 0} (P : A → S → Type 0) (w : View) (r : Text) (e : CredentialError) (s : S)
      → SameOthers r w (view s)
      → Ends P
          (λ e' s1. is_rollback e' ≡ false → SameView w (view s1))
          (undo_failed store r (w r) e s)
  unfolding undo_failed
  undo_failed_lem P w r e s h =
      Ends-next _ _ _ _ _ (restore_previous store r (w r) s)
        (restore_previous_lem store view faithful r (w r) s)
        (λ u s1 k f. SameView-of_others r w (view s1) (λ j g. k.1 j g ∙ h j g) k.0)
        (λ e' s1 k f. absurd (cc))

  abbrev pub IsReplaced : Text → Text → View → CredentialChange → S → Type 0
  IsReplaced r x w change s =
      (change.reference ≡ r)
      × (change.previous ≡ w r)
      × (view s r ≡ some x)
      × SameOthers r w (view s)

  verify_written_lem :
      (w : View) (r x : Text) (s : S)
      → SameOthers r w (view s)
      → Ends
          (IsReplaced r x w)
          (λ e s1. is_rollback e ≡ false → SameView w (view s1))
          (verify_written store r x (w r) s)
  unfolding verify_written
  verify_written_lem w r x s h =
      Ends-next_or _ _ _ _ _ _
        (next_or (check_value (verification r) x) (λ e s1. (err (verification r), s1))
          (store.get r s))
        (confirm_lem store view faithful (verification r) r x s)
        (λ u s1 k. (refl, refl, k.0, λ j f. k.1 j ∙ h j f))
        (λ e s1 k. undo_failed_lem (IsReplaced r x w) w r e s1 (λ j f. k.1 j ∙ h j f))

  pub replace_verified_lem :
      (r x : Text) (s : S)
      → Ends
          (IsReplaced r x (view s))
          (λ e s1. is_rollback e ≡ false → SameView (view s) (view s1))
          (replace_verified store r x s)
  unfolding replace_verified
  replace_verified_lem r x s =
      Ends-next _ _ _ _ _ (read_previous store r s) (read_previous_lem r s) go (λ e s1 h f. h)
    where
      go :
          (o : Option Text) (s1 : S)
          → (view s r ≡ o) × SameView (view s) (view s1)
          → Ends
              (IsReplaced r x (view s))
              (λ e s2. is_rollback e ≡ false → SameView (view s) (view s2))
              (next_or (λ u. verify_written store r x o) (undo_failed store r o) (store.set r x s1))
      go o s1 h = rw (sym h.0) (
          Ends-next_or _ _ _ _ (λ u. verify_written store r x (view s r))
            (undo_failed store r (view s r)) (store.set r x s1) (faithful.set_lem r x s1)
            (λ u s2 k. verify_written_lem (view s) r x s2 (λ j f. k j f ∙ h.1 j))
            (λ e s2 k.
              undo_failed_lem (IsReplaced r x (view s)) (view s) r e s2 (λ j f. k j f ∙ h.1 j)))

  pub rollback_changes_lem :
      (changes : List CredentialChange) (s : S)
      → Ends
          (λ u s1. SameView (undo changes (view s)) (view s1))
          (λ e s1. is_rollback e ≡ true)
          (rollback_changes store changes s)
  unfolding rollback_changes rollback_change
  rollback_changes_lem [] s = λ k. refl
  rollback_changes_lem (change ∷ later) s =
      Ends-next_or _ _ _ _ _ _ (rollback_changes store later s) (rollback_changes_lem later s)
        (λ u s1 h.
          go s1 h (restore_previous store change.reference change.previous s1)
            (restore_previous_lem store view faithful change.reference change.previous s1))
        (λ e s1 h.
          Ends-next _ _ _ _ _ (restore_previous store change.reference change.previous s1)
            (restore_previous_lem store view faithful change.reference change.previous s1)
            (λ u s2 k. h) (λ e' s2 k. k))
    where
      go :
          (s1 : S)
          → SameView (undo later (view s)) (view s1)
          → (q : Result CredentialError (Unit {0}) × S)
          → Ends
              (λ u s2.
                (view s2 change.reference ≡ change.previous)
                × SameOthers change.reference (view s1) (view s2))
              (λ e s2. is_rollback e ≡ true)
              q
          → Ends
              (λ u s2. SameView (undo (change ∷ later) (view s)) (view s2))
              (λ e s2. is_rollback e ≡ true)
              q
      go s1 h (err e, s2) k = k
      go s1 h (ok u, s2) k = λ j. elim (Bool-cases (text_eq change.reference j)) [
        | inl t ↦
            rw t (subst (λ i. view s2 i ≡ change.previous) (text_eq_sound change.reference j t) k.0)
        | inr f ↦ rw f (k.1 j f ∙ h j)
      ]
