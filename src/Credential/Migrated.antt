-- ===== src/Credential/Migrated.antt =====
-- Migrations to the store are complete, or leave the store as it was.
use ssh_mountmate.Action.{next, Ends, Ends-next}
use ssh_mountmate.Base.{
  ◌≡◌, refl, sym, ap, ◌∙◌, Bool, true, false, some, List, [], ◌∷◌, ◌++◌, Result, ok, err,
  Bool-cases, inl, inr,
}
use ssh_mountmate.Text.{Text, codes, text_eq, text_eq-false, text_eq_sound, is_empty}
use ssh_mountmate.Credential.{
  CredentialError, CredentialKind, password, key_passphrase, credential_reference, CredentialStore,
  CredentialChange, replace_verified, rollback_changes, Conversion, migrate_obscured_field, abort,
}
use ssh_mountmate.Credential.Faithful.{is_rollback, View, SameView, SameOthers, IsFaithful}
use ssh_mountmate.Credential.Undo.{put, undo, undo-SameView, undo-append, put-SameView}
use ssh_mountmate.Credential.Replaced.{replace_verified_lem, rollback_changes_lem, IsReplaced}

append-cancel : (p s t : Text) → (p ++ s) ≡ (p ++ t) → s ≡ t
append-cancel [] s t h = h
append-cancel (c ∷ p) s t h = append-cancel p s t (cc)

-- The references of the two secrets of a connection differ.
pub references_differ :
    (id : Text)
    → text_eq (credential_reference id key_passphrase) (credential_reference id password) ≡ false
unfolding credential_reference
references_differ id =
    text_eq-false _ _
      (λ e. absurd (cc (append-cancel id _ _ (append-cancel (codes "ssh-mountmate:") _ _ e))))

-- By whether the field had no reference, and had no obscured secret: a field keeps a reference that
-- it had, and the store has a secret under it; a secret that rclone had obscured is in the store,
-- under the reference that the field has now; and a field without either stays so.
abbrev pub MovedFor :
    Bool → Bool → Conversion → Text → CredentialKind → Text → Text → Text → View → Type 0
MovedFor false no_secret revealed id kind obscured before after w =
    (after ≡ before) × ((x : Text) × (w after ≡ some x))
MovedFor true true revealed id kind obscured before after w = after ≡ before
MovedFor true false revealed id kind obscured before after w =
    (x : Text) × (revealed obscured ≡ ok x)
    × (after ≡ credential_reference id kind)
    × (w after ≡ some x)

-- What the store had a secret under has one still.
abbrev pub NoneLost : View → View → Type 0
NoneLost w v = (k x : Text) → w k ≡ some x → (y : Text) × (v k ≡ some y)

abbrev pub IsMoved : Conversion → Text → CredentialKind → Text → Text → Text → View → Type 0
IsMoved revealed id kind obscured before after w =
    MovedFor (is_empty before) (is_empty obscured) revealed id kind obscured before after w

module _ {S : Type 0} (store : CredentialStore S) (view : S → View)
    (faithful : IsFaithful store view) where
  -- Undoing the changes gives the store that there was.
  abbrev pub IsUndone : View → List CredentialChange → S → Type 0
  IsUndone w changes s = SameView (undo changes (view s)) w

  pub abort_lem :
      {A : Type 0} (P : A → S → Type 0) (w : View) (changes : List CredentialChange)
      (e : CredentialError) (s : S)
      → (is_rollback e ≡ false → IsUndone w changes s)
      → Ends P (λ e' s1. is_rollback e' ≡ false → SameView w (view s1)) (abort store changes e s)
  unfolding abort
  abort_lem P w changes e s h =
      Ends-next _ _ _ _ _ (rollback_changes store changes s)
        (rollback_changes_lem store view faithful changes s) (λ u s1 k f j. k j ∙ sym (h f j))
        (λ e' s1 k f. absurd (cc))

  abbrev pub IsField :
      Conversion
      → Text
      → CredentialKind
      → Text
      → Text
      → View
      → View
      → Text × List CredentialChange
      → S
      → Type 0
  IsField revealed id kind obscured reference w v p s =
      IsUndone w p.1 s
      × IsMoved revealed id kind obscured reference p.0 (view s)
      × SameOthers (credential_reference id kind) v (view s)
      × NoneLost v (view s)

  replaced_IsField :
      (w : View) (revealed : Conversion) (obscured reference id : Text) (kind : CredentialKind)
      (changes : List CredentialChange) (s : S) (x : Text)
      → is_empty reference ≡ true
      → is_empty obscured ≡ false
      → revealed obscured ≡ ok x
      → IsUndone w changes s
      → (change : CredentialChange) (s1 : S)
      → IsReplaced store view faithful (credential_reference id kind) x (view s) change s1
      → IsField revealed id kind obscured reference w
          (view s)
          (credential_reference id kind, changes ++ (change ∷ []))
          s1
  replaced_IsField w revealed obscured reference id kind changes s x e f g h change s1 k =
      (λ j. h j ∙ undone j, rw (e, f) (x, g, refl, k.2), k.3, kept)
    where
      kept : NoneLost (view s) (view s1)
      kept j y l = elim (Bool-cases (text_eq (credential_reference id kind) j)) [
        | inl t ↦ (x, ap (view s1) (sym (text_eq_sound (credential_reference id kind) j t)) ∙ k.2)
        | inr f ↦ (y, k.3 j f ∙ l)
      ]

      undone : (j : Text) → undo changes (view s) j ≡ undo (changes ++ (change ∷ [])) (view s1) j
      undone j = rw (undo-append changes change (view s1)) (
          rw k.0 (
            rw k.1 (
              sym (
                undo-SameView changes (view s)
                  (put (credential_reference id kind) (view s (credential_reference id kind))
                    (view s1))
                  (put-SameView (credential_reference id kind) (view s) (view s1) k.3) j))))

  pub migrate_obscured_field_lem :
      (w : View) (revealed : Conversion) (obscured reference id : Text) (kind : CredentialKind)
      (changes : List CredentialChange) (s : S)
      → IsUndone w changes s
      → Ends
          (IsField revealed id kind obscured reference w (view s))
          (λ e s1. is_rollback e ≡ false → IsUndone w changes s1)
          (migrate_obscured_field store revealed obscured reference id kind changes s)
  unfolding migrate_obscured_field
  migrate_obscured_field_lem w revealed obscured reference id kind changes s h =
      elim (Bool-cases (is_empty reference)) [
        | inl e ↦ rw e (elim (Bool-cases (is_empty obscured)) [
          | inl f ↦ rw f (h, rw (e, f) refl, λ j g. refl, λ j x l. (x, l))
          | inr f ↦ rw f (go e f (revealed obscured) refl)
        ])
        | inr e ↦ rw e (
            Ends-next _ _ _ _ _ (store.get reference s) (faithful.get_lem reference s)
              (λ x s1 k. (
                undone s1 k.1,
                rw e (refl, (x, k.1 reference ∙ k.0)),
                λ j f. k.1 j,
                λ j y l. (y, k.1 j ∙ l),
              ))
              (λ e' s1 k f. undone s1 k.1))
      ]
    where
      undone : (s1 : S) → SameView (view s) (view s1) → IsUndone w changes s1
      undone s1 k j = h j ∙ sym (undo-SameView changes (view s) (view s1) k j)

      go :
          is_empty reference ≡ true
          → is_empty obscured ≡ false
          → (r : Result CredentialError Text) → revealed obscured ≡ r
          → Ends
              (IsField revealed id kind obscured reference w (view s))
              (λ e s1. is_rollback e ≡ false → IsUndone w changes s1)
              (next
                (λ plaintext s1.
                  next
                    (λ change s2. (ok (credential_reference id kind, changes ++ (change ∷ [])), s2))
                    (replace_verified store (credential_reference id kind) plaintext s1))
                (r, s))
      go e f (err e') g = λ k. h
      go e f (ok x) g =
          Ends-next _ _ _ _ _ (replace_verified store (credential_reference id kind) x s)
            (replace_verified_lem store view faithful (credential_reference id kind) x s)
            (replaced_IsField w revealed obscured reference id kind changes s x e f g h)
            (λ e' s1 k l. undone s1 (k l))
