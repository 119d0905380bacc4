-- ===== src/Credential/Undo.antt =====
-- Undoing a change: the previous secret is written again and read, or the secret is removed.
use ssh_mountmate.Action.{next_or, Ends, Ends-next_or}
use ssh_mountmate.Base.{
  ◌≡◌, refl, ap, ◌∙◌, true, Option, none, some, List, [], ◌∷◌, ◌++◌, Result, ok, err, Bool-cases,
  inl, inr, if◌then◌else◌,
}
use ssh_mountmate.Text.{Text, text_eq, text_eq_sound}
use ssh_mountmate.Credential.{
  CredentialError, rollback, CredentialStore, CredentialChange, restore_previous, check_value,
}
use ssh_mountmate.Credential.Faithful.{is_rollback, View, SameView, SameOthers, IsFaithful}

abbrev pub put : Text → Option Text → View → View
put r v w k = if text_eq r k then v else w k

-- What is left of a store when the changes are undone, the last one first.
abbrev pub undo : List CredentialChange → View → View
undo [] w = w
undo (change ∷ later) w = put change.reference change.previous (undo later w)

pub undo-SameView :
    (changes : List CredentialChange) (w v : View)
    → SameView w v
    → SameView (undo changes w) (undo changes v)
undo-SameView [] w v h k = h k
undo-SameView (change ∷ later) w v h k =
    ap (λ x. if text_eq change.reference k then change.previous else x)
      (undo-SameView later w v h k)

pub undo-append :
    (changes : List CredentialChange) (change : CredentialChange) (w : View)
    → undo (changes ++ (change ∷ [])) w ≡ undo changes (put change.reference change.previous w)
undo-append [] change w = refl
undo-append (c ∷ later) change w = ap (put c.reference c.previous) (undo-append later change w)

pub put-SameView : (r : Text) (w v : View) → SameOthers r w v → SameView w (put r (w r) v)
put-SameView r w v h k = elim (Bool-cases (text_eq r k)) [
  | inl t ↦ rw t (ap w (text_eq_sound r k t))
  | inr f ↦ rw f (h k f)
]

check_value_lem :
    {S : Type 0} (e : CredentialError) (x y : Text) (s : S)
    → Ends (λ u s1. (y ≡ x) × (s1 ≡ s)) (λ e' s1. (e' ≡ e) × (s1 ≡ s)) (check_value e x y s)
unfolding check_value
check_value_lem e x y s = elim (Bool-cases (text_eq y x)) [
  | inl t ↦ rw t (text_eq_sound y x t, refl)
  | inr f ↦ rw f (refl, refl)
]

module _ {S : Type 0} (store : CredentialStore S) (view : S → View)
    (faithful : IsFaithful store view) where
  -- The reading that follows a write confirms the value, or ends in the error.
  pub confirm_lem :
      (e : CredentialError) (r x : Text) (s : S)
      → Ends
          (λ u s1. (view s1 r ≡ some x) × SameView (view s) (view s1))
          (λ e' s1. (e' ≡ e) × SameView (view s) (view s1))
          (next_or (check_value e x) (λ e' s1. (err e, s1)) (store.get r s))
  confirm_lem e r x s =
      Ends-next_or _ _ _ _ (check_value e x) _ (store.get r s) (faithful.get_lem r s)
        (λ y s1 h. go y s1 h (check_value e x y s1) (check_value_lem e x y s1))
        (λ e' s1 h. (refl, h.1))
    where
      go :
          (y : Text) (s1 : S)
          → (view s r ≡ some y) × SameView (view s) (view s1)
          → (q : Result CredentialError (Unit {0}) × S)
          → Ends (λ u s2. (y ≡ x) × (s2 ≡ s1)) (λ e' s2. (e' ≡ e) × (s2 ≡ s1)) q
          → Ends
              (λ u s2. (view s2 r ≡ some x) × SameView (view s) (view s2))
              (λ e' s2. (e' ≡ e) × SameView (view s) (view s2))
              q
      go y s1 h (ok u, s2) k = rw k.1 (h.1 r ∙ h.0 ∙ ap some k.0, h.1)
      go y s1 h (err e', s2) k = rw k.1 (k.0, h.1)

  pub restore_previous_lem :
      (r : Text) (previous : Option Text) (s : S)
      → Ends
          (λ u s1. (view s1 r ≡ previous) × SameOthers r (view s) (view s1))
          (λ e s1. is_rollback e ≡ true)
          (restore_previous store r previous s)
  unfolding restore_previous
  restore_previous_lem r none s =
      Ends-next_or _ _ _ _ _ _ (store.delete r s) (faithful.delete_lem r s) (λ u s1 h. h)
        (λ e s1 h. refl)
  restore_previous_lem r (some x) s =
      Ends-next_or _ _ _ _ _ _ (store.set r x s) (faithful.set_lem r x s)
        (λ u s1 h.
          go s1 h
            (next_or (check_value (rollback r) x) (λ e s2. (err (rollback r), s2)) (store.get r s1))
            (confirm_lem (rollback r) r x s1))
        (λ e s1 h. refl)
    where
      go :
          (s1 : S)
          → SameOthers r (view s) (view s1)
          → (q : Result CredentialError (Unit {0}) × S)
          → Ends
              (λ u s2. (view s2 r ≡ some x) × SameView (view s1) (view s2))
              (λ e s2. (e ≡ rollback r) × SameView (view s1) (view s2))
              q
          → Ends
              (λ u s2. (view s2 r ≡ some x) × SameOthers r (view s) (view s2))
              (λ e s2. is_rollback e ≡ true)
              q
      go s1 h (ok u, s2) k = (k.0, λ j f. k.1 j ∙ h j f)
      go s1 h (err e, s2) k = rw k.0 refl
