-- ===== src/Credential/Faithful.antt =====
-- What a store of credentials must do: it reads what is in it, and touches one reference at a time.
use ssh_mountmate.Action.{Ends}
use ssh_mountmate.Base.{◌≡◌, Bool, true, false, Option, none, some, Bool-cases, inl, inr, subst}
use ssh_mountmate.Text.{Text, text_eq, text_eq_sound}
use ssh_mountmate.Credential.{
  CredentialError, unavailable, verification, missing, reveal, obscure, persistence, rollback,
  CredentialStore,
}

abbrev pub is_missing : CredentialError → Bool
is_missing (missing m) = true
is_missing (unavailable m) = false
is_missing (verification m) = false
is_missing (reveal m) = false
is_missing (obscure m) = false
is_missing (persistence m) = false
is_missing (rollback m) = false

abbrev pub is_rollback : CredentialError → Bool
is_rollback (rollback m) = true
is_rollback (missing m) = false
is_rollback (unavailable m) = false
is_rollback (verification m) = false
is_rollback (reveal m) = false
is_rollback (obscure m) = false
is_rollback (persistence m) = false

-- The secrets of a store, by reference.
abbrev pub View : Type 0
View = Text → Option Text

abbrev pub SameView : View → View → Type 0
SameView w v = (k : Text) → v k ≡ w k

abbrev pub SameOthers : Text → View → View → Type 0
SameOthers r w v = (k : Text) → text_eq r k ≡ false → v k ≡ w k

pub SameView-of_others : (r : Text) (w v : View) → SameOthers r w v → v r ≡ w r → SameView w v
SameView-of_others r w v h e k = elim (Bool-cases (text_eq r k)) [
  | inl t ↦ subst (λ j. v j ≡ w j) (text_eq_sound r k t) e
  | inr f ↦ h k f
]

pub record IsFaithful {S : Type 0} (store : CredentialStore S) (view : S → View) : Type 0 where
  pub get_lem :
      (r : Text) (s : S)
      → Ends
          (λ x s1. (view s r ≡ some x) × SameView (view s) (view s1))
          (λ e s1. (is_missing e ≡ true → view s r ≡ none) × SameView (view s) (view s1))
          (store.get r s)
  pub set_lem :
      (r x : Text) (s : S)
      → Ends
          (λ u s1. SameOthers r (view s) (view s1))
          (λ e s1. SameOthers r (view s) (view s1))
          (store.set r x s)
  pub delete_lem :
      (r : Text) (s : S)
      → Ends
          (λ u s1. (view s1 r ≡ none) × SameOthers r (view s) (view s1))
          (λ e s1. SameOthers r (view s) (view s1))
          (store.delete r s)
