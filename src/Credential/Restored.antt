-- ===== src/Credential/Restored.antt =====
-- Where a removal is refused, what it had removed is written again.
use ssh_mountmate.Action.{next_or, Ends, Ends-next, Ends-next_or, Ends-err, Ends-both}
use ssh_mountmate.Base.{
  ◌≡◌, refl, sym, ap, ◌∙◌, true, false, ◌||◌, Option, none, some, List, [], ◌∷◌, ◌++◌, All,
  All-append, any-append, Result, ok, err, Bool-cases, inl, inr, subst, if◌then◌else◌, arith,
}
use ssh_mountmate.Text.{Text, text_eq, text_eq_sound, text_eq_refl}
use ssh_mountmate.Credential.{
  CredentialError, unavailable, verification, missing, reveal, obscure, persistence, rollback,
  CredentialStore, CredentialChange, check_value, absent, read_previous, undo_failed,
  verify_written, replace_verified, store_verified, used_references, read_existing, restore_deleted,
  delete_existing, delete_credential_references,
}
use ssh_mountmate.Credential.Faithful.{is_missing, View, SameView, SameOthers, IsFaithful}
use ssh_mountmate.Credential.Replaced.{replace_verified_lem}
use ssh_mountmate.Credential.Removed.{names, read_existing_lem}

-- Writes succeed, and readings fail only where there is no secret; removals may fail.
pub record IsWritable {S : Type 0} (store : CredentialStore S) (view : S → View) : Type 0 where
  pub set_ok :
      (r x : Text) (s : S) → Ends (λ u s1. view s1 r ≡ some x) (λ e s1. ⊥) (store.set r x s)
  pub get_ok :
      (r : Text) (s : S) → Ends (λ x s1. Unit {0}) (λ e s1. is_missing e ≡ true) (store.get r s)

module _ {S : Type 0} (store : CredentialStore S) (view : S → View)
    (faithful : IsFaithful store view) (writable : IsWritable store view) where
  read_answered :
      (r : Text) (s : S)
      → Ends
          (λ x s1. (view s r ≡ some x))
          (λ e s1. (is_missing e ≡ true) × (view s r ≡ none))
          (store.get r s)
  read_answered r s = go (store.get r s) (faithful.get_lem r s) (writable.get_ok r s)
    where
      go :
          (q : Result CredentialError Text × S)
          → Ends
              (λ x s1. (view s r ≡ some x) × SameView (view s) (view s1))
              (λ e s1. (is_missing e ≡ true → view s r ≡ none) × SameView (view s) (view s1))
              q
          → Ends (λ x s1. Unit {0}) (λ e s1. is_missing e ≡ true) q
          → Ends (λ x s1. (view s r ≡ some x)) (λ e s1. (is_missing e ≡ true) × (view s r ≡ none)) q
      go (ok x, s1) h k = h.0
      go (err e, s1) h k = (k, h.0 k)

  verify_never :
      (r x : Text) (previous : Option Text) (s : S)
      → view s r ≡ some x
      → Ends (λ c s1. Unit {0}) (λ e s1. ⊥) (verify_written store r x previous s)
  unfolding verify_written check_value
  verify_never r x previous s h = go (store.get r s) (read_answered r s)
    where
      go :
          (q : Result CredentialError Text × S)
          → Ends (λ y s1. (view s r ≡ some y)) (λ e s1. (is_missing e ≡ true) × (view s r ≡ none)) q
          → Ends
              (λ c s1. Unit {0})
              (λ e s1. ⊥)
              (next_or
                (λ u s1. (ok (record { reference = r; previous = previous }), s1))
                (undo_failed store {A = CredentialChange} r previous)
                (next_or
                  (λ y s1. if text_eq y x then (ok tt, s1) else (err (verification r), s1))
                  (λ e s1. (err (verification r), s1))
                  q))
      go (ok y, s1) k = let same : x ≡ y = cc in rw (← same) (rw (text_eq_refl x) tt)
      go (err e, s1) k = absurd (cc)

  previous_never :
      (r : Text) (s : S) → Ends (λ o s1. Unit {0}) (λ e s1. ⊥) (read_previous store r s)
  unfolding read_previous
  previous_never r s =
      Ends-next_or _ _ _ _ _ _ (store.get r s) (read_answered r s) (λ x s1 h. tt) go
    where
      go :
          (e : CredentialError) (s1 : S)
          → (is_missing e ≡ true) × (view s r ≡ none)
          → Ends (λ o s2. Unit {0}) (λ e' s2. ⊥) (absent {S = S} e s1)
      go (missing m) s1 h = tt
      go (unavailable m) s1 h = cc
      go (verification m) s1 h = cc
      go (reveal m) s1 h = cc
      go (obscure m) s1 h = cc
      go (persistence m) s1 h = cc
      go (rollback m) s1 h = cc

  replace_never :
      (r x : Text) (s : S) → Ends (λ c s1. Unit {0}) (λ e s1. ⊥) (replace_verified store r x s)
  unfolding replace_verified
  replace_never r x s =
      Ends-next _ _ _ _ _ (read_previous store r s) (previous_never r s)
        (λ o s1 h.
          Ends-next_or _ _ _ _ _ (undo_failed store r o) (store.set r x s1) (writable.set_ok r x s1)
            (λ u s2 k. verify_never r x o s2 k) (λ e s2 k. absurd k))
        (λ e s1 h. h)

  store_verified_lem :
      (r x : Text) (s : S)
      → Ends
          (λ u s1. (view s1 r ≡ some x) × SameOthers r (view s) (view s1))
          (λ e s1. ⊥)
          (store_verified store r x s)
  unfolding store_verified
  store_verified_lem r x s =
      Ends-next _ _ _ _ _ (replace_verified store r x s)
        (Ends-both _ _ _ _ (replace_verified store r x s)
          (replace_verified_lem store view faithful r x s) (replace_never r x s))
        (λ change s1 h. (h.0.2, h.0.3)) (λ e s1 h. absurd h.1)

  -- What the entries name has the secrets of `w` again; nothing else changes.
  restore_deleted_lem :
      (w : View) (entries : List (Text × Text)) (e : CredentialError) (s : S)
      → All (λ entry. w entry.0 ≡ some entry.1) entries
      → Ends
          (λ u s1. ⊥)
          (λ e' s1. (k : Text) → view s1 k ≡ (if names k entries then w k else view s k))
          (restore_deleted store entries e s)
  unfolding restore_deleted
  restore_deleted_lem w [] e s h = λ k. refl
  restore_deleted_lem w (entry ∷ rest) e s h =
      Ends-next_or _ _ _ _ (λ u. restore_deleted store rest e) (restore_deleted store rest)
        (store_verified store entry.0 entry.1 s) (store_verified_lem entry.0 entry.1 s)
        (λ u s1 k. go s1 k (restore_deleted store rest e s1) (restore_deleted_lem w rest e s1 h.1))
        (λ e' s1 k. absurd k)
    where
      go :
          (s1 : S)
          → (view s1 entry.0 ≡ some entry.1) × SameOthers entry.0 (view s) (view s1)
          → (q : Result CredentialError (Unit {0}) × S)
          → Ends
              (λ u s2. ⊥)
              (λ e' s2. (k : Text) → view s2 k ≡ (if names k rest then w k else view s1 k))
              q
          → Ends
              (λ u s2. ⊥)
              (λ e' s2. (k : Text) → view s2 k ≡ (if names k (entry ∷ rest) then w k else view s k))
              q
      go s1 k (ok u, s2) l = absurd l
      go s1 k (err e', s2) l = λ j. elim (Bool-cases (text_eq entry.0 j)) [
        | inl t ↦ rw t (
            let back : view s1 j ≡ w j =
              subst (λ i. view s1 i ≡ w i) (text_eq_sound entry.0 j t) (k.0 ∙ sym h.0) in
            ground (arith, l j, back))
        | inr f ↦ rw f (l j ∙ ap (λ o. if names j rest then w j else o) (k.1 j f))
      ]

  delete_existing_lem :
      (w : View) (deleted entries : List (Text × Text)) (s : S)
      → All (λ entry. w entry.0 ≡ some entry.1) deleted
      → All (λ entry. w entry.0 ≡ some entry.1) entries
      → ((k : Text) → names k deleted ≡ false → view s k ≡ w k)
      → Ends
          (λ u s1. Unit {0})
          (λ e s1. SameView w (view s1))
          (delete_existing store deleted entries s)
  unfolding delete_existing
  delete_existing_lem w deleted [] s g h l = tt
  delete_existing_lem w deleted (entry ∷ rest) s g h l =
      Ends-next_or _ _ _ _ (λ u. delete_existing store (deleted ++ (entry ∷ [])) rest)
        (restore_deleted store (deleted ++ (entry ∷ []))) (store.delete entry.0 s)
        (faithful.delete_lem entry.0 s)
        (λ u s1 k.
          delete_existing_lem w (deleted ++ (entry ∷ [])) rest s1 known h.1 (others s1 k.1))
        (λ e s1 k.
          go s1 (others s1 k) (restore_deleted store (deleted ++ (entry ∷ [])) e s1)
            (restore_deleted_lem w (deleted ++ (entry ∷ [])) e s1 known))
    where
      known : All (λ x. w x.0 ≡ some x.1) (deleted ++ (entry ∷ []))
      known = All-append (λ x. w x.0 ≡ some x.1) deleted (entry ∷ []) g (h.0, tt)

      others :
          (s1 : S)
          → SameOthers entry.0 (view s) (view s1)
          → (k : Text) → names k (deleted ++ (entry ∷ [])) ≡ false
          → view s1 k ≡ w k
      others s1 k j f =
          let both : (names j deleted || (text_eq entry.0 j || false)) ≡ false =
            sym (any-append (λ x. text_eq x.0 j) deleted (entry ∷ [])) ∙ f in
          k j (ground (arith, both)) ∙ l j (ground (arith, both))

      go :
          (s1 : S)
          → ((k : Text) → names k (deleted ++ (entry ∷ [])) ≡ false → view s1 k ≡ w k)
          → (q : Result CredentialError (Unit {0}) × S)
          → Ends
              (λ u s2. ⊥)
              (λ e s2.
                (k : Text)
                → view s2 k ≡ (if names k (deleted ++ (entry ∷ [])) then w k else view s1 k))
              q
          → Ends (λ u s2. Unit {0}) (λ e s2. SameView w (view s2)) q
      go s1 k (ok u, s2) m = tt
      go s1 k (err e, s2) m = λ j. elim (Bool-cases (names j (deleted ++ (entry ∷ [])))) [
        | inl t ↦ m j ∙ rw t refl
        | inr f ↦ m j ∙ rw f (k j f)
      ]

  -- Where writes and readings of the store do not fail, a removal that fails leaves every secret as
  -- it was, those included that had been removed before the failure.
  pub delete_credential_references-restores :
      (references : List Text) (s s1 : S) (error : CredentialError)
      → delete_credential_references store references s ≡ (err error, s1)
      → SameView (view s) (view s1)
  unfolding delete_credential_references
  delete_credential_references-restores references s s1 error e =
      Ends-err (λ u s2. Unit {0}) (λ e' s2. SameView (view s) (view s2)) _
        (Ends-next _ _ _ _ (delete_existing store [])
          (read_existing store (used_references references) s)
          (read_existing_lem store view faithful (used_references references) (view s) s
            (λ k. refl))
          (λ existing s2 h. delete_existing_lem (view s) [] existing s2 tt h.0 (λ k f. h.2 k))
          (λ e' s2 h. h))
        e
