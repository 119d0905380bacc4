-- ===== src/Credential/Removed.antt =====
-- The removal of credentials removes all of them, or puts back what it removed.
use ssh_mountmate.Action.{next_or, Ends, Ends-next, Ends-next_or, Ends-ok}
use ssh_mountmate.Base.{
  ◌≡◌, refl, sym, ap, ◌∙◌, Bool, Option, none, some, List, [], ◌∷◌, ◌++◌, All, any, arith, Result,
  ok, err, Bool-cases, inl, inr, subst, if◌then◌else◌,
}
use ssh_mountmate.Text.{Text, text_eq, text_eq_sound}
use ssh_mountmate.Credential.{
  CredentialError, CredentialStore, read_previous, with_secret, used_references, read_existing,
  restore_deleted, store_verified, delete_existing, delete_credential_references,
}
use ssh_mountmate.Credential.Faithful.{View, SameView, SameOthers, IsFaithful}
use ssh_mountmate.Credential.Replaced.{read_previous_lem}

-- Whether one of the entries, or of the references, is about the reference.
abbrev pub names : Text → List (Text × Text) → Bool
names k entries = any (λ e. text_eq e.0 k) entries

abbrev pub erased : Bool → Option Text → Option Text
erased b o = if b then none else o

module _ {S : Type 0} (store : CredentialStore S) (view : S → View)
    (faithful : IsFaithful store view) where
  -- What is read is what there is; to erase it is to erase the references.
  abbrev pub IsRead : List Text → View → List (Text × Text) → S → Type 0
  IsRead references w existing s =
      All (λ e. w e.0 ≡ some e.1) existing
      × ((k : Text)
          → erased (names k existing) (w k) ≡ erased (any (λ r. text_eq r k) references) (w k))
      × SameView w (view s)

  IsRead-with_secret :
      (r : Text) (rest : List Text) (w : View) (o : Option Text) (more : List (Text × Text)) (s : S)
      → w r ≡ o
      → IsRead rest w more s
      → IsRead (r ∷ rest) w (with_secret r o more) s
  IsRead-with_secret r rest w none more s e h = (
    h.0,
    λ k. elim (Bool-cases (text_eq r k)) [
      | inl t ↦ rw t (
          let gone : w k ≡ none = subst (λ j. w j ≡ none) (text_eq_sound r k t) e in
          ground (arith, gone))
      | inr f ↦ rw f (h.1 k)
    ],
    h.2,
  )
  IsRead-with_secret r rest w (some x) more s e h = (
    (e, h.0),
    λ k. elim (Bool-cases (text_eq r k)) [ inl t ↦ rw t refl | inr f ↦ rw f (h.1 k) ],
    h.2,
  )

  pub read_existing_lem :
      (references : List Text) (w : View) (s : S)
      → SameView w (view s)
      → Ends (IsRead references w) (λ e s1. SameView w (view s1)) (read_existing store references s)
  unfolding read_existing
  read_existing_lem [] w s h = (tt, λ k. refl, h)
  read_existing_lem (r ∷ rest) w s h =
      Ends-next _ _ _ _ _ (read_previous store r s) (read_previous_lem store view faithful r s)
        (λ o s1 k.
          Ends-next _ _ _ _ _ (read_existing store rest s1)
            (read_existing_lem rest w s1 (λ j. k.1 j ∙ h j))
            (λ more s2 l. IsRead-with_secret r rest w o more s2 (sym (h r) ∙ k.0) l) (λ e s2 l. l))
        (λ e s1 k j. k j ∙ h j)

  -- Putting back what was deleted always ends in an error.
  pub restore_deleted-fails :
      (entries : List (Text × Text)) (e : CredentialError) (s : S)
      → Ends (λ u s1. ⊥) (λ e' s1. Unit {0}) (restore_deleted store entries e s)
  unfolding restore_deleted
  restore_deleted-fails [] e s = tt
  restore_deleted-fails (entry ∷ rest) e s =
      go (restore_deleted-fails rest) (store_verified store entry.0 entry.1 s)
    where
      go :
          ((e1 : CredentialError) (s1 : S)
            → Ends (λ u s2. ⊥) (λ e' s2. Unit {0}) (restore_deleted store rest e1 s1))
          → (q : Result CredentialError (Unit {0}) × S)
          → Ends
              (λ u s1. ⊥)
              (λ e' s1. Unit {0})
              (next_or (λ u. restore_deleted store rest e) (restore_deleted store rest) q)
      go h (ok u, s1) = h e s1
      go h (err e', s1) = h e' s1

  -- A loop that ends well has erased the references of its entries.
  delete_existing_lem :
      (deleted entries : List (Text × Text)) (s : S)
      → Ends
          (λ u s1. (k : Text) → view s1 k ≡ erased (names k entries) (view s k))
          (λ e s1. Unit {0})
          (delete_existing store deleted entries s)
  unfolding delete_existing
  delete_existing_lem deleted [] s = λ k. refl
  delete_existing_lem deleted (entry ∷ rest) s =
      Ends-next_or _ _ _ _ (λ u. delete_existing store (deleted ++ (entry ∷ [])) rest)
        (restore_deleted store (deleted ++ (entry ∷ []))) (store.delete entry.0 s)
        (faithful.delete_lem entry.0 s)
        (λ u s1 h.
          go s1 h (delete_existing store (deleted ++ (entry ∷ [])) rest s1)
            (delete_existing_lem (deleted ++ (entry ∷ [])) rest s1))
        (λ e s1 h.
          failed (restore_deleted store (deleted ++ (entry ∷ [])) e s1)
            (restore_deleted-fails (deleted ++ (entry ∷ [])) e s1))
    where
      go :
          (s1 : S)
          → (view s1 entry.0 ≡ none) × SameOthers entry.0 (view s) (view s1)
          → (q : Result CredentialError (Unit {0}) × S)
          → Ends
              (λ u s2. (k : Text) → view s2 k ≡ erased (names k rest) (view s1 k))
              (λ e s2. Unit {0})
              q
          → Ends
              (λ u s2. (k : Text) → view s2 k ≡ erased (names k (entry ∷ rest)) (view s k))
              (λ e s2. Unit {0})
              q
      go s1 h (err e, s2) k = tt
      go s1 h (ok u, s2) k = λ j. elim (Bool-cases (text_eq entry.0 j)) [
        | inl t ↦ rw t (
            let gone : view s1 j ≡ none =
              subst (λ i. view s1 i ≡ none) (text_eq_sound entry.0 j t) h.0 in
            ground (arith, gone, k j))
        | inr f ↦ rw f (k j ∙ ap (erased (names j rest)) (h.1 j f))
      ]

      failed :
          (q : Result CredentialError (Unit {0}) × S)
          → Ends (λ u s2. ⊥) (λ e s2. Unit {0}) q
          → Ends
              (λ u s2. (k : Text) → view s2 k ≡ erased (names k (entry ∷ rest)) (view s k))
              (λ e s2. Unit {0})
              q
      failed (ok u, s2) k = absurd k
      failed (err e, s2) k = tt

  delete_references_lem :
      (references : List Text) (s : S)
      → Ends
          (λ u s1.
            (k : Text)
            → view s1 k ≡ erased (any (λ r. text_eq r k) (used_references references)) (view s k))
          (λ e s1. Unit {0})
          (delete_credential_references store references s)
  unfolding delete_credential_references
  delete_references_lem references s =
      Ends-next _ _ _ _ (delete_existing store [])
        (read_existing store (used_references references) s)
        (read_existing_lem (used_references references) (view s) s (λ k. refl))
        (λ existing s1 h.
          go existing s1 h (delete_existing store [] existing s1)
            (delete_existing_lem [] existing s1))
        (λ e s1 h. tt)
    where
      go :
          (existing : List (Text × Text)) (s1 : S)
          → IsRead (used_references references) (view s) existing s1
          → (q : Result CredentialError (Unit {0}) × S)
          → Ends
              (λ u s2. (k : Text) → view s2 k ≡ erased (names k existing) (view s1 k))
              (λ e s2. Unit {0})
              q
          → Ends
              (λ u s2.
                (k : Text)
                → view s2 k
                  ≡ erased (any (λ r. text_eq r k) (used_references references)) (view s k))
              (λ e s2. Unit {0})
              q
      go existing s1 h (err e, s2) k = tt
      go existing s1 h (ok u, s2) k = λ j. k j ∙ ap (erased (names j existing)) (h.2 j) ∙ h.1 j

  -- Where the removal succeeds, exactly the references that were given, and are not empty, have no
  -- secret any more, and every other secret is as it was.
  pub delete_credential_references-erases :
      (references : List Text) (s s1 : S) (k : Text)
      → delete_credential_references store references s ≡ (ok tt, s1)
      → view s1 k ≡ (if any (λ r. text_eq r k) (used_references references) then none else view s k)
  delete_credential_references-erases references s s1 k e =
      Ends-ok
        (λ u s2.
          (j : Text)
          → view s2 j ≡ erased (any (λ r. text_eq r j) (used_references references)) (view s j))
        (λ e s2. Unit {0}) _ (delete_references_lem references s) e k
