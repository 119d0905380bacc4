-- ===== src/Credential/Retired.antt =====
-- A reference is retired only after its secret has been stored in its other form.
use ssh_mountmate.Action.{Ends, Ends-next, Ends-ok}
use ssh_mountmate.Base.{
  ◌≡◌, refl, sym, ◌∙◌, Bool, true, false, not, ◌||◌, ◌&&◌, some, [], Result, ok, err, Bool-cases,
  inl, inr, subst, then-ok, refuse_if-ok, arith, ForOk, ForOk-then, ForOk-ok, refuse_if,
}
use ssh_mountmate.Text.{Text, text_eq, text_eq_sound, is_empty, codes}
use ssh_mountmate.Model.{ServerConfig}
use ssh_mountmate.Credential.{
  CredentialError, CredentialStore, hydrate_field, hydrate_server_from_system,
  prepare_server_to_obscure, Conversion, CredentialMigration, CredentialCommit, finalize_to_obscure,
  ensure_persisted_candidate, ensure_field, references, used_references, cleared, to_obscure,
  kind_eq, persistence, commit_of,
}
use ssh_mountmate.Credential.Faithful.{View, SameView, IsFaithful}

-- By whether the connection had no reference: with one, its secret, obscured anew, is what the
-- finished record has, and the record has no reference any more.
abbrev pub RetiredFor : Bool → Conversion → View → Text → Text → Text → Type 0
RetiredFor true obscured_by w before obscured after = Unit
RetiredFor false obscured_by w before obscured after =
    (x : Text) × (w before ≡ some x) × (obscured_by x ≡ ok obscured) × (after ≡ [])

abbrev pub IsRetired : Conversion → View → Text → Text → Text → Type 0
IsRetired obscured_by w before obscured after =
    RetiredFor (is_empty before) obscured_by w before obscured after

-- What `hydrate_field` yields.
abbrev HydratedFor : Bool → Conversion → View → Text → Text → Type 0
HydratedFor true obscured_by w reference o = Unit
HydratedFor false obscured_by w reference o =
    (x : Text) × (w reference ≡ some x) × (obscured_by x ≡ ok o)

ensure_field-same :
    (field staged_reference persisted_reference staged persisted : Text) (u : Unit {0})
    → ensure_field field staged_reference persisted_reference staged persisted ≡ ok u
    → is_empty staged ≡ false
    → staged ≡ persisted
unfolding ensure_field
ensure_field-same field staged_reference persisted_reference staged persisted u h e =
    let (first, second) =
      then-ok (refuse_if (not (text_eq staged_reference persisted_reference)) (persistence field)) _
        u h in
    let agrees =
      refuse_if-ok (not (is_empty staged) && not (text_eq staged persisted)) (persistence field) u
        second in
    text_eq_sound staged persisted (ground (arith, agrees))

retire_field :
    (obscured_by : Conversion) (w : View)
    (field before staged_reference persisted_reference staged persisted : Text) (u : Unit {0})
    → ((x o : Text) → obscured_by x ≡ ok o → is_empty o ≡ false)
    → staged_reference ≡ before
    → HydratedFor (is_empty before) obscured_by w before staged
    → ensure_field field staged_reference persisted_reference staged persisted ≡ ok u
    → IsRetired obscured_by w before persisted (cleared staged_reference persisted_reference)
retire_field obscured_by w field before staged_reference persisted_reference staged persisted u full
      e h k =
    rw e (go (is_empty before) h)
  where
    go :
        (b : Bool)
        → HydratedFor b obscured_by w before staged
        → RetiredFor b obscured_by w before persisted
            (elim b [ true ↦ persisted_reference | false ↦ [] ])
    go true l = tt
    go false (x, l, m) = (
      x,
      l,
      subst (λ t. obscured_by x ≡ ok t)
          (ensure_field-same field staged_reference persisted_reference staged persisted u k
            (full x staged m))
          m,
      refl,
    )

module _ {S : Type 0} (store : CredentialStore S) (view : S → View)
    (faithful : IsFaithful store view) where
  hydrate_field_lem :
      (obscured_by : Conversion) (reference obscured : Text) (s : S)
      → Ends
          (λ o s1.
            HydratedFor (is_empty reference) obscured_by (view s) reference o
            × SameView (view s) (view s1))
          (λ e s1. Unit {0})
          (hydrate_field store obscured_by reference obscured s)
  unfolding hydrate_field
  hydrate_field_lem obscured_by reference obscured s = elim (Bool-cases (is_empty reference)) [
    | inl e ↦ rw e (tt, λ k. refl)
    | inr e ↦ rw e (
        Ends-next _ _ _ _ _ (store.get reference s) (faithful.get_lem reference s)
          (λ x s1 h. go x s1 h (obscured_by x) refl) (λ e' s1 h. tt))
  ]
    where
      go :
          (x : Text) (s1 : S)
          → (view s reference ≡ some x) × SameView (view s) (view s1)
          → (r : Result CredentialError Text) → obscured_by x ≡ r
          → Ends
              (λ o s2.
                ((y : Text) × (view s reference ≡ some y) × (obscured_by y ≡ ok o))
                × SameView (view s) (view s2))
              (λ e s2. Unit {0})
              (r, s1)
      go x s1 h (ok o) e = ((x, h.0, e), h.1)
      go x s1 h (err e') e = tt

  abbrev IsHydrated : Conversion → ServerConfig → View → ServerConfig → Type 0
  IsHydrated obscured_by server w candidate =
      HydratedFor (is_empty server.password_credential) obscured_by w server.password_credential
        candidate.password_obscured
      × HydratedFor (is_empty server.key_pass_credential) obscured_by w server.key_pass_credential
          candidate.key_pass_obscured
      × (candidate.password_credential ≡ server.password_credential)
      × (candidate.key_pass_credential ≡ server.key_pass_credential)

  HydratedFor-SameView :
      (b : Bool) (obscured_by : Conversion) (w v : View) (r o : Text)
      → SameView w v
      → HydratedFor b obscured_by v r o
      → HydratedFor b obscured_by w r o
  HydratedFor-SameView true obscured_by w v r o h k = tt
  HydratedFor-SameView false obscured_by w v r o h (x, e, f) = (x, sym (h r) ∙ e, f)

  hydrate_server_lem :
      (obscured_by : Conversion) (server : ServerConfig) (s : S)
      → Ends
          (λ candidate s1. IsHydrated obscured_by server (view s) candidate)
          (λ e s1. Unit {0})
          (hydrate_server_from_system store obscured_by server s)
  unfolding hydrate_server_from_system
  hydrate_server_lem obscured_by server s =
      Ends-next _ _ _ _ _
        (hydrate_field store obscured_by server.password_credential server.password_obscured s)
        (hydrate_field_lem obscured_by server.password_credential server.password_obscured s)
        (λ first s1 h.
          Ends-next _ _ _ _ _
            (hydrate_field store obscured_by server.key_pass_credential server.key_pass_obscured s1)
            (hydrate_field_lem obscured_by server.key_pass_credential server.key_pass_obscured s1)
            (λ second s2 k. (
              h.0,
              HydratedFor-SameView (is_empty server.key_pass_credential) obscured_by (view s)
                  (view s1) server.key_pass_credential second h.1 k.0,
              refl,
              refl,
            ))
            (λ e s2 k. tt))
        (λ e s1 h. tt)

  abbrev Finished : Conversion → ServerConfig → View → CredentialCommit → Type 0
  Finished obscured_by server w commit =
      IsRetired obscured_by w server.password_credential commit.server.password_obscured
        commit.server.password_credential
      × IsRetired obscured_by w server.key_pass_credential commit.server.key_pass_obscured
          commit.server.key_pass_credential
      × (commit.retired_references ≡ used_references (references server))

  finish_lem :
      (obscured_by : Conversion) (server persisted : ServerConfig) (w : View)
      (migration : CredentialMigration)
      → ((x o : Text) → obscured_by x ≡ ok o → is_empty o ≡ false)
      → IsHydrated obscured_by server w migration.candidate
      → ensure_persisted_candidate migration persisted to_obscure ≡ ok tt
      → Finished obscured_by server w (commit_of migration persisted)
  unfolding ensure_persisted_candidate
  finish_lem obscured_by server persisted w migration full prepared h =
      let (first, fields) =
        then-ok
          (refuse_if
            (not (kind_eq migration.kind to_obscure)
              || not (text_eq persisted.id migration.candidate.id))
            (persistence (codes "server")))
          _ tt h in
      let ((u, password), key_pass) =
        then-ok
          (ensure_field (codes "password") migration.candidate.password_credential
            persisted.password_credential migration.candidate.password_obscured
            persisted.password_obscured)
          _ tt fields in
      (
        retire_field obscured_by w _ _ migration.candidate.password_credential
            persisted.password_credential _ _ u full prepared.2 prepared.0 password,
        retire_field obscured_by w _ _ migration.candidate.key_pass_credential
            persisted.key_pass_credential _ _ tt full prepared.3 prepared.1 key_pass,
        rw prepared.2 (rw prepared.3 refl),
      )

  finalize_lem :
      (obscured_by : Conversion) (server persisted : ServerConfig) (w : View)
      (migration : CredentialMigration)
      → ((x o : Text) → obscured_by x ≡ ok o → is_empty o ≡ false)
      → IsHydrated obscured_by server w migration.candidate
      → ForOk (Finished obscured_by server w) (finalize_to_obscure migration persisted)
  unfolding finalize_to_obscure
  finalize_lem obscured_by server persisted w migration full prepared =
      ForOk-then (Finished obscured_by server w)
        (ensure_persisted_candidate migration persisted to_obscure)
        (ok (commit_of migration persisted))
        (finish_lem obscured_by server persisted w migration full prepared)

  -- If the migration to obscured secrets is prepared, and finished for the record that was stored,
  -- then each secret that the connection had in the store is in that record, obscured, and the
  -- record has no reference to it any more; the references to retire are those that the connection
  -- had. It is assumed that an obscured secret is not empty.
  pub finalize_to_obscure-IsRetired :
      (obscured_by : Conversion) (server persisted : ServerConfig) (s s1 : S)
      (migration : CredentialMigration) (commit : CredentialCommit)
      → ((x o : Text) → obscured_by x ≡ ok o → is_empty o ≡ false)
      → prepare_server_to_obscure store obscured_by server s ≡ (ok migration, s1)
      → finalize_to_obscure migration persisted ≡ ok commit
      → IsRetired obscured_by
          (view s)
          server.password_credential
          commit.server.password_obscured
          commit.server.password_credential
        × IsRetired obscured_by
            (view s)
            server.key_pass_credential
            commit.server.key_pass_obscured
            commit.server.key_pass_credential
        × (commit.retired_references ≡ used_references (references server))
  unfolding prepare_server_to_obscure
  finalize_to_obscure-IsRetired obscured_by server persisted s s1 migration commit full e f =
      let prepared : IsHydrated obscured_by server (view s) migration.candidate =
        Ends-ok (λ m s2. IsHydrated obscured_by server (view s) m.candidate) (λ e' s2. Unit {0}) _
          (Ends-next _ _ _ _ _ (hydrate_server_from_system store obscured_by server s)
            (hydrate_server_lem obscured_by server s) (λ c s2 h. h) (λ e' s2 h. h))
          e in
      ForOk-ok (Finished obscured_by server (view s)) (finalize_to_obscure migration persisted)
        (finalize_lem obscured_by server persisted (view s) migration full prepared) f
