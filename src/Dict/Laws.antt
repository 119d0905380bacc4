-- ===== src/Dict/Laws.antt =====
-- The laws of the maps, as equations with a test.
use ssh_mountmate.Base.{
  ◌≡◌, refl, ap, Bool, none, some, [], ◌∷◌, arith, if◌then◌else◌, Bool-cases, inl, inr,
}
use ssh_mountmate.Text.{Text, text_eq, text_eq_iff, text_eq_sound}
use ssh_mountmate.Dict.{Dict, lookup, insert, retain, remove}

module _ {ℓ} {V : Type ℓ} where
  pub lookup-insert :
      (k j : Text) (v : V) (m : Dict V)
      → lookup j (insert k v m) ≡ (if text_eq k j then some v else lookup j m)
  unfolding lookup insert
  lookup-insert k j v [] = refl
  lookup-insert k j v ((i, w) ∷ m) =
      ground (arith, lookup-insert k j v m, text_eq_iff k j, text_eq_iff i j, text_eq_iff i k)

  pub lookup-remove :
      (k j : Text) (m : Dict V) → lookup j (remove k m) ≡ (if text_eq k j then none else lookup j m)
  unfolding lookup remove
  lookup-remove k j [] = ground arith
  lookup-remove k j ((i, w) ∷ m) =
      ground (arith, lookup-remove k j m, text_eq_iff k j, text_eq_iff i j, text_eq_iff i k)

  pub lookup-retain :
      (p : Text → Bool) (j : Text) (m : Dict V)
      → lookup j (retain p m) ≡ (if p j then lookup j m else none)
  unfolding lookup retain
  lookup-retain p j [] = ground arith
  lookup-retain p j ((i, w) ∷ m) = elim (Bool-cases (text_eq i j)) [
    | inl e ↦ ground (arith, lookup-retain p j m, ap p (text_eq_sound i j e))
    | inr e ↦ ground (arith, lookup-retain p j m)
  ]
