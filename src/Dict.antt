-- ===== src/Dict.antt =====
-- Hash maps and hash sets with text keys, as association lists. No operation of the program that
-- is modelled depends on the order of the entries.
pub mod Laws
use ssh_mountmate.Base.{Bool, true, false, Option, none, some, List, [], ◌∷◌, if◌then◌else◌, any}
use ssh_mountmate.Text.{Text, text_eq}

abbrev pub Dict {ℓ} : Type ℓ → Type ℓ
Dict V = List (Text × V)

-- `HashSet::contains`
unfoldable pub mem : Text → List Text → Bool
mem k xs = any (λ x. text_eq x k) xs

module _ {ℓ} {V : Type ℓ} where
  -- `get`
  unfoldable pub lookup : Text → Dict V → Option V
  lookup k [] = none
  lookup k ((j, v) ∷ m) = let rest = lookup k m in if text_eq j k then some v else rest

  -- `insert`, which replaces the value of a key that is there
  unfoldable pub insert : Text → V → Dict V → Dict V
  insert k v [] = (k, v) ∷ []
  insert k v ((j, w) ∷ m) =
      let rest = insert k v m in if text_eq j k then (k, v) ∷ m else (j, w) ∷ rest

  -- `retain` with a test on keys
  unfoldable pub retain : (Text → Bool) → Dict V → Dict V
  retain p [] = []
  retain p ((j, w) ∷ m) = let rest = retain p m in if p j then (j, w) ∷ rest else rest

  -- `remove`
  unfoldable pub remove : Text → Dict V → Dict V
  remove k [] = []
  remove k ((j, w) ∷ m) = let rest = remove k m in if text_eq j k then rest else (j, w) ∷ rest
