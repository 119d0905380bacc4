-- ===== src/Text/Trim.antt =====
-- Laws of trimming: what is trimmed stays trimmed, and a text with no such ends is left alone.
use ssh_mountmate.Base.{
  ℕ, ◌≡◌, refl, ◌∙◌, Bool, true, false, ◌&&◌, [], ◌∷◌, arith, Bool-cases, inl, inr, not,
  if◌then◌else◌,
}
use ssh_mountmate.Text.{Text, is_empty, trim_start_by, trim_end_by, trim_by, trim, is_whitespace}

-- A test on the first and on the last character, true of the empty text.
abbrev pub first_not : (ℕ → Bool) → Text → Bool
first_not p [] = true
first_not p (c ∷ s) = not (p c)

abbrev pub last_not : (ℕ → Bool) → Text → Bool
last_not p [] = true
last_not p (c ∷ []) = not (p c)
last_not p (c ∷ d ∷ s) = last_not p (d ∷ s)

module _ (p : ℕ → Bool) where
  first_not-trim_start : (s : Text) → first_not p (trim_start_by p s) ≡ true
  unfolding trim_start_by
  first_not-trim_start [] = refl
  first_not-trim_start (c ∷ s) = elim (Bool-cases (p c)) [
    | inl e ↦ rw e (first_not-trim_start s)
    | inr e ↦ rw e (rw e)
  ]

  first_not-trim_end : (s : Text) → first_not p s ≡ true → first_not p (trim_end_by p s) ≡ true
  unfolding trim_end_by
  first_not-trim_end [] h = refl
  first_not-trim_end (c ∷ s) h = ground arith

  last_not-cons : (c : ℕ) (s : Text) → is_empty s ≡ false → last_not p (c ∷ s) ≡ last_not p s
  last_not-cons c [] h = cc
  last_not-cons c (d ∷ s) h = refl

  last_not-trim_end : (s : Text) → last_not p (trim_end_by p s) ≡ true
  unfolding trim_end_by
  last_not-trim_end [] = refl
  last_not-trim_end (c ∷ s) = elim (Bool-cases (is_empty (trim_end_by p s))) [
    | inl e ↦ last_one c (trim_end_by p s) e
    | inr e ↦ rw e (go (p c) (trim_end_by p s) e (last_not-trim_end s))
  ]
    where
      last_one :
          (c : ℕ) (t : Text)
          → is_empty t ≡ true
          → last_not p (if p c && is_empty t then [] else c ∷ t) ≡ true
      last_one c [] e = ground arith
      last_one c (d ∷ t) e = cc

      go :
          (b : Bool) (t : Text)
          → is_empty t ≡ false
          → last_not p t ≡ true
          → last_not p (if b && false then [] else c ∷ t) ≡ true
      go true t e h = last_not-cons c t e ∙ h
      go false t e h = last_not-cons c t e ∙ h

  pub trim_start-id : (s : Text) → first_not p s ≡ true → trim_start_by p s ≡ s
  unfolding trim_start_by
  trim_start-id [] h = refl
  trim_start-id (c ∷ s) h = ground arith

  pub trim_end-id : (s : Text) → last_not p s ≡ true → trim_end_by p s ≡ s
  unfolding trim_end_by
  trim_end-id [] h = refl
  trim_end-id (c ∷ []) h = ground arith
  trim_end-id (c ∷ d ∷ s) h = rw (trim_end-id (d ∷ s) h) (ground arith)

  pub trim_by-id : (s : Text) → first_not p s ≡ true → last_not p s ≡ true → trim_by p s ≡ s
  unfolding trim_by
  trim_by-id s h k = rw (trim_start-id s h) (trim_end-id s k)

  pub first_not-trim_by : (s : Text) → first_not p (trim_by p s) ≡ true
  unfolding trim_by
  first_not-trim_by s = first_not-trim_end (trim_start_by p s) (first_not-trim_start s)

  pub last_not-trim_by : (s : Text) → last_not p (trim_by p s) ≡ true
  unfolding trim_by
  last_not-trim_by s = last_not-trim_end (trim_start_by p s)

  pub trim_by_idem : (s : Text) → trim_by p (trim_by p s) ≡ trim_by p s
  trim_by_idem s = trim_by-id (trim_by p s) (first_not-trim_by s) (last_not-trim_by s)

pub trim_idem : (s : Text) → trim (trim s) ≡ trim s
unfolding trim
trim_idem s = trim_by_idem is_whitespace s
