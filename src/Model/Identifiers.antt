-- ===== src/Model/Identifiers.antt =====
-- `sanitize_id`: the form of the identifiers that name remotes and files.
use ssh_mountmate.Base.{
  ℕ, ◌≡◌, refl, ap, Bool, true, false, not, ◌&&◌, ◌||◌, [], ◌∷◌, ◌++◌, all, arith, Bool-cases, inl,
  inr,
}
use ssh_mountmate.Text.{
  Text, codes, is_empty, trim, trim_by, trim_start_by, trim_end_by, map_text, is_whitespace,
}
use ssh_mountmate.Text.Trim.{first_not, last_not, first_not-trim_by, last_not-trim_by, trim_by-id}
use ssh_mountmate.Model.{sanitize_id, safe_char, is_joiner}

module _ (is_alphanumeric : ℕ → Bool) where
  -- A character of an identifier.
  abbrev pub is_safe : ℕ → Bool
  is_safe c = is_alphanumeric c || is_joiner c

  -- Not empty, of safe characters only, and with an alphanumeric character at each end.
  abbrev pub is_identifier : Text → Bool
  is_identifier s =
      not (is_empty s) && all is_safe s && first_not is_joiner s && last_not is_joiner s

  all-trim_start :
      (s : Text) → all is_safe s ≡ true → all is_safe (trim_start_by is_joiner s) ≡ true
  unfolding trim_start_by
  all-trim_start [] h = refl
  all-trim_start (c ∷ s) h = ground (arith, all-trim_start s)

  all-trim_end : (s : Text) → all is_safe s ≡ true → all is_safe (trim_end_by is_joiner s) ≡ true
  unfolding trim_end_by
  all-trim_end [] h = refl
  all-trim_end (c ∷ s) h = ground (arith, all-trim_end s)

  all-safe_char : (s : Text) → all is_safe (map_text (safe_char is_alphanumeric) s) ≡ true
  all-safe_char [] = refl
  all-safe_char (c ∷ s) = ground (arith, all-safe_char s)

  safe_char-id : (s : Text) → all is_safe s ≡ true → map_text (safe_char is_alphanumeric) s ≡ s
  safe_char-id [] h = refl
  safe_char-id (c ∷ s) h =
      let e : safe_char is_alphanumeric c ≡ c = ground arith in
      rw e (ap (λ t. c ∷ t) (safe_char-id s (ground arith)))

  all-cleaned :
      (s : Text) → all is_safe (trim_by is_joiner (map_text (safe_char is_alphanumeric) s)) ≡ true
  unfolding trim_by
  all-cleaned s =
      all-trim_end (trim_start_by is_joiner (map_text (safe_char is_alphanumeric) s))
        (all-trim_start (map_text (safe_char is_alphanumeric) s) (all-safe_char s))

  -- For a random part that itself is an identifier, what `sanitize_id` returns is an identifier.
  pub sanitize_id-is_identifier :
      (nonce value : Text)
      → is_identifier (codes "server-" ++ nonce) ≡ true
      → is_identifier (sanitize_id is_alphanumeric nonce value) ≡ true
  unfolding sanitize_id
  sanitize_id-is_identifier nonce value h =
      let cleaned = trim_by is_joiner (map_text (safe_char is_alphanumeric) (trim value)) in
      elim (Bool-cases (is_empty cleaned)) [
        | inl e ↦ rw e h
        | inr e ↦ rw e (
            ground (
              arith,
              all-cleaned (trim value),
              first_not-trim_by is_joiner (map_text (safe_char is_alphanumeric) (trim value)),
              last_not-trim_by is_joiner (map_text (safe_char is_alphanumeric) (trim value)),
            ))
      ]

  first_safe :
      (s : Text)
      → ((c : ℕ) → is_alphanumeric c ≡ true → is_whitespace c ≡ false)
      → all is_safe s ≡ true
      → first_not is_whitespace s ≡ true
  first_safe [] h a = refl
  first_safe (c ∷ s) h a = ground (arith, h c, joiner_not_space c)
    where
      joiner_not_space : (c : ℕ) → is_joiner c ≡ true → is_whitespace c ≡ false
      joiner_not_space c e = unfold is_whitespace in ground arith

  last_safe :
      (s : Text)
      → ((c : ℕ) → is_alphanumeric c ≡ true → is_whitespace c ≡ false)
      → all is_safe s ≡ true
      → last_not is_whitespace s ≡ true
  last_safe [] h a = refl
  last_safe (c ∷ []) h a = first_safe (c ∷ []) h a
  last_safe (c ∷ d ∷ s) h a = last_safe (d ∷ s) h (ground arith)

  -- An identifier is left as it is, where no alphanumeric character is white space.
  pub sanitize_id-id :
      (nonce s : Text)
      → ((c : ℕ) → is_alphanumeric c ≡ true → is_whitespace c ≡ false)
      → is_identifier s ≡ true
      → sanitize_id is_alphanumeric nonce s ≡ s
  unfolding sanitize_id trim
  sanitize_id-id nonce s h k =
      rw (trim_by-id is_whitespace s (first_safe s h (ground arith)) (last_safe s h (ground arith)))
        (rw (safe_char-id s (ground arith))
          (rw (trim_by-id is_joiner s (ground arith) (ground arith)) (ground arith)))
