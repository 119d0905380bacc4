-- ===== src/Ssh/Quoting.antt =====
-- What `quote_ssh_value` writes is read back by `split_ssh_words` as one word.
use ssh_mountmate.Base.{
  ℕ, ◌≡◌, refl, sym, ap, ◌∙◌, Bool, true, false, not, ◌&&◌, ◌||◌, none, some, [], ◌∷◌, ◌++◌, any,
  all, arith, ◌==◌, Bool-cases, inl, inr, append_assoc, append-nil, ==_iff,
}
use ssh_mountmate.Text.{Text, codes, is_empty, is_whitespace, starts_with, replace_char}
use ssh_mountmate.Ssh.{
  quote_ssh_value, split_ssh_words, needs_quotes, scan_words, step_char, step_quote, finish_words,
  start_scan, WordScan,
}

-- A value with no backslash that is quoted, or that has no apostrophe and no `#` in front.
unfoldable pub is_quotable : Text → Bool
is_quotable value =
    all (λ c. not (c == b'\\')) value
    && (needs_quotes value
        || all (λ c. not (c == b'\'')) value && not (starts_with value (codes "#")))

no_backslash :
    (s : Text) → all (λ c. not (c == b'\\')) s ≡ true → replace_char b'\\' (codes "\\\\") s ≡ s
unfolding replace_char
no_backslash [] h = refl
no_backslash (c ∷ s) h =
    let e : (c == b'\\') ≡ false = ground arith in
    rw e (ap (λ t. c ∷ t) (no_backslash s (ground arith)))

-- In the quotes.
abbrev inside : Text → WordScan
inside t = record { words = []; current = t; quote = some b'"'; literal = false; stopped = false }

abbrev outside : Text → WordScan
outside t = record { words = []; current = t; quote = none; literal = false; stopped = false }

not_empty : (s : Text) (c : ℕ) → is_empty (s ++ c ∷ []) ≡ false
not_empty [] c = refl
not_empty (d ∷ s) c = refl

scan_escaped :
    (cur rest : Text)
    → scan_words (inside cur) (b'\\' ∷ b'"' ∷ rest) ≡ scan_words (inside (cur ++ b'"' ∷ [])) rest
unfolding scan_words step_char step_quote is_whitespace
scan_escaped cur rest = refl

push_inside :
    (cur rest : Text) (c : ℕ)
    → (c == b'\\') ≡ false
    → (c == b'"') ≡ false
    → step_char c rest (inside cur) ≡ inside (cur ++ c ∷ [])
unfolding step_char step_quote
push_inside cur rest c h k = rw h (rw k refl)

scan_inside :
    (cur s : Text)
    → all (λ c. not (c == b'\\')) s ≡ true
    → scan_words (inside cur) (replace_char b'"' (codes "\\\"") s ++ codes "\"")
      ≡ finish_words (outside (cur ++ s))
unfolding replace_char
scan_inside cur [] h =
    unfold scan_words step_char step_quote in
    ap (λ t. finish_words (outside t)) (sym (append-nil cur))
scan_inside cur (c ∷ s) h =
    let rest = replace_char b'"' (codes "\\\"") s ++ codes "\"" in
    elim (Bool-cases (c == b'"')) [
      | inl e ↦ rw e (
          scan_escaped cur rest
          ∙ scan_inside (cur ++ b'"' ∷ []) s (ground arith)
          ∙ ap (λ t. finish_words (outside t))
              (append_assoc cur (b'"' ∷ []) s ∙ ap (λ d. cur ++ d ∷ s) (sym ((==_iff c b'"').0 e))))
      | inr e ↦ rw e (
          next cur c rest (push_inside cur rest c (ground arith) e)
          ∙ scan_inside (cur ++ c ∷ []) s (ground arith)
          ∙ ap (λ t. finish_words (outside t)) (append_assoc cur (c ∷ []) s))
    ]
  where
    next :
        (cur : Text) (c : ℕ) (rest : Text)
        → step_char c rest (inside cur) ≡ inside (cur ++ c ∷ [])
        → scan_words (inside cur) (c ∷ rest) ≡ scan_words (inside (cur ++ c ∷ [])) rest
    next cur c rest e = unfold scan_words in rw e refl

push_outside :
    (cur s : Text) (c : ℕ)
    → (c == b'\\') ≡ false
    → (c == b'"') ≡ false
    → (c == b'\'') ≡ false
    → is_whitespace c ≡ false
    → (c == b'#' && is_empty cur) ≡ false
    → step_char c s (outside cur) ≡ outside (cur ++ c ∷ [])
unfolding step_char step_quote
push_outside cur s c h k l m n = rw h (rw l (rw k (rw n (rw m refl))))

scan_outside :
    (cur s : Text)
    → any (λ c. is_whitespace c || c == b'"' || c == b'\\') s ≡ false
    → all (λ c. not (c == b'\'')) s ≡ true
    → (is_empty cur && starts_with s (codes "#")) ≡ false
    → scan_words (outside cur) s ≡ finish_words (outside (cur ++ s))
unfolding scan_words
scan_outside cur [] h k n = ap (λ t. finish_words (outside t)) (sym (append-nil cur))
scan_outside cur (c ∷ s) h k n =
    let more : (is_empty (cur ++ c ∷ []) && starts_with s (codes "#")) ≡ false =
      rw (not_empty cur c) refl in
    let hash : (c == b'#' && is_empty cur) ≡ false = unfold starts_with in ground arith in
    rw (push_outside cur s c (ground arith) (ground arith) (ground arith) (ground arith) hash) (
      scan_outside (cur ++ c ∷ []) s (ground arith) (ground arith) more
      ∙ ap (λ t. finish_words (outside t)) (append_assoc cur (c ∷ []) s))

scan_open : (rest : Text) → scan_words start_scan (b'"' ∷ rest) ≡ scan_words (inside []) rest
unfolding scan_words step_char step_quote is_whitespace
scan_open rest = refl

finish_one : (t : Text) → is_empty t ≡ false → finish_words (outside t) ≡ t ∷ []
unfolding finish_words
finish_one t h = rw h refl

-- A value that is not empty and has no backslash, which needs quotes or has neither an apostrophe
-- nor a `#` in front, is read back as the one word that was written.
pub split_ssh_words-quote_ssh_value :
    (value : Text)
    → is_empty value ≡ false
    → is_quotable value ≡ true
    → split_ssh_words (quote_ssh_value value) ≡ value ∷ []
unfolding split_ssh_words quote_ssh_value is_quotable
split_ssh_words-quote_ssh_value value k h = elim (Bool-cases (needs_quotes value)) [
  | inl e ↦ rw e (
      rw (no_backslash value (ground arith)) (
        scan_open (replace_char b'"' (codes "\\\"") value ++ codes "\"")
        ∙ scan_inside [] value (ground arith)
        ∙ finish_one value k))
  | inr e ↦
      rw e (scan_outside [] value (ground arith) (ground arith) (ground arith) ∙ finish_one value k)
]
