-- ===== src/Ssh/Included.antt =====
-- The dedicated Include is written once, and a second run changes nothing.
use ssh_mountmate.Base.{
  ℕ, ◌≡◌, refl, sym, ap, ◌∙◌, subst, Bool, true, false, not, ◌||◌, ◌⊎◌, inl, inr, List, [], ◌∷◌,
  ◌++◌, keep_if, ◌==◌, if◌then◌else◌, arith, Bool-cases, append-nil, keep_if_idem, ==_iff,
}
use ssh_mountmate.Text.{
  Text, codes, contains, starts_with, text_eq, strip_prefix, trim_start, trim_start_by,
  is_whitespace, eq_ignore_ascii_case, to_ascii_lowercase, ascii_lower,
}
use ssh_mountmate.Ssh.{
  join_head, split_inclusive, concat_lines, include_line, other_lines, updated_config,
  is_managed_include, parse_ssh_directive, split_keyword, split_ssh_words, scan_words, step_char,
  step_quote, finish_words,
}

abbrev has_crlf : Text → Bool
has_crlf s = contains s (codes "\r\n")

-- The text is a whole line: what follows it is split on its own, and no `\r\n` crosses its end.
abbrev IsLine : Text → Type 0
IsLine l =
    ((t : Text) → split_inclusive (l ++ t) ≡ l ∷ split_inclusive t)
    × ((t : Text) → has_crlf (l ++ t) ≡ (has_crlf l || has_crlf t))

newline-IsLine : IsLine (codes "\n")
unfolding split_inclusive contains starts_with
newline-IsLine = (λ t. refl, λ t. refl)

under_or : (x y z w : Bool) → y ≡ (z || w) → (x || y) ≡ ((x || z) || w)
under_or true y z w e = refl
under_or false y z w e = e

IsLine-cons : (c : ℕ) (l : Text) → (c == b'\n') ≡ false → IsLine l → IsLine (c ∷ l)
unfolding split_inclusive contains starts_with
IsLine-cons c [] e h = absurd (cc (h.0 []))
IsLine-cons c (d ∷ l) e h = (
  λ t. rw e (rw (h.0 t) refl),
  λ t.
      under_or (starts_with (c ∷ d ∷ l) (codes "\r\n")) (has_crlf (d ∷ l ++ t)) (has_crlf (d ∷ l))
        (has_crlf t) (h.1 t),
)

-- Lines of a text: all are whole but the last, which may lack its end.
abbrev AreLines : List Text → Type 0
AreLines [] = Unit
AreLines (l ∷ ls) = (IsLine l ⊎ ((ls ≡ []) × (split_inclusive l ≡ l ∷ []))) × AreLines ls

split-AreLines : (s : Text) → AreLines (split_inclusive s)
unfolding split_inclusive
split-AreLines [] = tt
split-AreLines (c ∷ s) = elim (Bool-cases (c == b'\n')) [
  | inl e ↦ rw e (
    inl (subst (λ d. IsLine (d ∷ [])) (sym ((==_iff c b'\n').0 e)) newline-IsLine),
    split-AreLines s,
  )
  | inr e ↦ rw e (go (split_inclusive s) (split-AreLines s) e)
]
  where
    go : (ls : List Text) → AreLines ls → (c == b'\n') ≡ false → AreLines (join_head c ls)
    go [] h e = (inr (refl, rw e refl), tt)
    go (l ∷ ls) (inl k, h) e = (inl (IsLine-cons c l e k), h)
    go (l ∷ ls) (inr (n, k), h) e = (inr (n, rw e (rw k refl)), h)

split-concat : (ls : List Text) → AreLines ls → split_inclusive (concat_lines ls) ≡ ls
split-concat [] h = unfold split_inclusive in refl
split-concat (l ∷ ls) (inl k, h) = k.0 (concat_lines ls) ∙ ap (λ t. l ∷ t) (split-concat ls h)
split-concat (l ∷ ls) (inr (n, k), h) = rw n (rw (append-nil l) k)

keep-AreLines : (p : Text → Bool) (ls : List Text) → AreLines ls → AreLines (keep_if p ls)
keep-AreLines p [] h = tt
keep-AreLines p (l ∷ ls) h = go (p l) h.0 (keep-AreLines p ls h.1)
  where
    go :
        (b : Bool)
        → IsLine l ⊎ ((ls ≡ []) × (split_inclusive l ≡ l ∷ []))
        → AreLines (keep_if p ls)
        → AreLines (if b then l ∷ keep_if p ls else keep_if p ls)
    go true (inl k) h = (inl k, h)
    go true (inr (n, k)) h = (inr (ap (keep_if p) n, k), h)
    go false k h = h

concat-split : (s : Text) → concat_lines (split_inclusive s) ≡ s
unfolding split_inclusive
concat-split [] = refl
concat-split (c ∷ s) = elim (Bool-cases (c == b'\n')) [
  | inl e ↦ rw e (ap (λ t. c ∷ t) (concat-split s))
  | inr e ↦ rw e (joined (split_inclusive s) ∙ ap (λ t. c ∷ t) (concat-split s))
]
  where
    joined : (ls : List Text) → concat_lines (join_head c ls) ≡ c ∷ concat_lines ls
    joined [] = refl
    joined (l ∷ ls) = refl

-- Leaving lines out makes no `\r\n`.
keep-has_crlf :
    (p : Text → Bool) (ls : List Text)
    → AreLines ls
    → has_crlf (concat_lines ls) ≡ false
    → has_crlf (concat_lines (keep_if p ls)) ≡ false
keep-has_crlf p [] h e = e
keep-has_crlf p (l ∷ ls) (inl k, h) e =
    let both : (has_crlf l || has_crlf (concat_lines ls)) ≡ false =
      sym (k.1 (concat_lines ls)) ∙ e in
    go (p l) (keep-has_crlf p ls h (ground (arith, both))) (ground (arith, both))
  where
    go :
        (b : Bool)
        → has_crlf (concat_lines (keep_if p ls)) ≡ false
        → has_crlf l ≡ false
        → has_crlf (concat_lines (if b then l ∷ keep_if p ls else keep_if p ls)) ≡ false
    go true f g = k.1 (concat_lines (keep_if p ls)) ∙ (rw g f)
    go false f g = f
keep-has_crlf p (l ∷ ls) (inr (n, k), h) e =
    let only : has_crlf (l ++ []) ≡ false =
      subst (λ x. has_crlf (l ++ concat_lines x) ≡ false) n e in
    rw n (go (p l) only)
  where
    go :
        (b : Bool)
        → has_crlf (l ++ []) ≡ false
        → has_crlf (concat_lines (if b then l ∷ [] else [])) ≡ false
    go true f = f
    go false f = unfold contains in refl

include_line-IsLine :
    (crlf : Bool) (t : Text)
    → split_inclusive (include_line crlf ++ t) ≡ include_line crlf ∷ split_inclusive t
unfolding split_inclusive
include_line-IsLine true t = refl
include_line-IsLine false t = refl

include_line-managed : (crlf : Bool) → is_managed_include (include_line crlf) ≡ true
unfolding is_managed_include parse_ssh_directive split_keyword split_ssh_words scan_words step_char
    step_quote finish_words is_whitespace trim_start trim_start_by starts_with strip_prefix
    eq_ignore_ascii_case to_ascii_lowercase ascii_lower text_eq
include_line-managed true = refl
include_line-managed false = refl

include_line-crlf :
    (crlf : Bool) (t : Text) → has_crlf t ≡ false → has_crlf (include_line crlf ++ t) ≡ crlf
unfolding contains starts_with
include_line-crlf true t h = refl
include_line-crlf false t h = h

other_lines-updated :
    (crlf : Bool) (content : Text)
    → other_lines (include_line crlf ++ concat_lines (other_lines content)) ≡ other_lines content
other_lines-updated crlf content =
    let kept = other_lines content in
    let lines_kept =
      keep-AreLines (λ line. not (is_managed_include line)) (split_inclusive content)
        (split-AreLines content) in
    rw (include_line-IsLine crlf (concat_lines kept)) (
      rw (include_line-managed crlf) (
        rw (split-concat kept lines_kept)
          (keep_if_idem (λ line. not (is_managed_include line)) (split_inclusive content))))

other_lines-crlf :
    (crlf : Bool) (content : Text)
    → has_crlf content ≡ crlf
    → has_crlf (include_line crlf ++ concat_lines (other_lines content)) ≡ crlf
other_lines-crlf true content h = unfold contains starts_with in refl
other_lines-crlf false content h = include_line-crlf false (concat_lines (other_lines content)) (
    keep-has_crlf (λ line. not (is_managed_include line)) (split_inclusive content)
      (split-AreLines content) (ap (λ t. has_crlf t) (concat-split content) ∙ h))

-- A second run of the update of the configuration leaves its text as the first has left it: the
-- Include is not written twice, and the line ends stay.
pub updated_config_idem :
    (content : Text) → updated_config (updated_config content) ≡ updated_config content
unfolding updated_config
updated_config_idem content =
    let crlf = has_crlf content in
    let lines = concat_lines (other_lines content) in
    ap (λ b. include_line b ++ concat_lines (other_lines (include_line crlf ++ lines)))
      (other_lines-crlf crlf content refl)
    ∙ ap (λ ls. include_line crlf ++ concat_lines ls) (other_lines-updated crlf content)
