-- ===== src/Ssh/Words.antt =====
-- Words of an SSH configuration line: `quote_ssh_value`, `split_ssh_words`, `parse_ssh_directive`.
use ssh_mountmate.Base.{
  ℕ, Bool, true, false, ◌&&◌, ◌||◌, Option, none, some, List, [], ◌∷◌, ◌++◌, any, ◌==◌,
  if◌then◌else◌,
}
use ssh_mountmate.Text.{
  Text, codes, text_eq, is_empty, is_whitespace, trim_start, starts_with, strip_prefix,
  replace_char, eq_ignore_ascii_case,
}

abbrev pub needs_quotes : Text → Bool
needs_quotes value = is_empty value || any (λ c. is_whitespace c || c == b'"' || c == b'\\') value

unfoldable pub quote_ssh_value : Text → Text
quote_ssh_value value =
    if needs_quotes value
    then codes "\""
      ++ (replace_char b'"' (codes "\\\"") (replace_char b'\\' (codes "\\\\") value) ++ codes "\"")
    else value

-- What the loop of `split_ssh_words` keeps. `literal`: the next character is the one that `next`
-- takes behind a backslash. `stopped`: the loop has met a comment.
pub record WordScan : Type 0 where
  pub words : List Text
  pub current : Text
  pub quote : Option ℕ
  pub literal : Bool
  pub stopped : Bool

abbrev pub start_scan : WordScan
start_scan = record { words = []; current = []; quote = none; literal = false; stopped = false }

abbrev pub push_char : ℕ → WordScan → WordScan
push_char c st = record st { current = st.current ++ c ∷ [] }

-- The peeked character is one that a backslash escapes.
abbrev pub escapes : Text → Bool
escapes [] = false
escapes (c ∷ s) = is_whitespace c || c == b'\'' || c == b'"' || c == b'#'

unfoldable pub step_quote : Option ℕ → ℕ → WordScan → WordScan
step_quote (some active) c st = if c == active then record st { quote = none } else push_char c st
step_quote none c st =
    if c == b'\'' || c == b'"'
    then record st { quote = some c }
    else if c == b'#' && is_empty st.current
    then record st { stopped = true }
    else if is_whitespace c
    then (if is_empty st.current
        then st
        else record st { words = st.words ++ st.current ∷ []; current = [] })
    else push_char c st

unfoldable pub step_char : ℕ → Text → WordScan → WordScan
unfolding step_quote
step_char c rest st =
    if st.stopped
    then st
    else if st.literal
    then record (push_char c st) { literal = false }
    else if c == b'\\'
    then (if escapes rest then record st { literal = true } else push_char c st)
    else step_quote st.quote c st

unfoldable pub finish_words : WordScan → List Text
finish_words st = if is_empty st.current then st.words else st.words ++ st.current ∷ []

unfoldable pub scan_words : WordScan → Text → List Text
unfolding step_char finish_words
scan_words st [] = finish_words st
scan_words st (c ∷ s) = scan_words (step_char c s st) s

unfoldable pub split_ssh_words : Text → List Text
unfolding scan_words
split_ssh_words line = scan_words start_scan line

-- `find` and `split_at`: the keyword ends at white space or at `=`.
unfoldable pub split_keyword : Text → Text × Text
split_keyword [] = ([], [])
split_keyword (c ∷ s) =
    let rest = split_keyword s in
    if is_whitespace c || c == b'=' then ([], c ∷ s) else (c ∷ rest.0, rest.1)

-- `strip_prefix('=').unwrap_or(arguments)`
abbrev pub drop_equals : Text → Option Text → Text
drop_equals arguments none = arguments
drop_equals arguments (some rest) = rest

unfoldable pub parse_ssh_directive : Text → Option (Text × List Text)
unfolding split_keyword split_ssh_words
parse_ssh_directive raw =
    let line = trim_start raw in
    let parts = split_keyword line in
    let arguments = trim_start parts.1 in
    if is_empty line || starts_with line (codes "#")
    then none
    else some
        (parts.0, split_ssh_words (drop_equals arguments (strip_prefix arguments (codes "="))))

abbrev pub managed_pattern : Text
managed_pattern = codes "~/.ssh/ssh-mountmate.d/*.conf"

abbrev pub is_one_managed : List Text → Bool
is_one_managed (pattern ∷ []) = text_eq pattern managed_pattern
is_one_managed _ = false

abbrev pub includes_managed : Option (Text × List Text) → Bool
includes_managed none = false
includes_managed (some (keyword, arguments)) =
    eq_ignore_ascii_case keyword (codes "include") && is_one_managed arguments

unfoldable pub is_managed_include : Text → Bool
unfolding parse_ssh_directive
is_managed_include line = includes_managed (parse_ssh_directive line)
