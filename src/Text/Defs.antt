-- ===== src/Text/Defs.antt =====
-- Texts as lists of code points, with the operations of `str`, `char` and `String`.
use Prim.Native.Char.{code}
use Prim.Native.String.{String}
use mathlib.Core.List.{reverse}
use ssh_mountmate.Base.{
  ℕ, ◌+◌, ◌-◌, Bool, true, false, ◌&&◌, ◌||◌, Option, none, some, List, [], ◌∷◌, ◌++◌, ltb, ◌==◌,
  if◌then◌else◌, within,
}

abbrev pub Text : Type 0
Text = List ℕ

-- The code points of a literal.
abbrev pub codes : String → Text
codes String.[] = []
codes (String.◌∷◌ c s) = code c ∷ codes s

unfoldable pub text_eq : Text → Text → Bool
text_eq [] [] = true
text_eq [] (d ∷ t) = false
text_eq (c ∷ s) [] = false
text_eq (c ∷ s) (d ∷ t) = c == d && text_eq s t

abbrev pub is_empty {ℓ} : {A : Type ℓ} → List A → Bool
is_empty [] = true
is_empty (c ∷ s) = false

-- `char::is_whitespace`: the Unicode property White_Space.
unfoldable pub is_whitespace : ℕ → Bool
is_whitespace c =
    within 0x09 0x0d c
    || c == 0x20
    || c == 0x85
    || c == 0xa0
    || c == 0x1680
    || within 0x2000 0x200a c
    || c == 0x2028
    || c == 0x2029
    || c == 0x202f
    || c == 0x205f
    || c == 0x3000

-- `char::is_control`: the general category Cc.
unfoldable pub is_control : ℕ → Bool
is_control c = within 0x00 0x1f c || within 0x7f 0x9f c

unfoldable pub is_digit : ℕ → Bool
is_digit c = within b'0' b'9' c

unfoldable pub is_ascii_alphabetic : ℕ → Bool
is_ascii_alphabetic c = within b'a' b'z' c || within b'A' b'Z' c

unfoldable pub is_ascii_alphanumeric : ℕ → Bool
unfolding is_digit is_ascii_alphabetic
is_ascii_alphanumeric c = is_digit c || is_ascii_alphabetic c

unfoldable pub is_ascii_hexdigit : ℕ → Bool
unfolding is_digit
is_ascii_hexdigit c = is_digit c || within b'a' b'f' c || within b'A' b'F' c

unfoldable pub is_ascii_uppercase : ℕ → Bool
is_ascii_uppercase c = within b'A' b'Z' c

unfoldable pub ascii_lower : ℕ → ℕ
ascii_lower c = if within b'A' b'Z' c then c + 32 else c

unfoldable pub ascii_upper : ℕ → ℕ
ascii_upper c = if within b'a' b'z' c then c - 32 else c

abbrev pub map_text : (ℕ → ℕ) → Text → Text
map_text f [] = []
map_text f (c ∷ s) = f c ∷ map_text f s

-- `str::to_ascii_lowercase`
unfoldable pub to_ascii_lowercase : Text → Text
to_ascii_lowercase = map_text ascii_lower

unfoldable pub eq_ignore_ascii_case : Text → Text → Bool
unfolding to_ascii_lowercase
eq_ignore_ascii_case s t = text_eq (to_ascii_lowercase s) (to_ascii_lowercase t)

-- `trim_start_matches`, `trim_end_matches`, `trim_matches` with a test on characters.
unfoldable pub trim_start_by : (ℕ → Bool) → Text → Text
trim_start_by p [] = []
trim_start_by p (c ∷ s) = let rest = trim_start_by p s in if p c then rest else c ∷ s

-- The characters that pass the test at the end fall: a character stays where something stays
-- behind it.
unfoldable pub trim_end_by : (ℕ → Bool) → Text → Text
trim_end_by p [] = []
trim_end_by p (c ∷ s) = let rest = trim_end_by p s in if p c && is_empty rest then [] else c ∷ rest

unfoldable pub trim_by : (ℕ → Bool) → Text → Text
trim_by p s = trim_end_by p (trim_start_by p s)

-- `str::trim`
unfoldable pub trim : Text → Text
trim = trim_by is_whitespace

unfoldable pub trim_start : Text → Text
trim_start = trim_start_by is_whitespace

unfoldable pub starts_with : Text → Text → Bool
starts_with s [] = true
starts_with [] (c ∷ p) = false
starts_with (d ∷ s) (c ∷ p) = c == d && starts_with s p

-- `str::strip_prefix`
unfoldable pub strip_prefix : Text → Text → Option Text
strip_prefix s [] = some s
strip_prefix [] (c ∷ p) = none
strip_prefix (d ∷ s) (c ∷ p) = let rest = strip_prefix s p in if c == d then rest else none

unfoldable pub ends_with : Text → Text → Bool
ends_with [] p = is_empty p
ends_with (c ∷ s) p = text_eq (c ∷ s) p || ends_with s p

-- `str::strip_suffix`
unfoldable pub strip_suffix : Text → Text → Option Text
strip_suffix [] p = if is_empty p then some [] else none
strip_suffix (c ∷ s) p =
    let rest = strip_suffix s p in
    if text_eq (c ∷ s) p then some [] else elim rest [ none ↦ none | some r ↦ some (c ∷ r) ]

-- `str::contains` with a text.
unfoldable pub contains : Text → Text → Bool
contains [] p = is_empty p
contains (c ∷ s) p = starts_with (c ∷ s) p || contains s p

-- `str::replace` of one character by a text.
unfoldable pub replace_char : ℕ → Text → Text → Text
replace_char from to [] = []
replace_char from to (c ∷ s) =
    let rest = replace_char from to s in if c == from then to ++ rest else c ∷ rest

-- `str::split(separator)` with a character: always at least one piece.
unfoldable pub split_char : ℕ → Text → List Text
split_char sep [] = [] ∷ []
split_char sep (c ∷ s) =
    let rest = split_char sep s in
    if c == sep then [] ∷ rest else elim rest [ [] ↦ (c ∷ []) ∷ [] | w ∷ ws ↦ (c ∷ w) ∷ ws ]

-- `str::split_whitespace`; the first argument is the word that is being read, in reverse.
unfoldable pub split_words : Text → Text → List Text
split_words cur [] = if is_empty cur then [] else reverse cur ∷ []
split_words cur (c ∷ s) =
    let stop = split_words [] s in
    let go = split_words (c ∷ cur) s in
    if is_whitespace c then (if is_empty cur then stop else reverse cur ∷ stop) else go

unfoldable pub split_whitespace : Text → List Text
unfolding split_words
split_whitespace s = split_words [] s

-- `str::lines`: a final line end does not open a line, and `\r\n` ends a line too.
unfoldable pub strip_cr : Text → Text
strip_cr [] = []
strip_cr (c ∷ s) = let rest = strip_cr s in if c == b'\r' && is_empty s then [] else c ∷ rest

unfoldable pub lines_from : Text → Text → List Text
lines_from cur [] = if is_empty cur then [] else reverse cur ∷ []
lines_from cur (c ∷ s) =
    let stop = lines_from [] s in
    let go = lines_from (c ∷ cur) s in if c == b'\n' then strip_cr (reverse cur) ∷ stop else go

unfoldable pub lines : Text → List Text
unfolding lines_from strip_cr
lines s = lines_from [] s

-- The bytes of a character in UTF-8, and `str::len`.
unfoldable pub len_utf8 : ℕ → ℕ
len_utf8 c = if ltb c 0x80 then 1 else if ltb c 0x800 then 2 else if ltb c 0x10000 then 3 else 4

unfoldable pub byte_len : Text → ℕ
byte_len [] = 0
byte_len (c ∷ s) = len_utf8 c + byte_len s

-- `vec.join(separator)`
unfoldable pub join_texts : Text → List Text → Text
join_texts sep [] = []
join_texts sep (w ∷ []) = w
join_texts sep (w ∷ v ∷ ws) = w ++ sep ++ join_texts sep (v ∷ ws)
