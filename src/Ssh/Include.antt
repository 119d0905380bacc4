-- ===== src/Ssh/Include.antt =====
-- `ensure_managed_include`: the text that the user's configuration is replaced by.
use ssh_mountmate.Base.{
  ℕ, Bool, true, false, not, List, [], ◌∷◌, ◌++◌, keep_if, ◌==◌, if◌then◌else◌,
}
use ssh_mountmate.Text.{Text, codes, contains}
use ssh_mountmate.Ssh.Words.{managed_pattern, is_managed_include}

abbrev pub join_head : ℕ → List Text → List Text
join_head c [] = (c ∷ []) ∷ []
join_head c (line ∷ rest) = (c ∷ line) ∷ rest

-- `split_inclusive('\n')`
unfoldable pub split_inclusive : Text → List Text
split_inclusive [] = []
split_inclusive (c ∷ s) =
    let rest = split_inclusive s in if c == b'\n' then (c ∷ []) ∷ rest else join_head c rest

-- `push_str` for each line.
abbrev pub concat_lines : List Text → Text
concat_lines [] = []
concat_lines (line ∷ rest) = line ++ concat_lines rest

abbrev pub line_end : Bool → Text
line_end true = codes "\r\n"
line_end false = codes "\n"

abbrev pub include_line : Bool → Text
include_line crlf = codes "Include " ++ (managed_pattern ++ line_end crlf)

-- The lines that are not the dedicated Include.
abbrev pub other_lines : Text → List Text
other_lines content = keep_if (λ line. not (is_managed_include line)) (split_inclusive content)

unfoldable pub updated_config : Text → Text
unfolding split_inclusive
updated_config content =
    include_line (contains content (codes "\r\n")) ++ concat_lines (other_lines content)
