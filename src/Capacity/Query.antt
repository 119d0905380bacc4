-- ===== src/Capacity/Query.antt =====
-- `mounted_capacity`, on the outcomes of its four queries, and the quoting of the remote path that
-- two of them hand to `sh -s --`.
use ssh_mountmate.Base.{
  ◌≡◌, refl, ◌∙◌, Bool, true, false, Option, none, some, [], ◌∷◌, ◌++◌, arith, ◌==◌, if◌then◌else◌,
  ◌⊎◌,
}
use ssh_mountmate.Text.{Text, codes, replace_char}
use ssh_mountmate.Capacity.{CapacityInfo}

-- An error is kept as the query that failed.
pub data CapacityError : Type 0 where
  project_failed rclone_failed remote_failed : CapacityError

-- What a query that may fail returns.
pub data Outcome : Type 0 where
  ok : Option CapacityInfo → Outcome
  err : CapacityError → Outcome

-- The last `match`: the first error in this order, or no capacity.
unfoldable pub no_capacity : Outcome → Outcome → Outcome → Outcome
no_capacity (err e) remote project = err e
no_capacity (ok o) (err e) project = err e
no_capacity (ok o) (ok p) (err e) = err e
no_capacity (ok o) (ok p) (ok q) = ok none

abbrev pub found_or : Outcome → Outcome → Outcome
found_or (ok (some c)) next = ok (some c)
found_or (ok none) next = next
found_or (err e) next = next

unfoldable pub mounted_capacity : Outcome → Option CapacityInfo → Outcome → Outcome → Outcome
unfolding no_capacity
mounted_capacity project local rclone remote =
    found_or project
      (found_or (ok local) (found_or rclone (found_or remote (no_capacity rclone remote project))))

unfoldable pub quote_remote_shell_argument : Text → Text
quote_remote_shell_argument value = b'\'' ∷ (replace_char b'\'' (codes "'\\''") value ++ b'\'' ∷ [])

-- A query's answer, in the order of preference.
abbrev pub answer : Outcome → Option CapacityInfo
answer (ok o) = o
answer (err e) = none

abbrev pub or_else : Option CapacityInfo → Option CapacityInfo → Option CapacityInfo
or_else none next = next
or_else (some c) next = some c

abbrev pub is_err : Outcome → Bool
is_err (ok o) = false
is_err (err e) = true

-- For all outcomes of the four queries, a capacity is returned exactly as the first that has one of
-- the project quota, the local file system, `rclone about` and the remote file system; and an
-- error is returned only if none has one and a query failed.
pub mounted_capacity_lem :
    (project rclone remote : Outcome) (local : Option CapacityInfo)
    → (answer (mounted_capacity project local rclone remote)
        ≡ or_else (answer project) (or_else local (or_else (answer rclone) (answer remote))))
      × ((is_err (mounted_capacity project local rclone remote) ≡ false)
          ⊎ ((or_else (answer project) (or_else local (or_else (answer rclone) (answer remote)))
                ≡ none)
              × ((is_err project ≡ true) ⊎ (is_err rclone ≡ true) ⊎ (is_err remote ≡ true))))
unfolding mounted_capacity
mounted_capacity_lem project rclone remote local = ground arith

-- How a POSIX shell reads a word of quoted pieces: within single quotes everything up to the next
-- one stands for itself; outside a backslash quotes one character. Any other character outside
-- quotes may mean something to the shell, and is refused.
unfoldable pub shell_word : Bool → Text → Option Text
shell_word true [] = none
shell_word true (c ∷ s) =
    let closed = shell_word false s in
    let rest = shell_word true s in
    if c == b'\'' then closed else elim rest [ none ↦ none | some w ↦ some (c ∷ w) ]
shell_word false [] = some []
shell_word false (c ∷ []) = none
shell_word false (c ∷ d ∷ s) =
    let opened = shell_word true (d ∷ s) in
    let rest = shell_word false s in
    if c == b'\''
    then opened
    else if c == b'\\'
    then elim rest [ none ↦ none | some w ↦ some (d ∷ w) ]
    else none

-- A quote opens a piece.
shell_word_open :
    (t : Text) → shell_word false (b'\'' ∷ (t ++ b'\'' ∷ [])) ≡ shell_word true (t ++ b'\'' ∷ [])
unfolding shell_word
shell_word_open [] = refl
shell_word_open (c ∷ t) = refl

shell_word-replaced :
    (value : Text)
    → shell_word true (replace_char b'\'' (codes "'\\''") value ++ b'\'' ∷ []) ≡ some value
unfolding shell_word replace_char
shell_word-replaced [] = refl
shell_word-replaced (c ∷ value) =
    ground
      (arith, shell_word-replaced value, shell_word_open (replace_char b'\'' (codes "'\\''") value))

-- Whatever the remote path, the shell reads its quoted form as one word, which is the path.
pub shell_word-quote_remote_shell_argument :
    (value : Text) → shell_word false (quote_remote_shell_argument value) ≡ some value
unfolding quote_remote_shell_argument
shell_word-quote_remote_shell_argument value =
    shell_word_open (replace_char b'\'' (codes "'\\''") value) ∙ shell_word-replaced value
