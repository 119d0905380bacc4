-- ===== src/Capacity/Tables.antt =====
-- `parse_lustre_quota` and `parse_filesystem_capacity`: the first usable row of a printed table.
use ssh_mountmate.Base.{
  ℕ, max, Bool, ◌||◌, Option, none, some, List, [], ◌∷◌, ltb, leb, if◌then◌else◌, sat_add, sat_mul,
  u64_max,
}
use ssh_mountmate.Text.{
  Text, codes, text_eq, is_empty, trim, starts_with, strip_suffix, to_ascii_lowercase, lines,
  split_whitespace,
}
use ssh_mountmate.Text.Decimal.{parse_uint}
use ssh_mountmate.Capacity.{
  CapacityInfo, InodeInfo, lustre_project_quota, remote_filesystem, capacity_from_usage,
  inode_from_usage, with_inode_soft,
}

-- `strip_suffix('*').unwrap_or(value)`
abbrev pub unmarked : Text → Text
unmarked value = elim (strip_suffix value (codes "*")) [ none ↦ value | some v ↦ v ]

unfoldable pub parse_quota_used_token : Text → Option ℕ
parse_quota_used_token value = parse_uint u64_max (unmarked value)

abbrev pub positive : Option ℕ → Option ℕ
positive none = none
positive (some n) = if ltb 0 n then some n else none

unfoldable pub parse_quota_limit_token : Text → Option ℕ
parse_quota_limit_token value =
    let v = unmarked value in
    if text_eq v (codes "-") || text_eq v (codes "--")
    then none
    else positive (parse_uint u64_max v)

-- What one line contributes: `continue`, or the result that is returned.
pub data Row : Type 0 where
  skip : Row
  done : Option CapacityInfo → Row

-- The fields of a row: a row that does not start with a usage starts with a path.
unfoldable pub quota_fields : List Text → Option (List Text)
quota_fields [] = none
quota_fields (w ∷ ws) = elim (parse_quota_used_token w) [
  | some used ↦ some (w ∷ ws)
  | none ↦ if is_empty ws then none else some ws
]

abbrev pub soft_kib : Option ℕ → ℕ → Option ℕ
soft_kib none limit = none
soft_kib (some soft) limit = if leb soft limit then some (sat_mul soft 1024) else none

abbrev pub soft_inodes : Option ℕ → ℕ → Option ℕ
soft_inodes none limit = none
soft_inodes (some soft) limit = if leb soft limit then some soft else none

unfoldable pub inode_numbers : Option ℕ → Option ℕ → Option ℕ → Option InodeInfo
unfolding inode_from_usage
inode_numbers (some used) (some limit) soft =
    with_inode_soft (soft_inodes soft limit) (inode_from_usage limit used)
inode_numbers _ _ soft = none

-- The columns behind the block quota and its grace period.
unfoldable pub quota_inodes : List Text → Option InodeInfo
unfolding inode_numbers
quota_inodes (grace ∷ used ∷ soft ∷ limit ∷ rest) =
    inode_numbers (parse_quota_used_token used) (parse_quota_limit_token limit)
      (parse_quota_limit_token soft)
quota_inodes _ = none

abbrev pub with_limits : Option ℕ → Option InodeInfo → Option CapacityInfo → Option CapacityInfo
with_limits soft inode none = none
with_limits soft inode (some c) = some (record c { soft_total = soft; inode = inode })

-- The block quota, once its two numbers are read.
unfoldable pub quota_numbers : Option ℕ → Option ℕ → Text → List Text → Row
unfolding capacity_from_usage quota_inodes
quota_numbers (some used) (some limit) soft rest = done (
    with_limits (soft_kib (parse_quota_limit_token soft) limit) (quota_inodes rest)
      (capacity_from_usage (sat_mul limit 1024) (sat_mul used 1024) lustre_project_quota))
quota_numbers _ _ soft rest = skip

unfoldable pub quota_row : List Text → Row
unfolding quota_numbers
quota_row (used ∷ soft ∷ limit ∷ rest) =
    quota_numbers (parse_quota_used_token used) (parse_quota_limit_token limit) soft rest
quota_row _ = skip

abbrev pub row_of_fields : Option (List Text) → Row
row_of_fields none = skip
row_of_fields (some fields) = quota_row fields

-- The heading lines of the table, and blank ones.
unfoldable pub is_quota_heading : Text → Bool
is_quota_heading line =
    is_empty line
    || starts_with line (codes "Disk ")
    || starts_with (to_ascii_lowercase line) (codes "filesystem")

unfoldable pub quota_line : Text → Row
unfolding quota_row is_quota_heading
quota_line raw =
    let line = trim raw in
    if is_quota_heading line then skip else row_of_fields (quota_fields (split_whitespace line))

-- `continue` goes to the next line, and `return` stops.
abbrev pub or_next : Row → Option CapacityInfo → Option CapacityInfo
or_next skip next = next
or_next (done r) next = r

unfoldable pub first_row : (Text → Row) → List Text → Option CapacityInfo
first_row row [] = none
first_row row (line ∷ rest) = let next = first_row row rest in or_next (row line) next

unfoldable pub parse_lustre_quota : Text → Option CapacityInfo
unfolding first_row quota_line
parse_lustre_quota output = first_row quota_line (lines output)

unfoldable pub filesystem_info : ℕ → ℕ → ℕ → Option CapacityInfo
unfolding capacity_from_usage
filesystem_info total used available =
    capacity_from_usage (sat_mul (max total (sat_add used available)) 1024) (sat_mul used 1024)
      remote_filesystem

unfoldable pub filesystem_numbers : Option ℕ → Option ℕ → Option ℕ → Row
unfolding filesystem_info
filesystem_numbers (some total) (some used) (some available) =
    done (filesystem_info total used available)
filesystem_numbers _ _ _ = skip

unfoldable pub filesystem_row : List Text → Row
unfolding filesystem_numbers
filesystem_row (total ∷ used ∷ available ∷ rest) =
    filesystem_numbers (parse_uint u64_max total) (parse_uint u64_max used)
      (parse_uint u64_max available)
filesystem_row _ = skip

abbrev pub filesystem_line : Text → Row
filesystem_line line = filesystem_row (split_whitespace line)

unfoldable pub parse_filesystem_capacity : Text → Option CapacityInfo
unfolding first_row filesystem_row
parse_filesystem_capacity output = first_row filesystem_line (lines output)
