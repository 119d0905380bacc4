-- ===== src/Capacity/Rows.antt =====
-- Every row of a printed table that returns a capacity returns a consistent one.
use ssh_mountmate.Base.{
  ℕ, ◌<◌, refl, Option, none, some, List, [], ◌∷◌, arith, sat_mul, u64_max, ◌==◌, ForSome,
  Bool-cases, inl, inr,
}
use ssh_mountmate.Text.{Text, lines, split_whitespace, trim}
use ssh_mountmate.Text.Decimal.{parse_uint}
use ssh_mountmate.Capacity.{
  CapacityInfo, InodeInfo, lustre_project_quota, remote_filesystem, capacity_from_usage,
}
use ssh_mountmate.Capacity.Tables.{
  Row, skip, done, first_row, or_next, quota_row, quota_line, quota_numbers, quota_inodes,
  inode_numbers, quota_fields, row_of_fields, is_quota_heading, parse_lustre_quota, filesystem_row,
  filesystem_line, filesystem_numbers, parse_filesystem_capacity, parse_quota_limit_token,
  parse_quota_used_token, soft_inodes, soft_kib, with_limits,
}
use ssh_mountmate.Capacity.Consistent.{
  SoftFits, InodeFits, Consistent, usage-Consistent, inode_from_usage-InodeFits,
}

-- Every row that returns a capacity returns a consistent one.
abbrev RowFits : Row → Type 0
RowFits skip = Unit {0}
RowFits (done o) = Consistent o

or_next-Consistent :
    (r : Row) (next : Option CapacityInfo)
    → RowFits r
    → Consistent next
    → Consistent (or_next r next)
or_next-Consistent skip next f h = h
or_next-Consistent (done o) next f h = f

first_row-Consistent :
    (row : Text → Row) (rows : List Text)
    → ((line : Text) → RowFits (row line))
    → Consistent (first_row row rows)
unfolding first_row
first_row-Consistent row [] fits = tt
first_row-Consistent row (line ∷ rows) fits =
    or_next-Consistent (row line) (first_row row rows) (fits line)
      (first_row-Consistent row rows fits)

numbers-RowFits : (t u a : Option ℕ) → RowFits (filesystem_numbers t u a)
unfolding filesystem_numbers
numbers-RowFits (some t) (some u) (some a) = usage-Consistent _ _ remote_filesystem
numbers-RowFits (some t) (some u) none = tt
numbers-RowFits (some t) none a = tt
numbers-RowFits none u a = tt

filesystem_row-RowFits : (fields : List Text) → RowFits (filesystem_row fields)
unfolding filesystem_row
filesystem_row-RowFits [] = tt
filesystem_row-RowFits (t ∷ []) = tt
filesystem_row-RowFits (t ∷ u ∷ []) = tt
filesystem_row-RowFits (t ∷ u ∷ a ∷ rest) =
    numbers-RowFits (parse_uint u64_max t) (parse_uint u64_max u) (parse_uint u64_max a)

pub filesystem-Consistent : (output : Text) → Consistent (parse_filesystem_capacity output)
unfolding parse_filesystem_capacity
filesystem-Consistent output =
    first_row-Consistent filesystem_line (lines output)
      (λ line. filesystem_row-RowFits (split_whitespace line))

-- A limit that is read is above zero.
limit-ForSome : (w : Text) → ForSome (λ n. 0 < n) (parse_quota_limit_token w)
unfolding parse_quota_limit_token
limit-ForSome w = ground arith

soft_inodes-SoftFits :
    (soft : Option ℕ) (limit : ℕ)
    → ForSome (λ n. 0 < n) soft
    → SoftFits limit (soft_inodes soft limit)
soft_inodes-SoftFits none limit h = tt
soft_inodes-SoftFits (some soft) limit h = ground arith

soft_kib-SoftFits :
    (soft : Option ℕ) (limit : ℕ)
    → ForSome (λ n. 0 < n) soft
    → SoftFits (sat_mul limit 1024) (soft_kib soft limit)
soft_kib-SoftFits none limit h = tt
soft_kib-SoftFits (some soft) limit h = ground arith

inode_numbers-InodeFits :
    (used limit soft : Option ℕ)
    → ForSome (λ n. 0 < n) soft
    → ForSome InodeFits (inode_numbers used limit soft)
unfolding inode_numbers
inode_numbers-InodeFits (some used) (some limit) soft h =
    inode_from_usage-InodeFits limit used (soft_inodes soft limit)
      (soft_inodes-SoftFits soft limit h)
inode_numbers-InodeFits (some used) none soft h = tt
inode_numbers-InodeFits none limit soft h = tt

quota_inodes-InodeFits : (rest : List Text) → ForSome InodeFits (quota_inodes rest)
unfolding quota_inodes
quota_inodes-InodeFits [] = tt
quota_inodes-InodeFits (g ∷ []) = tt
quota_inodes-InodeFits (g ∷ u ∷ []) = tt
quota_inodes-InodeFits (g ∷ u ∷ s ∷ []) = tt
quota_inodes-InodeFits (g ∷ u ∷ s ∷ l ∷ rest) =
    inode_numbers-InodeFits (parse_quota_used_token u) (parse_quota_limit_token l)
      (parse_quota_limit_token s) (limit-ForSome s)

with_limits-Consistent :
    (total used : ℕ) (soft : Option ℕ) (inode : Option InodeInfo)
    → SoftFits total soft
    → ForSome InodeFits inode
    → Consistent (with_limits soft inode (capacity_from_usage total used lustre_project_quota))
unfolding capacity_from_usage
with_limits-Consistent total used soft inode h k = elim (Bool-cases (total == 0)) [
  | inl e ↦ rw e tt
  | inr e ↦ rw e (record {
    has_total = ground arith;
    percent_exact = refl;
    usage_fits = tt;
    soft_fits = h;
    inode_fits = k;
  })
]

quota_numbers-RowFits :
    (used limit : Option ℕ) (soft : Text) (rest : List Text)
    → RowFits (quota_numbers used limit soft rest)
unfolding quota_numbers
quota_numbers-RowFits (some used) (some limit) soft rest =
    with_limits-Consistent (sat_mul limit 1024) (sat_mul used 1024)
      (soft_kib (parse_quota_limit_token soft) limit) (quota_inodes rest)
      (soft_kib-SoftFits (parse_quota_limit_token soft) limit (limit-ForSome soft))
      (quota_inodes-InodeFits rest)
quota_numbers-RowFits (some used) none soft rest = tt
quota_numbers-RowFits none limit soft rest = tt

quota_row-RowFits : (fields : List Text) → RowFits (quota_row fields)
unfolding quota_row
quota_row-RowFits [] = tt
quota_row-RowFits (u ∷ []) = tt
quota_row-RowFits (u ∷ s ∷ []) = tt
quota_row-RowFits (u ∷ s ∷ l ∷ rest) =
    quota_numbers-RowFits (parse_quota_used_token u) (parse_quota_limit_token l) s rest

row_of_fields-RowFits : (o : Option (List Text)) → RowFits (row_of_fields o)
row_of_fields-RowFits none = tt
row_of_fields-RowFits (some fields) = quota_row-RowFits fields

quota_line-RowFits : (line : Text) → RowFits (quota_line line)
unfolding quota_line
quota_line-RowFits line = elim (Bool-cases (is_quota_heading (trim line))) [
  | inl e ↦ rw e tt
  | inr e ↦ rw e (row_of_fields-RowFits (quota_fields (split_whitespace (trim line))))
]

pub lustre-Consistent : (output : Text) → Consistent (parse_lustre_quota output)
unfolding parse_lustre_quota
lustre-Consistent output = first_row-Consistent quota_line (lines output) quota_line-RowFits
