-- ===== src/Capacity/Bounds.antt =====
-- The properties of every capacity that the program shows, and of its percentages.
use native.Mathlib.Nat.{div-add-mod', mod-lt}
use ssh_mountmate.Base.{ℕ, ◌+◌, ◌*◌, ◌/◌, ◌≡◌, ◌≤◌, ◌<◌, Option, some, arith, ForSome-some, min}
use ssh_mountmate.Text.{Text}
use ssh_mountmate.Capacity.{
  CapacityInfo, RcloneAbout, rounded_percent, capacity_from_about, local_mount_capacity,
}
use ssh_mountmate.Capacity.Tables.{parse_lustre_quota, parse_filesystem_capacity}
use ssh_mountmate.Capacity.Consistent.{IsConsistent, about-Consistent, local-Consistent}
use ssh_mountmate.Capacity.Rows.{lustre-Consistent, filesystem-Consistent}

-- The four ways in which the program comes by a capacity.
pub data Reported (c : CapacityInfo) : Type 0 where
  lustre : (output : Text) → parse_lustre_quota output ≡ some c → Reported c
  filesystem : (output : Text) → parse_filesystem_capacity output ≡ some c → Reported c
  about : (response : RcloneAbout) → capacity_from_about response ≡ some c → Reported c
  local : (total available : Option ℕ) → local_mount_capacity total available ≡ some c → Reported c

-- A capacity from any text of `lfs quota` or `df`, any response of `rclone about` or any answer of
-- the local file system is consistent: its total is above zero, its percentage is the rounded one
-- of its usage, the usage is within the total unless it is a Lustre quota's, and each soft limit,
-- of blocks or of inodes, is above zero and at most its hard limit.
pub Reported-IsConsistent : (c : CapacityInfo) → Reported c → IsConsistent c
Reported-IsConsistent c (lustre output e) = ForSome-some IsConsistent _ (lustre-Consistent output) e
Reported-IsConsistent c (filesystem output e) =
    ForSome-some IsConsistent _ (filesystem-Consistent output) e
Reported-IsConsistent c (about response e) =
    ForSome-some IsConsistent _ (about-Consistent response) e
Reported-IsConsistent c (local total available e) =
    ForSome-some IsConsistent _ (local-Consistent total available) e

division_bounds :
    (n total : ℕ) → 0 < total → (n / total * total ≤ n) × (n < n / total * total + total)
division_bounds n total h = omega (arith, div-add-mod' n total, mod-lt n h)

-- A quotient that is too small is no multiple above the bound.
quotient_le : (q total n : ℕ) → q * total ≤ n → n < 101 * total → q ≤ 100
quotient_le q total n h k = grind arith

-- For a usage within a total above zero the percentage is at most 100 and is the exact one, rounded
-- to the nearest whole number: it is off by at most half of one percent of the total.
pub rounded_percent_lem :
    (total used : ℕ)
    → 0 < total
    → used ≤ total
    → (rounded_percent total used ≤ 100)
      × (rounded_percent total used * total ≤ used * 100 + total / 2)
      × (used * 100 ≤ rounded_percent total used * total + total / 2)
unfolding rounded_percent
rounded_percent_lem total used h le =
    let n = used * 100 + total / 2 in
    let (low, high) = division_bounds n total h in
    let capped : n / total ≤ 100 = quotient_le (n / total) total n low (omega arith) in
    let exact : min (n / total) 100 ≡ n / total = omega arith in rw exact (capped, low, omega arith)
