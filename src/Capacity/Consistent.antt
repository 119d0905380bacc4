-- ===== src/Capacity/Consistent.antt =====
-- Consistent capacities, and those from usage numbers and from `rclone about`.
use ssh_mountmate.Base.{
  ℕ, zero, suc, ◌-◌, ◌≡◌, ◌≤◌, ◌<◌, Option, none, some, arith, sat_add, ForSome,
}
use ssh_mountmate.Capacity.{
  CapacityInfo, InodeInfo, CapacitySource, local_mountpoint, lustre_project_quota, rounded_percent,
  capacity_from_usage, inode_from_usage, soft_within, with_quota, quota_inode, capacity_from_about,
  RcloneAbout, LustreQuotaDetails, or_default, or_both, about_source, map_quota,
  local_mount_capacity, with_inode_soft,
}

-- A soft limit lies in the bar that the hard limit spans.
abbrev pub SoftFits : ℕ → Option ℕ → Type 0
SoftFits total = ForSome (λ soft. (0 < soft) × (soft ≤ total))

abbrev pub InodeFits : InodeInfo → Type 0
InodeFits i =
    (0 < i.total) × (i.percent ≡ rounded_percent i.total i.used) × SoftFits i.total i.soft_total

abbrev pub UsageFits : CapacitySource → ℕ → ℕ → Type 0
UsageFits lustre_project_quota used total = Unit {0}
UsageFits _ used total = used ≤ total

-- A total above zero, the rounded percentage of the usage, a usage within the total unless it is a
-- quota's, and soft limits above zero and within their totals.
pub record IsConsistent (c : CapacityInfo) : Type 0 where
  pub has_total : 0 < c.total
  pub percent_exact : c.percent ≡ rounded_percent c.total c.used
  pub usage_fits : UsageFits c.source c.used c.total
  pub soft_fits : SoftFits c.total c.soft_total
  pub inode_fits : ForSome InodeFits c.inode

abbrev pub Consistent : Option CapacityInfo → Type 0
Consistent = ForSome IsConsistent

pub usage-Consistent :
    (total used : ℕ) (source : CapacitySource) → Consistent (capacity_from_usage total used source)
unfolding capacity_from_usage
usage-Consistent zero used source = ground arith
usage-Consistent (suc total) used lustre_project_quota = ground arith
usage-Consistent (suc total) used _ = ground arith

pub inode_from_usage-InodeFits :
    (total used : ℕ) (soft : Option ℕ)
    → SoftFits total soft
    → ForSome InodeFits (with_inode_soft soft (inode_from_usage total used))
unfolding inode_from_usage
inode_from_usage-InodeFits zero used soft h = ground arith
inode_from_usage-InodeFits (suc total) used none h = ground arith
inode_from_usage-InodeFits (suc total) used (some soft) h = ground arith

soft_within-SoftFits : (limit : ℕ) (soft : Option ℕ) → SoftFits limit (soft_within limit soft)
unfolding soft_within
soft_within-SoftFits limit none = tt
soft_within-SoftFits limit (some soft) = ground arith

quota_inode-InodeFits :
    (used total soft : Option ℕ) → ForSome InodeFits (quota_inode used total soft)
unfolding quota_inode
quota_inode-InodeFits (some used) (some total) soft =
    inode_from_usage-InodeFits total used (soft_within total soft) (soft_within-SoftFits total soft)
quota_inode-InodeFits (some used) none soft = tt
quota_inode-InodeFits none total soft = tt

with_quota-IsConsistent :
    (c : CapacityInfo) (q : Option LustreQuotaDetails)
    → IsConsistent c
    → IsConsistent (with_quota c q)
unfolding with_quota
with_quota-IsConsistent c none h = h
with_quota-IsConsistent c (some q) h = record {
  has_total = h.has_total;
  percent_exact = h.percent_exact;
  usage_fits = tt;
  soft_fits = soft_within-SoftFits c.total q.soft_total;
  inode_fits = quota_inode-InodeFits q.inodes_used q.inodes_total q.inodes_soft_total;
}

map_quota-Consistent :
    (o : Option CapacityInfo) (q : Option LustreQuotaDetails)
    → Consistent o
    → Consistent (map_quota o q)
map_quota-Consistent none q h = tt
map_quota-Consistent (some c) q h = with_quota-IsConsistent c q h

pub about-Consistent : (about : RcloneAbout) → Consistent (capacity_from_about about)
unfolding capacity_from_about
about-Consistent about =
    let total = or_both about.total sat_add about.used about.free in
    let used = or_both about.used (λ t f. t - f) total about.free in
    map_quota-Consistent _ about.lustre_quota
      (usage-Consistent (or_default total) (or_default used) (about_source about.lustre_quota))

pub local-Consistent :
    (total available : Option ℕ) → Consistent (local_mount_capacity total available)
unfolding local_mount_capacity
local-Consistent none available = tt
local-Consistent (some total) none = tt
local-Consistent (some total) (some available) =
    usage-Consistent total (total - available) local_mountpoint
