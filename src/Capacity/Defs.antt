-- ===== src/Capacity/Defs.antt =====
-- The capacity values and their arithmetic. The products of the source are in `u128`, where they
-- do not overflow.
use ssh_mountmate.Base.{
  ℕ, ◌+◌, ◌-◌, ◌*◌, ◌/◌, min, Bool, false, ◌&&◌, Option, none, some, ltb, leb, ◌==◌, if◌then◌else◌,
  sat_add,
}

pub data CapacitySource : Type 0 where
  local_mountpoint lustre_project_quota rclone_about remote_filesystem : CapacitySource

pub record InodeInfo : Type 0 where
  pub used : ℕ
  pub total : ℕ
  pub percent : ℕ
  pub soft_total : Option ℕ

pub record CapacityInfo : Type 0 where
  pub used : ℕ
  pub total : ℕ
  pub percent : ℕ
  pub source : CapacitySource
  pub soft_total : Option ℕ
  pub inode : Option InodeInfo

-- `soft_limit_exceeded`, of both records.
abbrev pub exceeds : ℕ → ℕ → Option ℕ → Bool
exceeds used total none = false
exceeds used total (some soft) = ltb soft total && ltb soft used

unfoldable pub soft_limit_exceeded : CapacityInfo → Bool
soft_limit_exceeded c = exceeds c.used c.total c.soft_total

unfoldable pub inode_soft_limit_exceeded : InodeInfo → Bool
inode_soft_limit_exceeded i = exceeds i.used i.total i.soft_total

-- `((used * 100 + total / 2) / total).min(100)`
unfoldable pub rounded_percent : ℕ → ℕ → ℕ
rounded_percent total used = min ((used * 100 + total / 2) / total) 100

abbrev pub counted_usage : CapacitySource → ℕ → ℕ → ℕ
counted_usage lustre_project_quota used total = used
counted_usage _ used total = min used total

unfoldable pub capacity_from_usage : ℕ → ℕ → CapacitySource → Option CapacityInfo
capacity_from_usage total used source =
    let counted = counted_usage source used total in
    if total == 0
    then none
    else some (record {
      used = counted;
      total = total;
      percent = rounded_percent total counted;
      source = source;
      soft_total = none;
      inode = none;
    })

unfoldable pub inode_from_usage : ℕ → ℕ → Option InodeInfo
inode_from_usage total used =
    if total == 0
    then none
    else some (record {
      used = used;
      total = total;
      percent = rounded_percent total used;
      soft_total = none;
    })

-- `local_mount_capacity`, on what the operating system says of the mountpoint.
unfoldable pub local_mount_capacity : Option ℕ → Option ℕ → Option CapacityInfo
unfolding capacity_from_usage
local_mount_capacity none available = none
local_mount_capacity (some total) none = none
local_mount_capacity (some total) (some available) =
    capacity_from_usage total (total - available) local_mountpoint

pub record LustreQuotaDetails : Type 0 where
  pub soft_total : Option ℕ
  pub inodes_used : Option ℕ
  pub inodes_total : Option ℕ
  pub inodes_soft_total : Option ℕ

pub record RcloneAbout : Type 0 where
  pub total : Option ℕ
  pub used : Option ℕ
  pub free : Option ℕ
  pub lustre_quota : Option LustreQuotaDetails

abbrev pub or_default : Option ℕ → ℕ
or_default none = 0
or_default (some n) = n

-- `or_else(|| Some(a? op b?))`
abbrev pub or_both : Option ℕ → (ℕ → ℕ → ℕ) → Option ℕ → Option ℕ → Option ℕ
or_both (some n) op a b = some n
or_both none op (some a) (some b) = some (op a b)
or_both none op _ _ = none

-- `filter(|soft| *soft > 0 && *soft <= limit)`
unfoldable pub soft_within : ℕ → Option ℕ → Option ℕ
soft_within limit none = none
soft_within limit (some soft) = if ltb 0 soft && leb soft limit then some soft else none

abbrev pub with_inode_soft : Option ℕ → Option InodeInfo → Option InodeInfo
with_inode_soft soft none = none
with_inode_soft soft (some i) = some (record i { soft_total = soft })

-- The inodes of `rclone about`, where it has both numbers.
unfoldable pub quota_inode : Option ℕ → Option ℕ → Option ℕ → Option InodeInfo
unfolding inode_from_usage soft_within
quota_inode (some used) (some total) soft =
    with_inode_soft (soft_within total soft) (inode_from_usage total used)
quota_inode _ _ soft = none

unfoldable pub with_quota : CapacityInfo → Option LustreQuotaDetails → CapacityInfo
unfolding quota_inode
with_quota c none = c
with_quota c (some q) = record c {
  source = lustre_project_quota;
  soft_total = soft_within c.total q.soft_total;
  inode = quota_inode q.inodes_used q.inodes_total q.inodes_soft_total;
}

abbrev pub about_source : Option LustreQuotaDetails → CapacitySource
about_source none = rclone_about
about_source (some q) = lustre_project_quota

abbrev pub map_quota : Option CapacityInfo → Option LustreQuotaDetails → Option CapacityInfo
map_quota none q = none
map_quota (some c) q = some (with_quota c q)

unfoldable pub capacity_from_about : RcloneAbout → Option CapacityInfo
unfolding capacity_from_usage with_quota
capacity_from_about about =
    let total = or_both about.total sat_add about.used about.free in
    let used = or_both about.used (λ t f. t - f) total about.free in
    map_quota
      (capacity_from_usage (or_default total) (or_default used) (about_source about.lustre_quota))
      about.lustre_quota
