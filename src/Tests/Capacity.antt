-- ===== src/Tests/Capacity.antt =====
-- Runs of the capacities.
use ssh_mountmate.Base.{◌≡◌, refl, false, none, some}
use ssh_mountmate.Text.{codes}
use ssh_mountmate.Capacity.{
  CapacityInfo, local_mountpoint, rounded_percent, local_mount_capacity, capacity_from_usage,
}
use ssh_mountmate.Capacity.Consistent.{IsConsistent}
use ssh_mountmate.Capacity.Bounds.{local, Reported-IsConsistent}
use ssh_mountmate.Capacity.Query.{
  shell_word, quote_remote_shell_argument, shell_word-quote_remote_shell_argument,
}

abbrev disk : CapacityInfo
disk = record {
  used = 70;
  total = 100;
  percent = 70;
  source = local_mountpoint;
  soft_total = none;
  inode = none;
}

Reported-IsConsistent_example : IsConsistent disk
Reported-IsConsistent_example = Reported-IsConsistent disk (
    local (some 100) (some 30)
      (unfold local_mount_capacity capacity_from_usage rounded_percent in refl))

shell_word-quote_remote_shell_argument_example :
    shell_word false (quote_remote_shell_argument (codes "it's here")) ≡ some (codes "it's here")
shell_word-quote_remote_shell_argument_example =
    shell_word-quote_remote_shell_argument (codes "it's here")
