-- ===== src/Tests/Values.antt =====
-- Values that several tests share. Percentages are whole numbers here.
use ssh_mountmate.Base.{ℕ, ◌*◌, ◌/◌, min, max, true, false, some, ltb, if◌then◌else◌, ◌==◌}
use ssh_mountmate.Text.{codes}
use ssh_mountmate.Transfer.{Floats, QueueItem, ActiveTransfer, DiskCacheStats}

instance pub whole_percent : Floats ℕ
whole_percent = record {
  zero_f = 0;
  hundred = 100;
  is_positive = λ n. ltb 0 n;
  percent_of = λ a b. if b == 0 then 0 else a * 100 / b;
  clamp_percent = λ n. min n 100;
  max_f = λ a b. max a b;
}

abbrev pub report : QueueItem
report = record {
  id = codes "1";
  name = codes "docs/report.txt";
  size = 200;
  uploading = true;
  tries = 0;
}

abbrev pub photo : QueueItem
photo = record {
  id = codes "2";
  name = codes "photo.png";
  size = 100;
  uploading = false;
  tries = 1;
}

abbrev pub running : ActiveTransfer ℕ
running = record {
  name = codes "report.txt";
  size = 200;
  bytes = 50;
  percentage = 25;
  speed = 10;
  speed_avg = 10;
  eta = some 15;
}

abbrev pub busy : DiskCacheStats
busy = record {
  uploads_queued = 1;
  uploads_in_progress = 1;
  errored_files = 0;
  out_of_space = false;
}
