-- ===== src/Transfer/Counts.antt =====
-- The rows of a snapshot and its counters.
use ssh_mountmate.Base.{
  ℕ, suc, ◌+◌, ◌-◌, ◌≡◌, ◌≤◌, ◌↔◌, refl, ap, ◌∙◌, min, true, false, List, [], ◌∷◌, map, length,
  keep_if, length-concat, length-take, length-keep_if-le, eq-nil_of_length, arith, u64_max,
}
use ssh_mountmate.Transfer.{
  Floats, QueueItem, DiskCacheStats, ActiveTransfer, Candidate, Gathered, claim, gather, gather_all,
  add_transfer, add_missing, missing, start, collect, finish, fresh, is_matched, is_unmatched,
  is_uploading, build_transfer_snapshot, queue_file,
}
use ssh_mountmate.Transfer.Claim.{length-claim, matched-unmatched}

length-map-fresh :
    {F : Type 0} (core : List (ActiveTransfer F)) → length (map fresh core) ≡ length core
length-map-fresh [] = refl
length-map-fresh (t ∷ core) = ap suc (length-map-fresh core)

module _ {F : Type 0} ⦃fl : Floats F⦄ where
  files-gather_all :
      (g : Gathered F) (queue : List QueueItem)
      → length (gather_all g queue).files ≡ length g.files + length queue
  unfolding gather_all gather
  files-gather_all g [] = omega arith
  files-gather_all g (item ∷ queue) = omega (
    arith,
    files-gather_all (gather g item) queue,
    length-concat g.files (queue_file item (claim item.name g.candidates).0),
  )

  candidates-gather_all :
      (g : Gathered F) (queue : List QueueItem)
      → length (gather_all g queue).candidates ≡ length g.candidates
  unfolding gather_all gather
  candidates-gather_all g [] = refl
  candidates-gather_all g (item ∷ queue) =
      candidates-gather_all (gather g item) queue ∙ length-claim item.name g.candidates

  files-add_transfer :
      (g : Gathered F) (c : Candidate F) → length (add_transfer g c).files ≡ suc (length g.files)
  unfolding add_transfer
  files-add_transfer g c = length-concat g.files _

  files-add_missing :
      (g : Gathered F) (cs : List (Candidate F))
      → length (add_missing g cs).files ≡ length g.files + length cs
  unfolding add_missing
  files-add_missing g [] = omega arith
  files-add_missing g (c ∷ cs) =
      omega (arith, files-add_transfer g c, files-add_missing (add_transfer g c) cs)

  -- The running transfers that the queue takes.
  abbrev pub matched_uploads : List QueueItem → List (ActiveTransfer F) → ℕ
  matched_uploads queue core =
      length (keep_if is_matched (gather_all (start core) queue).candidates)

  -- For every queue, statistics and transfers: a snapshot has one row for each queue item, and one
  -- for each transfer that no item took, but of these no more than rclone's upload counter
  -- exceeds the taken ones.
  pub length-files-build_transfer_snapshot :
      (queue : List QueueItem) (cache : DiskCacheStats) (core : List (ActiveTransfer F))
      → length (build_transfer_snapshot queue cache core).files
        ≡ length queue
          + min
              (cache.uploads_in_progress - matched_uploads queue core)
              (length core - matched_uploads queue core)
  unfolding build_transfer_snapshot missing
  length-files-build_transfer_snapshot queue cache core =
      let g = gather_all (start core) queue in
      omega (
        arith,
        files-add_missing g (missing cache g.candidates),
        length-take (cache.uploads_in_progress - matched_uploads queue core)
            (keep_if is_unmatched g.candidates),
        matched-unmatched g.candidates,
        candidates-gather_all (start core) queue,
        length-map-fresh core,
        files-gather_all (start core) queue,
      )

  -- A snapshot never shows more uploads than it shows queued files.
  pub uploading-le-queued :
      (queue : List QueueItem) (cache : DiskCacheStats) (core : List (ActiveTransfer F))
      → cache.uploads_in_progress ≤ u64_max
      → let s = build_transfer_snapshot queue cache core in s.uploading ≤ s.queued
  unfolding build_transfer_snapshot
  uploading-le-queued queue cache core h =
      let files = (collect queue cache core).files in
      omega (arith, length-keep_if-le is_uploading files)

  synced-finish :
      (cache : DiskCacheStats) (g : Gathered F)
      → ((finish cache g).synced ≡ true) ↔ (
          (length g.files ≡ 0)
          × (cache.uploads_queued ≡ 0)
          × (cache.uploads_in_progress ≡ 0)
          × (cache.errored_files ≡ 0)
          × (cache.out_of_space ≡ false))
  unfolding finish
  synced-finish cache g =
      (λ h. ground arith, λ h. ground (arith, length-keep_if-le is_uploading g.files))

  -- A snapshot is synced exactly when rclone's queue is empty, its counters of queued, running and
  -- failed uploads are zero, and its cache is not out of space.
  pub synced-build_transfer_snapshot :
      (queue : List QueueItem) (cache : DiskCacheStats) (core : List (ActiveTransfer F))
      → ((build_transfer_snapshot queue cache core).synced ≡ true) ↔ (
          (queue ≡ [])
          × (cache.uploads_queued ≡ 0)
          × (cache.uploads_in_progress ≡ 0)
          × (cache.errored_files ≡ 0)
          × (cache.out_of_space ≡ false))
  unfolding build_transfer_snapshot
  synced-build_transfer_snapshot queue cache core =
      let rows = length-files-build_transfer_snapshot queue cache core in
      let (to, from) = synced-finish cache (collect queue cache core) in
      (
        λ h. let r = to h in (eq-nil_of_length queue (omega (arith, rows, r)), r.1, r.2, r.3, r.4),
        λ h. from (omega (arith, rows, ap length h.0, h.2), h.1, h.2, h.3, h.4),
      )
