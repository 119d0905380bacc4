-- ===== src/Transfer/Totals.antt =====
-- The byte totals of a snapshot.
use ssh_mountmate.Base.{
  ℕ, ◌≤◌, ◌<◌, Bool, List, [], ◌∷◌, map, keep_if, take, zero, suc, All, arith, length, Bool-cases,
  inl, inr, ◌-◌,
}
use ssh_mountmate.Transfer.{
  Floats, QueueItem, DiskCacheStats, ActiveTransfer, Candidate, Gathered, claim, gather, gather_all,
  add_transfer, add_missing, missing, start, fresh, is_matched, is_unmatched, active_bytes,
  uploaded_bytes, build_transfer_snapshot,
}
use ssh_mountmate.Transfer.Claim.{All-claim}

-- A file or a transfer whose size rclone reports.
abbrev pub HasSize : QueueItem → Type 0
HasSize item = 0 < item.size

abbrev pub KnownSize : {F : Type 0} → ActiveTransfer F → Type 0
KnownSize t = 0 < t.size

uploaded_bytes-le : (size bytes : ℕ) → 0 < size → uploaded_bytes size bytes ≤ size
unfolding uploaded_bytes
uploaded_bytes-le size bytes h = ground arith

All-take {ℓ κ} : {A : Type ℓ} (P : A → Type κ) (n : ℕ) (xs : List A) → All P xs → All P (take n xs)
All-take P zero xs h = tt
All-take P (suc n) [] h = tt
All-take P (suc n) (x ∷ xs) h = (h.0, All-take P n xs h.1)

All-keep_if {ℓ κ} :
    {A : Type ℓ} (P : A → Type κ) (p : A → Bool) (xs : List A) → All P xs → All P (keep_if p xs)
All-keep_if P p [] h = h
All-keep_if P p (x ∷ xs) h = elim (Bool-cases (p x)) [
  | inl e ↦ rw e (h.0, All-keep_if P p xs h.1)
  | inr e ↦ rw e (All-keep_if P p xs h.1)
]

module _ {F : Type 0} ⦃fl : Floats F⦄ where
  abbrev Fits : Gathered F → Type 0
  Fits g = g.transferred_bytes ≤ g.queued_bytes

  abbrev Known : List (Candidate F) → Type 0
  Known = All (λ c. KnownSize c.transfer)

  gather-Fits : (g : Gathered F) (item : QueueItem) → HasSize item → Fits g → Fits (gather g item)
  unfolding gather
  gather-Fits g item h f =
      omega (arith, uploaded_bytes-le item.size (active_bytes (claim item.name g.candidates).0) h)

  gather-Known :
      (g : Gathered F) (item : QueueItem) → Known g.candidates → Known (gather g item).candidates
  unfolding gather
  gather-Known g item k = All-claim KnownSize item.name g.candidates k

  gather_all-Fits :
      (g : Gathered F) (queue : List QueueItem)
      → All HasSize queue
      → Fits g
      → Known g.candidates
      → Fits (gather_all g queue) × Known (gather_all g queue).candidates
  unfolding gather_all
  gather_all-Fits g [] h f k = (f, k)
  gather_all-Fits g (item ∷ queue) h f k =
      gather_all-Fits (gather g item) queue h.1 (gather-Fits g item h.0 f) (gather-Known g item k)

  add_missing-Fits :
      (g : Gathered F) (cs : List (Candidate F)) → Known cs → Fits g → Fits (add_missing g cs)
  unfolding add_missing add_transfer
  add_missing-Fits g [] k f = f
  add_missing-Fits g (c ∷ cs) k f =
      add_missing-Fits (add_transfer g c) cs k.1
        (omega (arith, uploaded_bytes-le c.transfer.size c.transfer.bytes k.0))

  fresh-Known : (core : List (ActiveTransfer F)) → All KnownSize core → Known (map fresh core)
  fresh-Known [] h = h
  fresh-Known (t ∷ core) h = (h.0, fresh-Known core h.1)

  -- If rclone reports a size for every queue item and every running transfer, a snapshot never
  -- counts more bytes as transferred than as queued, saturated sums included.
  pub transferred-le-queued :
      (queue : List QueueItem) (cache : DiskCacheStats) (core : List (ActiveTransfer F))
      → All HasSize queue
      → All KnownSize core
      → let s = build_transfer_snapshot queue cache core in s.transferred_bytes ≤ s.queued_bytes
  unfolding build_transfer_snapshot missing
  transferred-le-queued queue cache core hq hc =
      let g = gather_all (start core) queue in
      let (f, k) = gather_all-Fits (start core) queue hq (omega arith) (fresh-Known core hc) in
      add_missing-Fits g (missing cache g.candidates)
        (All-take (λ (c : Candidate F). KnownSize c.transfer)
          (cache.uploads_in_progress - length (keep_if is_matched g.candidates))
          (keep_if is_unmatched g.candidates)
          (All-keep_if (λ (c : Candidate F). KnownSize c.transfer) is_unmatched g.candidates k))
        f
