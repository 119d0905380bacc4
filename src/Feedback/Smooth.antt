-- ===== src/Feedback/Smooth.antt =====
-- What the smoothing of a snapshot changes, and the bookkeeping of completed bytes.
use ssh_mountmate.Base.{
  ℕ, ◌≡◌, ◌≤◌, refl, max, Bool, true, List, [], ◌∷◌, map, arith, sat_add, u64_max, Bool-cases, inl,
  inr,
}
use ssh_mountmate.Text.{Text}
use ssh_mountmate.Dict.{Dict, mem}
use ssh_mountmate.Transfer.{Floats, TransferFile, TransferSnapshot}
use ssh_mountmate.Feedback.{
  TransferProgressHistory, transfer_file_key, transfer_is_active, complete, begin, retire, close,
  add_completed, advance, smooth,
}

complete_mono :
    (current : List Text) (completed : ℕ) (known : Dict (ℕ × ℕ))
    → completed ≤ u64_max
    → (completed ≤ (complete current completed known).0)
      × ((complete current completed known).0 ≤ u64_max)
unfolding complete
complete_mono current completed [] h = ground arith
complete_mono current completed ((key, (size, bytes)) ∷ known) h =
    elim (Bool-cases (mem key current)) [
      | inl e ↦ rw e (complete_mono current completed known h)
      | inr e ↦ rw e (
          let (low, high) =
            complete_mono current (sat_add completed (max size bytes)) known (omega arith) in
          (omega arith, high))
    ]

begin_active : (w : Bool) (h : TransferProgressHistory) → h.active ≡ true → begin w h ≡ h
unfolding begin
begin_active w h a = ground arith

module _ {F : Type 0} ⦃fl : Floats F⦄ where
  -- Nothing but the two totals and the percentage.
  pub record SameFiles (s t : TransferSnapshot F) : Type 0 where
    pub files : t.files ≡ s.files
    pub queued : t.queued ≡ s.queued
    pub uploading : t.uploading ≡ s.uploading
    pub errors : t.errors ≡ s.errors
    pub out_of_space : t.out_of_space ≡ s.out_of_space
    pub synced : t.synced ≡ s.synced

  add_completed-SameFiles :
      (w : Bool) (n : ℕ) (s : TransferSnapshot F) → SameFiles s (add_completed w n s)
  unfolding add_completed
  add_completed-SameFiles w n s = ground arith

  add_completed-totals :
      (w : Bool) (n : ℕ) (s : TransferSnapshot F)
      → s.transferred_bytes ≤ s.queued_bytes
      → s.queued_bytes ≤ u64_max
      → (s.transferred_bytes ≤ (add_completed w n s).transferred_bytes)
        × (s.queued_bytes ≤ (add_completed w n s).queued_bytes)
        × ((add_completed w n s).transferred_bytes ≤ (add_completed w n s).queued_bytes)
  unfolding add_completed
  add_completed-totals w n s h k = ground arith

  pub smooth-SameFiles :
      (history : TransferProgressHistory) (s : TransferSnapshot F)
      → SameFiles s (smooth history s).1
  unfolding smooth
  smooth-SameFiles history s =
      let has_work = transfer_is_active s in
      elim (Bool-cases (begin has_work history).active) [
        | inl e ↦ rw e (
            add_completed-SameFiles has_work
              (retire has_work (begin has_work history) s.files).completed_bytes s)
        | inr e ↦ rw e (record {
          files = refl;
          queued = refl;
          uploading = refl;
          errors = refl;
          out_of_space = refl;
          synced = refl;
        })
      ]

  -- Smoothing never lowers a total, and keeps the transferred bytes within the queued ones, if they
  -- are so in rclone's snapshot and that total is a `u64`; it leaves the rows, the counters and the
  -- synced flag as they are.
  pub smooth_totals :
      (history : TransferProgressHistory) (s : TransferSnapshot F)
      → s.transferred_bytes ≤ s.queued_bytes
      → s.queued_bytes ≤ u64_max
      → SameFiles s (smooth history s).1
        × (s.transferred_bytes ≤ (smooth history s).1.transferred_bytes)
        × (s.queued_bytes ≤ (smooth history s).1.queued_bytes)
        × ((smooth history s).1.transferred_bytes ≤ (smooth history s).1.queued_bytes)
  smooth_totals history s h k = let (a, b, c) = totals in (smooth-SameFiles history s, a, b, c)
    where
      totals :
          (s.transferred_bytes ≤ (smooth history s).1.transferred_bytes)
          × (s.queued_bytes ≤ (smooth history s).1.queued_bytes)
          × ((smooth history s).1.transferred_bytes ≤ (smooth history s).1.queued_bytes)
      totals =
          unfold smooth in
          (let has_work = transfer_is_active s in
            elim (Bool-cases (begin has_work history).active) [
              | inl e ↦ rw e (
                  add_completed-totals has_work
                    (retire has_work (begin has_work history) s.files).completed_bytes s h k)
              | inr e ↦ rw e (omega arith, omega arith, h)
            ])

  retire_active :
      (w : Bool) (h : TransferProgressHistory) (files : List (TransferFile F))
      → (retire w h files).active ≡ h.active
  unfolding retire
  retire_active w h files = ground arith

  retire_mono :
      (w : Bool) (h : TransferProgressHistory) (files : List (TransferFile F))
      → h.completed_bytes ≤ u64_max
      → h.completed_bytes ≤ (retire w h files).completed_bytes
  unfolding retire
  retire_mono w h files b =
      ground (arith, complete_mono (map transfer_file_key files) h.completed_bytes h.known_files b)

  smooth_active :
      (h : TransferProgressHistory) (s : TransferSnapshot F)
      → h.active ≡ true
      → smooth h s ≡ advance (transfer_is_active s) h s
  unfolding smooth
  smooth_active h s a = rw (begin_active (transfer_is_active s) h a) (ground arith)

  advance_session :
      (w : Bool) (h : TransferProgressHistory) (s : TransferSnapshot F)
      → h.active ≡ true
      → h.completed_bytes ≤ u64_max
      → (h.completed_bytes ≤ (advance w h s).0.completed_bytes) × ((advance w h s).0.active ≡ w)
  unfolding advance close
  advance_session w h s a b = ground (arith, retire_mono w h s.files b, retire_active w h s.files)

  -- In a session in progress the bytes of completed files never fall, and the session goes on
  -- exactly if the new snapshot has work.
  pub smooth_session :
      (history : TransferProgressHistory) (s : TransferSnapshot F)
      → history.active ≡ true
      → history.completed_bytes ≤ u64_max
      → (history.completed_bytes ≤ (smooth history s).0.completed_bytes)
        × ((smooth history s).0.active ≡ transfer_is_active s)
  smooth_session history s a b =
      rw (smooth_active history s a) (advance_session (transfer_is_active s) history s a b)
