-- ===== src/Feedback/Sessions.antt =====
-- `MountFeedbacks`: a session is known by its mount and its generation. `accept` hands out the
-- entry to write to; what the caller writes is an argument of `accept_with`.
use ssh_mountmate.Base.{ℕ, Bool, false, Option, none, some, [], ◌==◌, if◌then◌else◌, wrapping_succ}
use ssh_mountmate.Text.{Text}
use ssh_mountmate.Dict.{Dict, lookup, insert, remove, retain}
use ssh_mountmate.Transfer.{TransferSnapshot}
use ssh_mountmate.Capacity.{CapacityInfo}
use ssh_mountmate.Feedback.Transfers.{
  TransferState, new_state, current, visible_error as state_error, synced as state_synced,
}

pub record FeedbackRequest : Type 0 where
  pub id : Text
  pub generation : ℕ

pub record MountFeedback (F : Type 0) : Type 0 where
  pub generation : ℕ
  pub transfers : TransferState F
  pub capacity : Option CapacityInfo
  pub capacity_failed : Bool

pub record MountFeedbacks (F : Type 0) : Type 0 where
  pub mounts : Dict (MountFeedback F)
  pub next_generation : ℕ

module _ {F : Type 0} where
  abbrev pub no_mounts : MountFeedbacks F
  no_mounts = record { mounts = []; next_generation = 0 }

  abbrev pub new_feedback : ℕ → MountFeedback F
  new_feedback generation = record {
    generation = generation;
    transfers = new_state;
    capacity = none;
    capacity_failed = false;
  }

  -- `entry(id).or_insert_with(…)` on what the map holds for the mount.
  abbrev pub open_session :
      Text → MountFeedbacks F → Option (MountFeedback F) → MountFeedbacks F × FeedbackRequest
  open_session id s (some m) = (s, record { id = id; generation = m.generation })
  open_session id s none =
      let next = wrapping_succ s.next_generation in
      (
        record { mounts = insert id (new_feedback next) s.mounts; next_generation = next },
        record { id = id; generation = next },
      )

  unfoldable pub start_read : MountFeedbacks F → Text → MountFeedbacks F × FeedbackRequest
  start_read s id = open_session id s (lookup id s.mounts)

  -- `filter(|state| state.generation == request.generation)`
  abbrev pub of_generation : ℕ → Option (MountFeedback F) → Option (MountFeedback F)
  of_generation g none = none
  of_generation g (some m) = if m.generation == g then some m else none

  unfoldable pub accept : MountFeedbacks F → FeedbackRequest → Option (MountFeedback F)
  accept s request = of_generation request.generation (lookup request.id s.mounts)

  -- What the caller may write through the reference: all but the private generation.
  abbrev pub write_feedback :
      (MountFeedback F → MountFeedback F) → MountFeedback F → MountFeedback F
  write_feedback f m = record (f m) { generation = m.generation }

  abbrev pub store_accepted :
      MountFeedbacks F
      → Text
      → (MountFeedback F → MountFeedback F)
      → Option (MountFeedback F)
      → MountFeedbacks F
  store_accepted s id f none = s
  store_accepted s id f (some m) = record s { mounts = insert id (write_feedback f m) s.mounts }

  unfoldable pub accept_with :
      MountFeedbacks F → FeedbackRequest → (MountFeedback F → MountFeedback F) → MountFeedbacks F
  unfolding accept
  accept_with s request f = store_accepted s request.id f (accept s request)

  unfoldable pub forget : MountFeedbacks F → Text → MountFeedbacks F
  forget s id = record s { mounts = remove id s.mounts }

  unfoldable pub retain_mounts : MountFeedbacks F → (Text → Bool) → MountFeedbacks F
  retain_mounts s keep = record s { mounts = retain keep s.mounts }

  abbrev pub read_with {ℓ} : {A : Type ℓ} → A → (MountFeedback F → A) → Option (MountFeedback F) → A
  read_with d f none = d
  read_with d f (some m) = f m

  unfoldable pub snapshot : MountFeedbacks F → Text → Option (TransferSnapshot F)
  snapshot s id = read_with none (λ m. current m.transfers) (lookup id s.mounts)

  unfoldable pub transfer_error : MountFeedbacks F → Text → Option Text
  transfer_error s id = read_with none (λ m. state_error m.transfers) (lookup id s.mounts)

  unfoldable pub mount_synced : MountFeedbacks F → Text → Bool
  mount_synced s id = read_with false (λ m. state_synced m.transfers) (lookup id s.mounts)

  unfoldable pub capacity : MountFeedbacks F → Text → Option CapacityInfo
  capacity s id = read_with none (λ m. m.capacity) (lookup id s.mounts)

  unfoldable pub capacity_failed : MountFeedbacks F → Text → Bool
  capacity_failed s id = read_with false (λ m. m.capacity_failed) (lookup id s.mounts)
