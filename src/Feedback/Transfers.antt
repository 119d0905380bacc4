-- ===== src/Feedback/Transfers.antt =====
-- `TransferState`. The two counters are `u8` and saturate.
use ssh_mountmate.Base.{
  ℕ, ◌+◌, min, Bool, true, false, not, ◌&&◌, ◌||◌, Option, none, some, ltb, leb, ◌==◌,
  if◌then◌else◌, u8_max,
}
use ssh_mountmate.Text.{Text, text_eq}
use ssh_mountmate.Transfer.{Floats, TransferSnapshot}
use ssh_mountmate.Feedback.Progress.{TransferProgressHistory, idle_history, smooth}

pub record TransferState (F : Type 0) : Type 0 where
  pub snapshot : Option (TransferSnapshot F)
  pub history : TransferProgressHistory
  pub error : Option Text
  pub failures : ℕ
  pub synced_polls : ℕ

-- `saturating_add(1)` on a `u8`.
abbrev pub bump : ℕ → ℕ
bump n = min (n + 1) u8_max

-- `error.as_ref() != Some(&text)`
abbrev pub differs : Option Text → Text → Bool
differs none t = true
differs (some e) t = not (text_eq e t)

module _ {F : Type 0} where
  -- `TransferState::default()`
  abbrev pub new_state : TransferState F
  new_state = record {
    snapshot = none;
    history = idle_history;
    error = none;
    failures = 0;
    synced_polls = 0;
  }

  -- The second result: whether a new persistent error should be logged.
  unfoldable pub fail : TransferState F → Text → TransferState F × Bool
  fail s error =
      let failures = bump s.failures in
      (
        record s { synced_polls = 0; failures = failures; error = some error },
        failures == 3 || (ltb 3 failures && differs s.error error),
      )

  abbrev pub unless_error : Option Text → Option (TransferSnapshot F) → Option (TransferSnapshot F)
  unless_error none snapshot = snapshot
  unless_error (some e) snapshot = none

  unfoldable pub current : TransferState F → Option (TransferSnapshot F)
  current s = unless_error s.error s.snapshot

  unfoldable pub visible_error : TransferState F → Option Text
  visible_error s = if leb 3 s.failures then s.error else none

  abbrev pub is_synced : Option (TransferSnapshot F) → Bool
  is_synced none = false
  is_synced (some s) = s.synced

  unfoldable pub synced : TransferState F → Bool
  unfolding current
  synced s = leb 2 s.synced_polls && is_synced (current s)

module _ {F : Type 0} ⦃fl : Floats F⦄ where
  -- The results are the shown snapshot and the number of synced polls in a row.
  unfoldable pub update :
      TransferState F → TransferSnapshot F → TransferState F × TransferSnapshot F × ℕ
  update s snapshot =
      let polls = if snapshot.synced then bump s.synced_polls else 0 in
      let (history, shown) = smooth s.history snapshot in
      (
        record {
          snapshot = some shown;
          history = history;
          error = none;
          failures = 0;
          synced_polls = polls;
        },
        shown,
        polls,
      )
