-- ===== src/Feedback/Polls.antt =====
-- What the counters of `TransferState` say of the polls that were made.
use ssh_mountmate.Base.{
  ℕ, suc, ◌≡◌, ◌<◌, ◌==◌, refl, ◌∙◌, min, true, ◌&&◌, ◌||◌, Option, none, some, List, [], ◌∷◌,
  arith, leb, if◌then◌else◌, u8_max, Bool-cases, inl, inr,
}
use ssh_mountmate.Text.{Text}
use ssh_mountmate.Transfer.{Floats, TransferSnapshot}
use ssh_mountmate.Feedback.{
  TransferState, new_state, fail, update, visible_error, synced, current, is_synced, differs,
}
use ssh_mountmate.Feedback.Smooth.{smooth-SameFiles}

-- A poll of rclone returns a snapshot or fails.
pub data Poll (F : Type 0) : Type 0 where
  read : TransferSnapshot F → Poll F
  failed : Text → Poll F

module _ {F : Type 0} where
  -- The polls of a session, the latest first.
  abbrev pub trailing_failures : List (Poll F) → ℕ
  trailing_failures (failed e ∷ older) = suc (trailing_failures older)
  trailing_failures _ = 0

  abbrev pub trailing_synced : List (Poll F) → ℕ
  trailing_synced [] = 0
  trailing_synced (read s ∷ older) = let n = trailing_synced older in if s.synced then suc n else 0
  trailing_synced (failed e ∷ older) = 0

  abbrev pub last_error : List (Poll F) → Option Text
  last_error (failed e ∷ older) = some e
  last_error _ = none

module _ {F : Type 0} ⦃fl : Floats F⦄ where
  abbrev pub apply_poll : TransferState F → Poll F → TransferState F
  apply_poll t (read s) = (update t s).0
  apply_poll t (failed e) = (fail t e).0

  unfoldable pub run_polls : List (Poll F) → TransferState F
  run_polls [] = new_state
  run_polls (p ∷ older) = apply_poll (run_polls older) p

  failures-run_polls :
      (ps : List (Poll F)) → (run_polls ps).failures ≡ min (trailing_failures ps) u8_max
  unfolding run_polls update fail
  failures-run_polls [] = refl
  failures-run_polls (read s ∷ older) = refl
  failures-run_polls (failed e ∷ older) = omega (arith, failures-run_polls older)

  error-run_polls : (ps : List (Poll F)) → (run_polls ps).error ≡ last_error ps
  unfolding run_polls update fail
  error-run_polls [] = refl
  error-run_polls (read s ∷ older) = refl
  error-run_polls (failed e ∷ older) = refl

  synced_polls-run_polls :
      (ps : List (Poll F)) → (run_polls ps).synced_polls ≡ min (trailing_synced ps) u8_max
  unfolding run_polls update fail
  synced_polls-run_polls [] = refl
  synced_polls-run_polls (read s ∷ older) = ground (arith, synced_polls-run_polls older)
  synced_polls-run_polls (failed e ∷ older) = refl

  -- After any polls of a session the visible error is that of the last poll if at least the last
  -- three polls failed, and there is none otherwise.
  pub visible_error-run_polls :
      (ps : List (Poll F))
      → visible_error (run_polls ps)
        ≡ (if leb 3 (trailing_failures ps) then last_error ps else none)
  unfolding visible_error
  visible_error-run_polls ps = rw (error-run_polls ps) (ground (arith, failures-run_polls ps))

  current-synced :
      (ps : List (Poll F)) → 0 < trailing_synced ps → is_synced (current (run_polls ps)) ≡ true
  unfolding run_polls update current
  current-synced [] h = absurd (omega arith)
  current-synced (read s ∷ older) h =
      (smooth-SameFiles (run_polls older).history s).synced ∙ ground arith
  current-synced (failed e ∷ older) h = absurd (omega arith)

  -- After any polls of a session it counts as synced exactly if the last two polls, at least, read
  -- a synced snapshot.
  pub synced-run_polls : (ps : List (Poll F)) → synced (run_polls ps) ≡ leb 2 (trailing_synced ps)
  unfolding synced
  synced-run_polls ps = elim (Bool-cases (leb 2 (trailing_synced ps))) [
    | inl e ↦ ground (arith, synced_polls-run_polls ps, current-synced ps (ground arith))
    | inr e ↦ ground (arith, synced_polls-run_polls ps)
  ]

  -- The second result of `fail`, over the polls before it: an error is logged at the third failure
  -- in a row, and later if it differs from the one before.
  pub announce-run_polls :
      (ps : List (Poll F)) (e : Text)
      → (fail (run_polls ps) e).1
        ≡ (trailing_failures ps == 2 || (leb 3 (trailing_failures ps) && differs (last_error ps) e))
  unfolding fail
  announce-run_polls ps e = rw (error-run_polls ps) (ground (arith, failures-run_polls ps))
