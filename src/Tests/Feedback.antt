-- ===== src/Tests/Feedback.antt =====
-- Runs of the feedback of mounted sessions.
use ssh_mountmate.Base.{ℕ, ◌≡◌, true, false, none, List, [], ◌∷◌, arith}
use ssh_mountmate.Text.{Text, codes}
use ssh_mountmate.Transfer.{TransferSnapshot}
use ssh_mountmate.Feedback.{
  FeedbackRequest, MountFeedbacks, no_mounts, new_feedback, start_read, accept, forget,
  TransferProgressHistory,
}
use ssh_mountmate.Feedback.Polls.{Poll, failed}
use ssh_mountmate.Feedback.Stale.{start, operate_all, accept_stale}
use ssh_mountmate.Feedback.Lifecycle.{accept_after_forget}
use ssh_mountmate.Tests.Values.{whole_percent}

abbrev home : Text
home = codes "home"

-- A map with one session of `home`.
abbrev one_session : MountFeedbacks ℕ
one_session = record { mounts = (home, new_feedback 1) ∷ []; next_generation = 1 }

abbrev request : FeedbackRequest
request = record { id = home; generation = 1 }

accept_stale_example :
    accept (operate_all (forget one_session home) (start home ∷ start home ∷ [])) request ≡ none
accept_stale_example =
    accept_stale one_session request (start home ∷ start home ∷ []) (omega arith) (omega arith)

accept_after_forget_example :
    let (s, r) = start_read (operate_all (no_mounts {F = ℕ}) []) home in
    accept (operate_all (forget (operate_all s (start home ∷ [])) home) (start home ∷ [])) r ≡ none
accept_after_forget_example =
    accept_after_forget [] (start home ∷ []) (start home ∷ []) home (omega arith)

abbrev three_failures : List (Poll ℕ)
three_failures = failed home ∷ failed home ∷ failed home ∷ []

abbrev half : TransferSnapshot ℕ
half = record {
  files = [];
  queued = 1;
  uploading = 1;
  queued_bytes = 200;
  transferred_bytes = 100;
  percentage = 50;
  errors = 0;
  out_of_space = false;
  synced = false;
}

abbrev in_progress : TransferProgressHistory
in_progress = record { active = true; completed_bytes = 40; known_files = [] }
