-- ===== src/Feedback/Progress.antt =====
-- `TransferProgressHistory`, `transfer_file_key` and `transfer_is_active`.
use ssh_mountmate.Base.{
  ℕ, max, Bool, true, false, not, ◌&&◌, ◌||◌, Option, none, some, List, [], ◌∷◌, ◌++◌, map, ltb,
  ◌==◌, if◌then◌else◌, sat_add,
}
use ssh_mountmate.Text.{Text, codes, is_empty}
use ssh_mountmate.Dict.{Dict, mem, lookup, insert}
use ssh_mountmate.Transfer.{Floats, TransferFile, TransferSnapshot, normalized_transfer_name}

pub record TransferProgressHistory : Type 0 where
  pub active : Bool
  pub completed_bytes : ℕ
  pub known_files : Dict (ℕ × ℕ)

abbrev pub idle_history : TransferProgressHistory
idle_history = record { active = false; completed_bytes = 0; known_files = [] }

-- `entry(key).or_insert((size, bytes))` and the two maxima.
abbrev pub grown : ℕ → ℕ → Option (ℕ × ℕ) → ℕ × ℕ
grown size bytes none = (max size size, max bytes bytes)
grown size bytes (some (known_size, known_bytes)) = (max known_size size, max known_bytes bytes)

module _ {F : Type 0} where
  unfoldable pub transfer_file_key : TransferFile F → Text
  transfer_file_key file =
      let name = normalized_transfer_name file.name in
      if not (is_empty name) then codes "name:" ++ name else codes "id:" ++ file.id

  unfoldable pub transfer_is_active : TransferSnapshot F → Bool
  transfer_is_active s = ltb 0 s.queued || ltb 0 s.uploading || ltb 0 s.errors || s.out_of_space

  unfoldable pub note_file : Dict (ℕ × ℕ) → TransferFile F → Dict (ℕ × ℕ)
  unfolding transfer_file_key
  note_file known file =
      let key = transfer_file_key file in
      insert key (grown file.size file.bytes (lookup key known)) known

  unfoldable pub note_files : Dict (ℕ × ℕ) → List (TransferFile F) → Dict (ℕ × ℕ)
  note_files known [] = known
  note_files known (file ∷ files) = note_files (note_file known file) files

-- The removal of the files that the snapshot no longer names; their bytes count as completed.
unfoldable pub complete : List Text → ℕ → Dict (ℕ × ℕ) → ℕ × Dict (ℕ × ℕ)
complete current completed [] = (completed, [])
complete current completed ((key, (size, bytes)) ∷ known) =
    let kept = complete current completed known in
    let dropped = complete current (sat_add completed (max size bytes)) known in
    if mem key current then (kept.0, (key, (size, bytes)) ∷ kept.1) else dropped

-- The first lines of `smooth`: work after an idle period opens a new session.
unfoldable pub begin : Bool → TransferProgressHistory → TransferProgressHistory
begin has_work h = if has_work && not h.active then record idle_history { active = true } else h

unfoldable pub retire :
    {F : Type 0} → Bool → TransferProgressHistory → List (TransferFile F) → TransferProgressHistory
unfolding complete
retire has_work h files =
    let (completed, known) =
      complete (map transfer_file_key files) h.completed_bytes h.known_files in
    if not (is_empty files) || not has_work
    then record h { completed_bytes = completed; known_files = known }
    else h

unfoldable pub close : Bool → TransferProgressHistory → TransferProgressHistory
close has_work h = if not has_work then record h { active = false; known_files = [] } else h

module _ {F : Type 0} ⦃fl : Floats F⦄ where
  open fl use {zero_f, hundred, percent_of, clamp_percent}

  unfoldable pub add_completed : Bool → ℕ → TransferSnapshot F → TransferSnapshot F
  add_completed has_work completed s =
      let queued = sat_add s.queued_bytes completed in
      let transferred = sat_add s.transferred_bytes completed in
      if ltb 0 completed
      then record s {
        queued_bytes = queued;
        transferred_bytes = transferred;
        percentage =
            if has_work && s.queued_bytes == 0
            then zero_f
            else if queued == 0
            then hundred
            else clamp_percent (percent_of transferred queued);
      }
      else s

  -- The branch of `smooth` for a session in progress.
  unfoldable pub advance :
      Bool
      → TransferProgressHistory
      → TransferSnapshot F
      → TransferProgressHistory × TransferSnapshot F
  advance has_work h s =
      let r = retire has_work h s.files in
      (
        close has_work (record r { known_files = note_files r.known_files s.files }),
        add_completed has_work r.completed_bytes s,
      )

  unfoldable pub smooth :
      TransferProgressHistory → TransferSnapshot F → TransferProgressHistory × TransferSnapshot F
  unfolding begin advance transfer_is_active
  smooth history s =
      let has_work = transfer_is_active s in
      let h = begin has_work history in if h.active then advance has_work h s else (h, s)
