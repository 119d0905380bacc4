-- ===== src/Transfer/Defs.antt =====
-- crates/mountmate-core/src/transfer.rs: the transfer view that is built from rclone's queue, its
-- statistics and its running transfers.
use ssh_mountmate.Base.{
  ℕ, ◌-◌, min, max, Bool, true, false, not, ◌&&◌, ◌||◌, Option, none, some, List, [], ◌∷◌, ◌++◌,
  map, ◌==◌, if◌then◌else◌, length, keep_if, take, sat_add,
}
use ssh_mountmate.Text.{Text, codes, text_eq, is_empty, trim_by, ends_with, replace_char}

-- The operations on `f64` that the module uses. A percentage is `a as f64 * 100.0 / b as f64`.
pub record Floats (F : Type 0) : Type 0 where
  pub zero_f : F
  pub hundred : F
  pub is_positive : F → Bool
  pub percent_of : ℕ → ℕ → F
  pub clamp_percent : F → F
  pub max_f : F → F → F

pub record QueueItem : Type 0 where
  pub id : Text
  pub name : Text
  pub size : ℕ
  pub uploading : Bool
  pub tries : ℕ

pub record ActiveTransfer (F : Type 0) : Type 0 where
  pub name : Text
  pub size : ℕ
  pub bytes : ℕ
  pub percentage : F
  pub speed : F
  pub speed_avg : F
  pub eta : Option F

pub record DiskCacheStats : Type 0 where
  pub uploads_queued : ℕ
  pub uploads_in_progress : ℕ
  pub errored_files : ℕ
  pub out_of_space : Bool

pub record TransferFile (F : Type 0) : Type 0 where
  pub id : Text
  pub name : Text
  pub size : ℕ
  pub bytes : ℕ
  pub percentage : F
  pub speed : F
  pub eta : Option F
  pub uploading : Bool
  pub tries : ℕ

pub record TransferSnapshot (F : Type 0) : Type 0 where
  pub files : List (TransferFile F)
  pub queued : ℕ
  pub uploading : ℕ
  pub queued_bytes : ℕ
  pub transferred_bytes : ℕ
  pub percentage : F
  pub errors : ℕ
  pub out_of_space : Bool
  pub synced : Bool

abbrev pub is_slash : ℕ → Bool
is_slash c = c == b'/'

unfoldable pub normalized_transfer_name : Text → Text
normalized_transfer_name value = trim_by is_slash (replace_char b'\\' (codes "/") value)

-- The three ways in which two normalized names agree.
unfoldable pub names_agree : Text → Text → Bool
names_agree queued active =
    not (is_empty queued)
    && not (is_empty active)
    && (text_eq queued active
        || ends_with queued (b'/' ∷ active)
        || ends_with active (b'/' ∷ queued))

unfoldable pub transfer_matches : Text → Text → Bool
unfolding names_agree
transfer_matches queued active =
    names_agree (normalized_transfer_name queued) (normalized_transfer_name active)

-- A running transfer with its entry of `matched_active`.
pub record Candidate (F : Type 0) : Type 0 where
  pub transfer : ActiveTransfer F
  pub matched : Bool

-- The bytes of a transfer that count for a file of that size.
unfoldable pub uploaded_bytes : ℕ → ℕ → ℕ
uploaded_bytes size bytes = if size == 0 then bytes else min bytes size

module _ {F : Type 0} where
  -- `iter().enumerate().find(…)` and the mark that follows it: the first transfer of that name
  -- that no earlier queue item has taken.
  unfoldable pub claim : Text → List (Candidate F) → Option (ActiveTransfer F) × List (Candidate F)
  claim name [] = (none, [])
  claim name (c ∷ cs) =
      let rest = claim name cs in
      if not c.matched && transfer_matches name c.transfer.name
      then (some c.transfer, record c { matched = true } ∷ cs)
      else (rest.0, c ∷ rest.1)

  abbrev pub active_bytes : Option (ActiveTransfer F) → ℕ
  active_bytes none = 0
  active_bytes (some t) = t.bytes

  abbrev pub is_some_transfer : Option (ActiveTransfer F) → Bool
  is_some_transfer none = false
  is_some_transfer (some t) = true

  abbrev pub eta_of : Option (ActiveTransfer F) → Option F
  eta_of none = none
  eta_of (some t) = t.eta

  abbrev pub fresh : ActiveTransfer F → Candidate F
  fresh t = record { transfer = t; matched = false }

  abbrev pub is_matched : Candidate F → Bool
  is_matched c = c.matched

  abbrev pub is_unmatched : Candidate F → Bool
  is_unmatched c = not c.matched

  abbrev pub is_uploading : TransferFile F → Bool
  is_uploading f = f.uploading

-- The variables of the first loop.
pub record Gathered (F : Type 0) : Type 0 where
  pub files : List (TransferFile F)
  pub queued_bytes : ℕ
  pub transferred_bytes : ℕ
  pub candidates : List (Candidate F)

module _ {F : Type 0} ⦃fl : Floats F⦄ where
  open fl use {zero_f, hundred, is_positive, percent_of, clamp_percent, max_f}

  unfoldable pub plain_percentage : ℕ → ℕ → F
  plain_percentage size uploaded = if size == 0 then zero_f else percent_of uploaded size

  unfoldable pub file_percentage : ℕ → ℕ → Option (ActiveTransfer F) → F
  unfolding plain_percentage
  file_percentage size uploaded none = plain_percentage size uploaded
  file_percentage size uploaded (some t) =
      if is_positive t.percentage then t.percentage else plain_percentage size uploaded

  abbrev pub speed_of : Option (ActiveTransfer F) → F
  speed_of none = zero_f
  speed_of (some t) = max_f t.speed_avg t.speed

  -- The row of a queue item with the transfer that it took, if any.
  unfoldable pub queue_file : QueueItem → Option (ActiveTransfer F) → TransferFile F
  unfolding uploaded_bytes
  queue_file item active =
      let uploaded = uploaded_bytes item.size (active_bytes active) in
      record {
        id = item.id;
        name = item.name;
        size = item.size;
        bytes = uploaded;
        percentage = clamp_percent (file_percentage item.size uploaded active);
        speed = speed_of active;
        eta = eta_of active;
        uploading = item.uploading || is_some_transfer active;
        tries = item.tries;
      }

  -- One round of the loop over the queue.
  unfoldable pub gather : Gathered F → QueueItem → Gathered F
  unfolding queue_file
  gather g item =
      let (active, candidates) = claim item.name g.candidates in
      let file = queue_file item active in
      record {
        files = g.files ++ file ∷ [];
        queued_bytes = sat_add g.queued_bytes item.size;
        transferred_bytes = sat_add g.transferred_bytes file.bytes;
        candidates = candidates;
      }

  unfoldable pub gather_all : Gathered F → List QueueItem → Gathered F
  gather_all g [] = g
  gather_all g (item ∷ items) = gather_all (gather g item) items

  -- The row of a running transfer that no queue item took.
  unfoldable pub transfer_file : ActiveTransfer F → TransferFile F
  unfolding uploaded_bytes
  transfer_file t =
      let uploaded = uploaded_bytes t.size t.bytes in
      record {
        id = codes "null";
        name = t.name;
        size = t.size;
        bytes = uploaded;
        percentage = clamp_percent (file_percentage t.size uploaded (some t));
        speed = max_f t.speed_avg t.speed;
        eta = t.eta;
        uploading = true;
        tries = 0;
      }

  -- One round of the second loop, and the loop, over the transfers that stay.
  unfoldable pub add_transfer : Gathered F → Candidate F → Gathered F
  unfolding transfer_file
  add_transfer g c =
      let file = transfer_file c.transfer in
      record g {
        files = g.files ++ file ∷ [];
        queued_bytes = sat_add g.queued_bytes c.transfer.size;
        transferred_bytes = sat_add g.transferred_bytes file.bytes;
      }

  unfoldable pub add_missing : Gathered F → List (Candidate F) → Gathered F
  add_missing g [] = g
  add_missing g (c ∷ cs) = add_missing (add_transfer g c) cs

  abbrev pub start : List (ActiveTransfer F) → Gathered F
  start core = record {
    files = [];
    queued_bytes = 0;
    transferred_bytes = 0;
    candidates = map fresh core;
  }

  -- The transfers of the second loop: at most as many as rclone says it runs beyond those matched.
  unfoldable pub missing : DiskCacheStats → List (Candidate F) → List (Candidate F)
  missing cache candidates =
      take (cache.uploads_in_progress - length (keep_if is_matched candidates))
        (keep_if is_unmatched candidates)

  unfoldable pub collect : List QueueItem → DiskCacheStats → List (ActiveTransfer F) → Gathered F
  collect queue cache core =
      let g = gather_all (start core) queue in add_missing g (missing cache g.candidates)

  unfoldable pub finish : DiskCacheStats → Gathered F → TransferSnapshot F
  finish cache g =
      let queued = max (length g.files) (sat_add cache.uploads_queued cache.uploads_in_progress) in
      let uploading = max (length (keep_if is_uploading g.files)) cache.uploads_in_progress in
      let errors = cache.errored_files in
      record {
        files = g.files;
        queued = queued;
        uploading = uploading;
        queued_bytes = g.queued_bytes;
        transferred_bytes = g.transferred_bytes;
        percentage =
            if g.queued_bytes == 0 && queued == 0 && uploading == 0 && errors == 0
            then hundred
            else if g.queued_bytes == 0
            then zero_f
            else clamp_percent (percent_of g.transferred_bytes g.queued_bytes);
        errors = errors;
        out_of_space = cache.out_of_space;
        synced = queued == 0 && uploading == 0 && errors == 0 && not cache.out_of_space;
      }

  unfoldable pub build_transfer_snapshot :
      List QueueItem → DiskCacheStats → List (ActiveTransfer F) → TransferSnapshot F
  unfolding collect finish
  build_transfer_snapshot queue cache core = finish cache (collect queue cache core)
