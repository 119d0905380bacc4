-- ===== src/Install/HelperRun/Types.antt =====
-- The plan of the helper, its errors, and what it meets.
use ssh_mountmate.Base.{ℕ, Bool, Option, List, Result}
use ssh_mountmate.Text.{Text}
use ssh_mountmate.Action.{Action}
use ssh_mountmate.Install.Types.{InstallLayout, TransactionPaths, PreparedPayload, ApplyUpdateError}
use ssh_mountmate.Install.Directory.{Disk}

pub record ParentProcessIdentity : Type 0 where
  pub pid : ℕ
  pub started_at : ℕ
  pub executable : Text
  pub executable_sha256 : Text

pub record UpdateHelperPlan : Type 0 where
  pub schema : ℕ
  pub token_sha256 : Text
  pub parent : ParentProcessIdentity
  pub layout : InstallLayout
  pub prepared : PreparedPayload
  pub transaction : TransactionPaths
  pub health_marker : Text
  pub health_token : Text
  pub relaunch_arguments : List Text

pub record UpdateHealthMarker : Type 0 where
  pub schema : ℕ
  pub token_sha256 : Text

-- An exit status, an `io::Error` and a `StorageError` are their texts.
pub data UpdateHelperError : Type 0 where
  invalid_plan_file plan_too_large : Text → UpdateHelperError
  unsupported_schema unauthorized invalid_plan : UpdateHelperError
  state_path_exists helper_collision invalid_helper_source : Text → UpdateHelperError
  helper_digest_mismatch helper_not_detached current_process_identity : UpdateHelperError
  parent_exit_timeout plan_cleanup : UpdateHelperError
  launch : Text → Text → UpdateHelperError
  new_application_exited : Text → UpdateHelperError
  health_timeout invalid_health_marker : UpdateHelperError
  install_failed commit_failed update_rolled_back : Text → UpdateHelperError
  rollback_failed : Text → Text → UpdateHelperError
  restored_relaunch_failed : Text → UpdateHelperError
  existing_relaunch_failed : Text → Text → UpdateHelperError
  storage : Text → UpdateHelperError
  io : Text → Text → UpdateHelperError

-- What the helper has done outside the directory: processes, and the marker.
pub data HelperEvent : Type 0 where
  started : Text → List Text → HelperEvent
  terminated : HelperEvent
  marker_removed : Text → HelperEvent

-- The directory of the installation, and the processes so far.
pub record Session (N : Type 0) : Type 0 where
  pub disk : Disk N
  pub events : List HelperEvent

-- One round of the wait: whether the marker is there, what `try_wait` says of the new process, and
-- the marker's file: whether it is a link, a file, its length, and what it parses to.
pub record Round : Type 0 where
  pub marker_exists : Result Text Bool
  pub child_status : Result Text (Option Text)
  pub is_symlink : Bool
  pub is_file : Bool
  pub marker_length : ℕ
  pub marker : Option UpdateHealthMarker

-- The texts of the errors, what starting an executable gives, and SHA-256.
pub record Helper (N : Type 0) : Type 0 where
  pub apply_text : ApplyUpdateError → Text
  pub helper_text : UpdateHelperError → Text
  pub spawn : List HelperEvent → Text → Option Text
  pub sha256_text : Text → Text
  pub left : N → N

abbrev pub update_health_schema : ℕ
update_health_schema = 1

abbrev pub Help : Type 0 → Type 0 → Type 0
Help N A = Action UpdateHelperError (Session N) A
