-- ===== src/Install/Types.antt =====
-- The layout of an installation, the paths of a transaction, and the errors.
use ssh_mountmate.Base.{Bool, true, false, Option, ◌&&◌}
use ssh_mountmate.Text.{Text, text_eq}

pub data InstallKind : Type 0 where
  standalone_executable directory_bundle mac_application_bundle : InstallKind

pub record InstallLayout : Type 0 where
  pub kind : InstallKind
  pub executable : Text
  pub replace_path : Text

abbrev pub kind_eq : InstallKind → InstallKind → Bool
kind_eq standalone_executable standalone_executable = true
kind_eq directory_bundle directory_bundle = true
kind_eq mac_application_bundle mac_application_bundle = true
kind_eq standalone_executable directory_bundle = false
kind_eq standalone_executable mac_application_bundle = false
kind_eq directory_bundle standalone_executable = false
kind_eq directory_bundle mac_application_bundle = false
kind_eq mac_application_bundle standalone_executable = false
kind_eq mac_application_bundle directory_bundle = false

-- `current == *layout`
abbrev pub layout_eq : InstallLayout → InstallLayout → Bool
layout_eq a b =
    kind_eq a.kind b.kind
    && (text_eq a.executable b.executable && text_eq a.replace_path b.replace_path)

-- Whether the installation is replaced as a directory.
abbrev pub is_directory_install : InstallKind → Bool
is_directory_install standalone_executable = false
is_directory_install directory_bundle = true
is_directory_install mac_application_bundle = true

pub record DirectoryPayload : Type 0 where
  pub root : Text
  pub executable : Text

pub record TransactionPaths : Type 0 where
  pub prepared : Text
  pub backup : Text

pub record PreparedPayload : Type 0 where
  pub installed_name : Option Text
  pub replace_path : Text
  pub executable : Text
  pub executable_sha256 : Text
  pub tree_sha256 : Text

pub record AppliedUpdate : Type 0 where
  pub previous_target : Text
  pub previous_executable : Text
  pub executable : Text
  pub target : Text
  pub failed_payload : Text
  pub backup : Text

-- An `io::Error` is its text.
pub data TransactionPlanError : Type 0 where
  missing_parent missing_name backup_exists prepared_exists : Text → TransactionPlanError
  inspect : Text → Text → TransactionPlanError

pub data ApplyUpdateError : Type 0 where
  invalid_transaction installation_changed : ApplyUpdateError
  invalid_prepared_payload verification layout : Text → ApplyUpdateError
  io : Text → Text → ApplyUpdateError
  restore_failed : Text → Text → Text → ApplyUpdateError
  rollback_restore_failed : Text → Text → ApplyUpdateError
  rollback_recovery_failed : Text → Text → Text → Text → ApplyUpdateError
