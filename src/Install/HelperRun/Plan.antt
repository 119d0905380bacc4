-- ===== src/Install/HelperRun/Plan.antt =====
-- The plan that the application leaves for the helper, and what the helper checks of it.
use ssh_mountmate.Base.{
  ℕ, Bool, true, false, ◌&&◌, ◌||◌, not, Option, none, some, List, [], ◌∷◌, ◌++◌, ◌+◌, Result, ok,
  err, any, all, length, ltb, ◌==◌, refuse_if, ◌>>=◌, ◌>>◌,
}
use ssh_mountmate.Text.{
  Text, codes, text_eq, is_empty, byte_len, starts_with, ends_with, is_ascii_hexdigit,
}
use ssh_mountmate.Install.Types.{
  InstallLayout, kind_eq, standalone_executable, TransactionPaths, PreparedPayload,
}
use ssh_mountmate.Install.Names.{
  Paths, holds, validate_transaction_shape, valid_versioned_executable_name,
}
use ssh_mountmate.Install.Directory.{Metadata, not_found, unreadable, found}
use ssh_mountmate.Install.Check.{map_err}
use ssh_mountmate.Install.HelperRun.Types.{
  ParentProcessIdentity, UpdateHelperPlan, UpdateHealthMarker, UpdateHelperError,
  update_health_schema, invalid_plan_file, plan_too_large, unsupported_schema, unauthorized,
  invalid_plan, state_path_exists, storage, io,
}

pub record UpdateHelperAuthorization : Type 0 where
  pub plan_path : Text
  pub token : Text

pub record UpdateHealthAuthorization : Type 0 where
  pub marker_path : Text
  pub token : Text

-- The file of a plan: what stands at the path, its length, and what it parses to.
pub record PlanFile : Type 0 where
  pub metadata : Metadata
  pub file_length : ℕ
  pub content : Result Text UpdateHelperPlan

abbrev pub update_plan_schema : ℕ
update_plan_schema = 1

abbrev pub max_update_plan_bytes : ℕ
max_update_plan_bytes = 1048576

abbrev pub max_relaunch_arguments : ℕ
max_relaunch_arguments = 32

abbrev pub max_relaunch_argument_bytes : ℕ
max_relaunch_argument_bytes = 16384

-- `valid_token` is the same test.
unfoldable pub valid_sha256 : Text → Bool
unfolding is_ascii_hexdigit
valid_sha256 value = length value == 64 && all is_ascii_hexdigit value

abbrev pub arguments_size : List Text → ℕ
arguments_size [] = 0
arguments_size (argument ∷ rest) = byte_len argument + arguments_size rest

abbrev pub reserved_argument : Text → Bool
reserved_argument argument =
    any (λ c. c == 0) argument
    || (text_eq argument (codes "--run-update-helper")
        || text_eq argument (codes "--update-health-token"))

abbrev pub option_eq : Option Text → Option Text → Bool
option_eq none none = true
option_eq none (some t) = false
option_eq (some s) none = false
option_eq (some s) (some t) = text_eq s t

module _ (paths : Paths) (is_version : Text → Bool) where
  abbrev pub is_named_badly : UpdateHelperPlan → Bool
  is_named_badly plan =
      holds
        (λ name.
          not (valid_versioned_executable_name is_version name)
          || not (kind_eq plan.layout.kind standalone_executable))
        plan.prepared.installed_name

  abbrev pub has_bad_digest : UpdateHelperPlan → Bool
  has_bad_digest plan =
      not (valid_sha256 plan.token_sha256)
      || (not (valid_sha256 plan.parent.executable_sha256)
          || (not (valid_sha256 plan.prepared.executable_sha256)
              || (not (valid_sha256 plan.prepared.tree_sha256)
                  || not (valid_sha256 plan.health_token))))

  abbrev pub has_bad_path : UpdateHelperPlan → Bool
  has_bad_path plan =
      is_empty plan.parent.executable
      || (is_empty plan.health_marker
          || (not (text_eq plan.parent.executable plan.layout.executable)
              || (not (text_eq plan.prepared.replace_path plan.transaction.prepared)
                  || (not (paths.starts_with plan.prepared.executable plan.prepared.replace_path)
                      || not (validate_transaction_shape paths plan.layout plan.transaction)))))

  abbrev pub has_bad_arguments : UpdateHelperPlan → Bool
  has_bad_arguments plan =
      ltb max_relaunch_arguments (length plan.relaunch_arguments)
      || (ltb max_relaunch_argument_bytes (arguments_size plan.relaunch_arguments)
          || any reserved_argument plan.relaunch_arguments)

  unfoldable pub validate_plan_fields : UpdateHelperPlan → Result UpdateHelperError (Unit {0})
  unfolding validate_transaction_shape valid_versioned_executable_name valid_sha256 byte_len text_eq
  validate_plan_fields plan =
      refuse_if
        (is_named_badly plan
          || (has_bad_digest plan
              || (plan.parent.pid == 0 || (has_bad_path plan || has_bad_arguments plan))))
        invalid_plan

  abbrev pub check_plan_file : Text → Metadata → Result UpdateHelperError (Unit {0})
  check_plan_file plan_path not_found = err (io plan_path (codes "entity not found"))
  check_plan_file plan_path (unreadable source) = err (io plan_path source)
  check_plan_file plan_path (found is_file is_dir is_symlink) =
      refuse_if (is_symlink || not is_file) (invalid_plan_file plan_path)

  abbrev pub is_marker_name : Text → Bool
  is_marker_name value = starts_with value (codes "health-") && ends_with value (codes ".json")

  unfoldable pub load_authenticated_plan :
      (Text → Text) → PlanFile → Text → Text → Result UpdateHelperError UpdateHelperPlan
  unfolding validate_plan_fields starts_with ends_with
  load_authenticated_plan sha256_text file plan_path token = do
    check_plan_file plan_path file.metadata
    refuse_if (ltb max_update_plan_bytes file.file_length) (plan_too_large plan_path)
    plan ← map_err storage file.content
    refuse_if (not (plan.schema == update_plan_schema)) unsupported_schema
    validate_plan_fields plan
    refuse_if
        (not (option_eq (paths.parent plan.health_marker) (paths.parent plan_path))
          || not (holds is_marker_name (paths.file_name plan.health_marker)))
        invalid_plan
    refuse_if (not (text_eq (sha256_text token) plan.token_sha256)) unauthorized
    ok plan

  unfoldable pub reject_existing_path : Text → Metadata → Result UpdateHelperError (Unit {0})
  reject_existing_path path (found is_file is_dir is_symlink) = err (state_path_exists path)
  reject_existing_path path not_found = ok tt
  reject_existing_path path (unreadable source) = err (io path source)

  -- The plan is what `write_private_new_json` writes; whether it can is an argument, as are what
  -- stands at the two paths, the random parts, and whether the directory is there.
  unfoldable pub write_update_plan :
      (Text → Text)
      → Result Text (Unit {0})
      → (plan_metadata marker_metadata : Metadata) → (id token health_token : Text)
      → Result UpdateHelperError (Unit {0})
      → Text
      → ParentProcessIdentity
      → InstallLayout
      → PreparedPayload
      → TransactionPaths
      → List Text
      → Result UpdateHelperError (UpdateHelperAuthorization × UpdateHelperPlan)
  unfolding validate_plan_fields reject_existing_path
  write_update_plan sha256_text created plan_metadata marker_metadata id token health_token written
        state_directory parent layout prepared transaction relaunch_arguments =
      do
        map_err (io state_directory) created
        let plan_path = paths.join state_directory (codes "plan-" ++ (id ++ codes ".json"))
        let health_marker = paths.join state_directory (codes "health-" ++ (id ++ codes ".json"))
        reject_existing_path plan_path plan_metadata
        reject_existing_path health_marker marker_metadata
        let plan : UpdateHelperPlan = record {
          schema = update_plan_schema;
          token_sha256 = sha256_text token;
          parent = parent;
          layout = layout;
          prepared = prepared;
          transaction = transaction;
          health_marker = health_marker;
          health_token = health_token;
          relaunch_arguments = relaunch_arguments;
        }
        validate_plan_fields plan
        written
        ok (record { plan_path = plan_path; token = token }, plan)

  -- The marker that the new version writes, where it can.
  unfoldable pub write_update_health_marker :
      (Text → Text)
      → Text
      → UpdateHealthAuthorization
      → Metadata
      → Result UpdateHelperError (Unit {0})
      → Result UpdateHelperError UpdateHealthMarker
  unfolding valid_sha256 reject_existing_path
  write_update_health_marker sha256_text state_directory authorization metadata written = do
    refuse_if
        (not (valid_sha256 authorization.token)
          || not (option_eq (paths.parent authorization.marker_path) (some state_directory)))
        invalid_plan
    reject_existing_path authorization.marker_path metadata
    written
    ok (record { schema = update_health_schema; token_sha256 = sha256_text authorization.token })
