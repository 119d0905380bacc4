-- ===== src/Install/Written.antt =====
-- What the application writes for the helper is what the helper accepts, and the other way round.
use ssh_mountmate.Base.{
  ◌≡◌, refl, ℕ, Bool, true, false, ◌||◌, not, some, List, ◌++◌, Result, ok, ForOk, ForOk-ok,
  ForOk-then, refuse_if, ltb,
}
use ssh_mountmate.Text.{Text, codes, text_eq_refl, starts_with}
use ssh_mountmate.Text.Affixes.{ends_with-append}
use ssh_mountmate.Install.{
  Paths, Metadata, found, InstallLayout, PreparedPayload, TransactionPaths, map_err, holds,
}
use ssh_mountmate.Install.HelperRun.{
  Helper, Round, UpdateHelperPlan, UpdateHelperError, UpdateHealthMarker, ParentProcessIdentity,
  UpdateHealthAuthorization, UpdateHelperAuthorization, PlanFile, write_update_plan,
  load_authenticated_plan, validate_plan_fields, write_update_health_marker, validate_health_marker,
  reject_existing_path, option_eq, is_marker_name, max_update_plan_bytes, valid_sha256,
  invalid_plan, io,
}

module _ (paths : Paths) (is_version : Text → Bool) (sha256_text : Text → Text)
    (state_directory id : Text)
    (plan_parent : paths.parent
        (paths.join state_directory (codes "plan-" ++ (id ++ codes ".json")))
      ≡ some state_directory)
    (marker_parent : paths.parent
        (paths.join state_directory (codes "health-" ++ (id ++ codes ".json")))
      ≡ some state_directory)
    (file_name_lem : paths.file_name
        (paths.join state_directory (codes "health-" ++ (id ++ codes ".json")))
      ≡ some (codes "health-" ++ (id ++ codes ".json"))) where
  module _ (token health_token : Text) (parent : ParentProcessIdentity) (layout : InstallLayout)
      (prepared : PreparedPayload) (transaction : TransactionPaths) (arguments : List Text) where
    abbrev plan : UpdateHelperPlan
    plan = record {
      schema = 1;
      token_sha256 = sha256_text token;
      parent = parent;
      layout = layout;
      prepared = prepared;
      transaction = transaction;
      health_marker = paths.join state_directory (codes "health-" ++ (id ++ codes ".json"));
      health_token = health_token;
      relaunch_arguments = arguments;
    }

    abbrev file_of : ℕ → UpdateHelperPlan → PlanFile
    file_of size p = record {
      metadata = found true false false;
      file_length = size;
      content = ok p;
    }

    -- The plan in its file is the one that is loaded.
    abbrev IsLoaded : ℕ → UpdateHelperAuthorization × UpdateHelperPlan → Type 0
    IsLoaded size (authorization, p) =
        load_authenticated_plan paths is_version sha256_text (file_of size p)
          authorization.plan_path authorization.token
        ≡ ok p

    marker_name :
        holds (is_marker_name paths is_version) (paths.file_name plan.health_marker) ≡ true
    marker_name =
        rw file_name_lem (
          rw (ends_with-append (codes "health-" ++ id) (codes ".json"))
            (unfold starts_with in refl))

    plan_loads :
        (size : ℕ)
        → ltb max_update_plan_bytes size ≡ false
        → validate_plan_fields paths is_version plan ≡ ok tt
        → IsLoaded size (
          record {
            plan_path = paths.join state_directory (codes "plan-" ++ (id ++ codes ".json"));
            token = token;
          },
          plan,
        )
    unfolding load_authenticated_plan
    plan_loads size small valid = rw small (
        rw valid (
          rw marker_parent (
            rw plan_parent (
              rw (text_eq_refl state_directory)
                (rw marker_name (rw (text_eq_refl (sha256_text token)) refl))))))

    write_update_plan_lem :
        (created : Result Text (Unit {0})) (plan_metadata marker_metadata : Metadata)
        (written : Result UpdateHelperError (Unit {0})) (size : ℕ)
        → ltb max_update_plan_bytes size ≡ false
        → ForOk (IsLoaded size) (
            write_update_plan paths is_version sha256_text created plan_metadata marker_metadata id
              token health_token written state_directory parent layout prepared transaction
              arguments)
    unfolding write_update_plan
    write_update_plan_lem created plan_metadata marker_metadata written size small =
        ForOk-then (IsLoaded size) (map_err (io state_directory) created) _ (λ e0.
          ForOk-then (IsLoaded size)
            (reject_existing_path paths is_version
              (paths.join state_directory (codes "plan-" ++ (id ++ codes ".json"))) plan_metadata)
            _
            (λ e1.
              ForOk-then (IsLoaded size)
                (reject_existing_path paths is_version plan.health_marker marker_metadata) _
                (λ e2.
                  ForOk-then (IsLoaded size) (validate_plan_fields paths is_version plan) _
                    (λ e3. ForOk-then (IsLoaded size) written _ (λ e4. plan_loads size small e3)))))

    -- The plan that was written is what the helper loads with the token that was given out. It is
    -- assumed that the file reads back as the plan and is not too large, that the paths of the plan
    -- and of the marker have the state directory as their parent, and that the marker has its name.
    pub load_authenticated_plan-write_update_plan :
        (created : Result Text (Unit {0})) (plan_metadata marker_metadata : Metadata)
        (written : Result UpdateHelperError (Unit {0})) (size : ℕ)
        (authorization : UpdateHelperAuthorization) (p : UpdateHelperPlan)
        → ltb max_update_plan_bytes size ≡ false
        → write_update_plan paths is_version sha256_text created plan_metadata marker_metadata id
            token health_token written state_directory parent layout prepared transaction arguments
          ≡ ok (authorization, p)
        → load_authenticated_plan paths is_version sha256_text
            (record { metadata = found true false false; file_length = size; content = ok p })
            authorization.plan_path
            authorization.token
          ≡ ok p
    load_authenticated_plan-write_update_plan created plan_metadata marker_metadata written size
          authorization p small e =
        ForOk-ok (IsLoaded size) _
          (write_update_plan_lem created plan_metadata marker_metadata written size small) e

module _ {N : Type 0} (helper : Helper N) (paths : Paths) (is_version : Text → Bool)
    (state_directory : Text) (authorization : UpdateHealthAuthorization) (size : ℕ)
    (round : Round) where
  -- The marker in its file is one that the helper takes.
  abbrev IsValid : UpdateHealthMarker → Type 0
  IsValid marker =
      validate_health_marker helper authorization.token (record round {
        is_symlink = false;
        is_file = true;
        marker_length = size;
        marker = some marker;
      })
      ≡ ok tt

  -- The marker that the new version writes with the token of its authorization is valid for the
  -- helper, which knows that token. It is assumed that the file reads back as the marker and has at
  -- most 4096 bytes.
  pub validate_health_marker-write_update_health_marker :
      (metadata : Metadata) (written : Result UpdateHelperError (Unit {0}))
      (marker : UpdateHealthMarker)
      → ltb 4096 size ≡ false
      → write_update_health_marker paths is_version helper.sha256_text state_directory authorization
          metadata written
        ≡ ok marker
      → validate_health_marker helper authorization.token (record round {
        is_symlink = false;
        is_file = true;
        marker_length = size;
        marker = some marker;
      })
        ≡ ok tt
  unfolding write_update_health_marker validate_health_marker
  validate_health_marker-write_update_health_marker metadata written marker small e =
      ForOk-ok IsValid _
        (ForOk-then IsValid
          (refuse_if
            (not (valid_sha256 authorization.token)
              || not (option_eq (paths.parent authorization.marker_path) (some state_directory)))
            invalid_plan)
          _
          (λ e0.
            ForOk-then IsValid
              (reject_existing_path paths is_version authorization.marker_path metadata) _
              (λ e1. ForOk-then IsValid written _ (λ e2.
                rw small (rw (text_eq_refl (helper.sha256_text authorization.token)) refl)))))
        e
