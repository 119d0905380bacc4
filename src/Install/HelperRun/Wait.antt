-- ===== src/Install/HelperRun/Wait.antt =====
-- The wait for the new version, and what ends it.
use ssh_mountmate.Base.{
  Bool, true, false, ◌&&◌, ◌||◌, not, Option, none, some, List, [], ◌∷◌, ◌++◌, Result, ok, err,
  if◌then◌else◌, ltb, ◌==◌,
}
use ssh_mountmate.Text.{Text, codes, text_eq}
use ssh_mountmate.Action.{throw, next, next_or}
use ssh_mountmate.Install.Types.{AppliedUpdate, ApplyUpdateError}
use ssh_mountmate.Install.Directory.{Disk, remove_path_entry}
use ssh_mountmate.Install.Apply.{rollback_applied_update, commit_applied_update}
use ssh_mountmate.Install.HelperRun.Types.{
  UpdateHelperPlan, UpdateHelperError, Session, Round, Helper, update_health_schema, Help, launch,
  new_application_exited, health_timeout, invalid_health_marker, commit_failed, update_rolled_back,
  rollback_failed, restored_relaunch_failed, io, started, terminated, marker_removed,
}

module _ {N : Type 0} (helper : Helper N) where
  abbrev pub spawned : Text → List Text → Option Text → Help N (Unit {0})
  spawned executable arguments (some source) session = (err (launch executable source), session)
  spawned executable arguments none session =
      (ok tt, record session { events = started executable arguments ∷ session.events })

  -- `UpdateLauncher::launch`
  unfoldable pub launch_process : Text → List Text → Help N (Unit {0})
  launch_process executable arguments session =
      spawned executable arguments (helper.spawn session.events executable) session

  -- `let _ = child.terminate()`
  abbrev pub terminate : Session N → Session N
  terminate session = record session { events = terminated ∷ session.events }

  -- An operation on the directory, with the error that the helper makes of its error.
  abbrev pub on_disk :
      {A : Type 0}
      → (ApplyUpdateError → UpdateHelperError)
      → Session N
      → Result ApplyUpdateError A × Disk N
      → Result UpdateHelperError A × Session N
  on_disk f session (ok a, disk) = (ok a, record session { disk = disk })
  on_disk f session (err e, disk) = (err (f e), record session { disk = disk })

  -- `let _ = remove_path_entry_if_present(path)`
  abbrev pub remove_if_present : Text → Session N → Session N
  remove_if_present path session = record session {
    disk = (remove_path_entry helper.left path session.disk).1;
  }

  unfoldable pub rollback_and_relaunch : UpdateHelperPlan → AppliedUpdate → Text → Help N (Unit {0})
  unfolding rollback_applied_update remove_path_entry launch_process
  rollback_and_relaunch plan applied update_error session =
      next
        (λ u session1.
          next_or (λ u'. throw (update_rolled_back update_error))
            (λ error. throw (restored_relaunch_failed (helper.helper_text error)))
            (launch_process applied.previous_executable plan.relaunch_arguments
              (remove_if_present applied.failed_payload session1)))
        (on_disk (λ e. rollback_failed update_error (helper.apply_text e)) session
          (rollback_applied_update applied session.disk))

  unfoldable pub validate_health_marker : Text → Round → Result UpdateHelperError (Unit {0})
  validate_health_marker token round =
      if round.is_symlink || (not round.is_file || ltb 4096 round.marker_length)
      then err invalid_health_marker
      else elim round.marker [
        | none ↦ err invalid_health_marker
        | some marker ↦
            if marker.schema == update_health_schema
              && text_eq marker.token_sha256 (helper.sha256_text token)
            then ok tt
            else err invalid_health_marker
      ]

  -- The new version is healthy: the backup goes, and then the marker, or the error of the first is
  -- returned.
  unfoldable pub commit : UpdateHelperPlan → AppliedUpdate → Help N (Unit {0})
  unfolding commit_applied_update
  commit plan applied session =
      next
        (λ u session1.
          (ok tt, record session1 { events = marker_removed plan.health_marker ∷ session1.events }))
        (on_disk (λ e. commit_failed (helper.apply_text e)) session
          (commit_applied_update helper.left applied session.disk))

  unfoldable pub judge :
      UpdateHelperPlan → AppliedUpdate → Result UpdateHelperError (Unit {0}) → Help N (Unit {0})
  unfolding commit rollback_and_relaunch
  judge plan applied (ok u) session = commit plan applied session
  judge plan applied (err error) session =
      rollback_and_relaunch plan applied (helper.helper_text error) (terminate session)

  -- What a round decides; none means that the wait goes on.
  unfoldable pub decide :
      UpdateHelperPlan
      → AppliedUpdate
      → Round
      → Result Text Bool
      → Result Text (Option Text)
      → Option (Help N (Unit {0}))
  unfolding judge validate_health_marker rollback_and_relaunch
  decide plan applied round (err source) status = some (λ session.
      rollback_and_relaunch plan applied (helper.helper_text (io plan.health_marker source))
        (terminate session))
  decide plan applied round (ok there) (err source) = some (λ session.
      rollback_and_relaunch plan applied (helper.helper_text (io applied.executable source))
        (terminate session))
  decide plan applied round (ok there) (ok (some status)) =
      some (rollback_and_relaunch plan applied (helper.helper_text (new_application_exited status)))
  decide plan applied round (ok true) (ok none) =
      some (judge plan applied (validate_health_marker plan.health_token round))
  decide plan applied round (ok false) (ok none) = none

  -- After the last round the deadline is over.
  unfoldable pub wait_for_health :
      UpdateHelperPlan → AppliedUpdate → Round → List Round → Help N (Unit {0})
  unfolding decide
  wait_for_health plan applied round [] session =
      elim (decide plan applied round round.marker_exists round.child_status) [
        | some act ↦ act session
        | none ↦
            rollback_and_relaunch plan applied (helper.helper_text health_timeout)
              (terminate session)
      ]
  wait_for_health plan applied round (later ∷ rest) session =
      elim (decide plan applied round round.marker_exists round.child_status) [
        | some act ↦ act session
        | none ↦ wait_for_health plan applied later rest session
      ]

  abbrev pub health_arguments : UpdateHelperPlan → List Text
  health_arguments plan =
      plan.relaunch_arguments
      ++ (codes "--update-health-marker"
          ∷ plan.health_marker
          ∷ codes "--update-health-token"
          ∷ plan.health_token
          ∷ [])

  unfoldable pub complete_applied_update :
      UpdateHelperPlan → AppliedUpdate → Round → List Round → Help N (Unit {0})
  unfolding wait_for_health launch_process
  complete_applied_update plan applied round rest session =
      next_or (λ u. wait_for_health plan applied round rest)
        (λ error. rollback_and_relaunch plan applied (helper.helper_text error))
        (launch_process applied.executable (health_arguments plan) session)
