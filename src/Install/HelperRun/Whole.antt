-- ===== src/Install/HelperRun/Whole.antt =====
-- The run of the helper once the parent has exited.
use ssh_mountmate.Base.{Bool, false, ◌&&◌, not, List, ◌++◌, Result, ok, err, if◌then◌else◌}
use ssh_mountmate.Text.{Text, codes, text_eq}
use ssh_mountmate.Dict.{Dict}
use ssh_mountmate.Action.{throw, next_or}
use ssh_mountmate.Install.Names.{Paths}
use ssh_mountmate.Install.Directory.{Metadata, not_found, unreadable, found, Inspection}
use ssh_mountmate.Install.Apply.{apply_prepared_update}
use ssh_mountmate.Install.HelperRun.Types.{
  UpdateHelperPlan, UpdateHelperError, Round, Helper, Help, install_failed, update_rolled_back,
  existing_relaunch_failed,
}
use ssh_mountmate.Install.HelperRun.Wait.{launch_process, on_disk, complete_applied_update}

unfoldable pub regular_file_digest_matches : Metadata → Result Text Text → Text → Bool
regular_file_digest_matches not_found digest expected = false
regular_file_digest_matches (unreadable source) digest expected = false
regular_file_digest_matches (found is_file is_dir is_symlink) (err source) expected = false
regular_file_digest_matches (found is_file is_dir is_symlink) (ok actual) expected =
    is_file && (not is_symlink && text_eq actual expected)

module _ {N : Type 0} (helper : Helper N) (inspection : Inspection N) (paths : Paths)
    (is_version : Text → Bool) (windows : Bool) where
  -- The installation is started again only if it is still the one that was authorized.
  unfoldable pub relaunch_after_preapply_failure : UpdateHelperPlan → Text → Help N (Unit {0})
  unfolding regular_file_digest_matches launch_process
  relaunch_after_preapply_failure plan update_error session =
      if regular_file_digest_matches
        (inspection.symlink_metadata session.disk.entries plan.layout.executable)
        (inspection.file_sha256 session.disk.entries plan.layout.executable)
        plan.parent.executable_sha256
      then next_or (λ u. throw (update_rolled_back update_error))
          (λ relaunch. throw (existing_relaunch_failed update_error (helper.helper_text relaunch)))
          (launch_process helper plan.layout.executable plan.relaunch_arguments session)
      else throw
          (install_failed (
            update_error
            ++ codes "; the existing application identity could not be verified for relaunch"))
          session

  abbrev pub authorized : UpdateHelperPlan → Result Text Text → Result UpdateHelperError (Unit {0})
  authorized plan (err source) = err (install_failed source)
  authorized plan (ok digest) =
      if text_eq digest plan.parent.executable_sha256
      then ok tt
      else err (install_failed (codes "the installation changed after the update was authorized"))

  unfoldable pub verify_authorized_installation :
      UpdateHelperPlan → Dict N → Result UpdateHelperError (Unit {0})
  verify_authorized_installation plan entries =
      authorized plan (inspection.file_sha256 entries plan.layout.executable)

  -- The end of `run_update_helper`, after the plan was read and the parent has exited.
  unfoldable pub run_update : UpdateHelperPlan → Round → List Round → Help N (Unit {0})
  unfolding verify_authorized_installation relaunch_after_preapply_failure apply_prepared_update
      complete_applied_update
  run_update plan round rest session =
      next_or
        (λ u session1.
          next_or (λ applied. complete_applied_update helper plan applied round rest)
            (λ error. relaunch_after_preapply_failure plan (helper.helper_text error))
            (on_disk helper (λ e. install_failed (helper.apply_text e)) session1
              (apply_prepared_update inspection paths is_version windows plan.layout plan.prepared
                plan.transaction session1.disk)))
        (λ error. relaunch_after_preapply_failure plan (helper.helper_text error))
        (verify_authorized_installation plan session.disk.entries, session)
