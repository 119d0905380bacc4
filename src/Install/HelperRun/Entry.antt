-- ===== src/Install/HelperRun/Entry.antt =====
-- `run_update_helper` from its start.
use ssh_mountmate.Base.{Bool, Option, List, Result, ok, ◌>>=◌, ◌>>◌}
use ssh_mountmate.Text.{Text}
use ssh_mountmate.Action.{next}
use ssh_mountmate.Install.Names.{Paths}
use ssh_mountmate.Install.Directory.{Metadata, Inspection}
use ssh_mountmate.Install.Check.{map_err}
use ssh_mountmate.Install.HelperRun.Types.{
  UpdateHelperPlan, UpdateHelperError, Round, Helper, Help, plan_cleanup,
}
use ssh_mountmate.Install.HelperRun.Plan.{PlanFile, load_authenticated_plan}
use ssh_mountmate.Install.HelperRun.Parent.{
  ProcessIdentitySnapshot, verify_running_helper, wait_for_parent_exit,
}
use ssh_mountmate.Install.HelperRun.Whole.{run_update}

-- What the helper meets before it changes anything: the file of the plan at its path, the path of
-- its own executable with what stands there, whether the file of the plan can be removed, and what
-- the rounds of the wait for the parent see.
pub record Start : Type 0 where
  pub plan_path : Text
  pub token : Text
  pub file : PlanFile
  pub helper_path : Text
  pub helper_canonical : Result Text Text
  pub helper_metadata : Metadata
  pub helper_digest : Result Text Text
  pub plan_removed : Result Text (Unit {0})
  pub snapshot : Option ProcessIdentitySnapshot
  pub later_snapshots : List (Option ProcessIdentitySnapshot)

module _ {N : Type 0} (helper : Helper N) (inspection : Inspection N) (paths : Paths)
    (is_version : Text → Bool) (windows : Bool) where
  unfoldable pub authorize : Start → Result UpdateHelperError UpdateHelperPlan
  unfolding load_authenticated_plan verify_running_helper wait_for_parent_exit
  authorize start = do
    plan ←
        load_authenticated_plan paths is_version helper.sha256_text start.file start.plan_path
          start.token
    own ←
        verify_running_helper plan start.helper_path start.helper_canonical start.helper_metadata
          start.helper_digest
    map_err (λ e. plan_cleanup) start.plan_removed
    wait_for_parent_exit plan.parent start.snapshot start.later_snapshots
    ok plan

  unfoldable pub run_update_helper : Start → Round → List Round → Help N (Unit {0})
  unfolding authorize run_update
  run_update_helper start round rest session =
      next (λ plan. run_update helper inspection paths is_version windows plan round rest)
        (authorize start, session)
