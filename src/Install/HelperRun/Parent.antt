-- ===== src/Install/HelperRun/Parent.antt =====
-- The process that the helper replaces: its identity, and the wait for its exit.
use ssh_mountmate.Base.{
  ℕ, Bool, true, ◌||◌, not, Option, none, some, List, [], ◌∷◌, Result, ok, err, ok_or,
  if◌then◌else◌, ◌==◌, refuse_if, ◌>>=◌, ◌>>◌,
}
use ssh_mountmate.Text.{Text, text_eq}
use ssh_mountmate.Install.Names.{holds}
use ssh_mountmate.Install.Directory.{Metadata}
use ssh_mountmate.Install.Check.{map_err}
use ssh_mountmate.Install.HelperRun.Types.{
  ParentProcessIdentity, UpdateHelperPlan, UpdateHelperError, parent_exit_timeout,
  current_process_identity, helper_not_detached, helper_digest_mismatch, io,
}
use ssh_mountmate.Install.HelperRun.Whole.{regular_file_digest_matches}

pub record ProcessIdentitySnapshot : Type 0 where
  pub started_at : ℕ
  pub executable : Option Text

-- No process has the number any more, or another one has it.
unfoldable pub has_exited : ParentProcessIdentity → Option ProcessIdentitySnapshot → Bool
has_exited parent none = true
has_exited parent (some snapshot) =
    not (snapshot.started_at == parent.started_at)
    || holds (λ executable. not (text_eq executable parent.executable)) snapshot.executable

-- By what each round sees; after the last one the deadline is over.
unfoldable pub wait_for_parent_exit :
    ParentProcessIdentity
    → Option ProcessIdentitySnapshot
    → List (Option ProcessIdentitySnapshot)
    → Result UpdateHelperError (Unit {0})
unfolding has_exited
wait_for_parent_exit parent snapshot [] =
    if has_exited parent snapshot then ok tt else err parent_exit_timeout
wait_for_parent_exit parent snapshot (later ∷ rest) =
    let waited = wait_for_parent_exit parent later rest in
    if has_exited parent snapshot then ok tt else waited

-- By the canonical path of the executable, the number and the snapshot of the process, and the
-- digest of the executable.
unfoldable pub capture_current_process_identity :
    Text
    → Result Text Text
    → ℕ
    → Option ProcessIdentitySnapshot
    → Result Text Text
    → Result UpdateHelperError ParentProcessIdentity
unfolding text_eq
capture_current_process_identity path canonical pid snapshot digest = do
  executable ← map_err (io path) canonical
  snapshot1 ← ok_or snapshot current_process_identity
  process_executable ← ok_or snapshot1.executable current_process_identity
  refuse_if (not (text_eq process_executable executable)) current_process_identity
  executable_sha256 ← map_err (λ e. current_process_identity) digest
  ok (record {
    pid = pid;
    started_at = snapshot1.started_at;
    executable = executable;
    executable_sha256 = executable_sha256;
  })

-- By the canonical path of the helper, and by what stands there with its digest.
unfoldable pub verify_running_helper :
    UpdateHelperPlan
    → Text
    → Result Text Text
    → Metadata
    → Result Text Text
    → Result UpdateHelperError Text
unfolding regular_file_digest_matches
verify_running_helper plan path canonical metadata digest = do
  helper_executable ← map_err (io path) canonical
  refuse_if (text_eq helper_executable plan.parent.executable) helper_not_detached
  refuse_if (not (regular_file_digest_matches metadata digest plan.parent.executable_sha256))
      helper_digest_mismatch
  ok helper_executable
