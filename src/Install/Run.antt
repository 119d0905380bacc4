-- ===== src/Install/Run.antt =====
-- The update as the helper runs it: whatever fails, there is an application.
use ssh_mountmate.Base.{
  ◌≡◌, refl, sym, subst, Bool, true, false, Option, none, some, List, [], Result, ok, err, ◌⊎◌, inl,
  inr, Bool-cases,
}
use ssh_mountmate.Text.{Text, text_eq}
use ssh_mountmate.Action.{Ends, next_or, throw}
use ssh_mountmate.Install.{
  Disk, Inspection, Paths, AppliedUpdate, ApplyUpdateError, apply_prepared_update,
  valid_versioned_executable_name,
}
use ssh_mountmate.Install.HelperRun.{
  Helper, Session, Round, UpdateHelperPlan, UpdateHelperError, spawned, launch_process, on_disk,
  complete_applied_update, relaunch_after_preapply_failure, regular_file_digest_matches,
  verify_authorized_installation, run_update, health_arguments, wait_for_health,
  rollback_and_relaunch,
}
use ssh_mountmate.Install.Moves.{View, view}
use ssh_mountmate.Install.Swap.{HasOld, IsApplied, IsFailed}
use ssh_mountmate.Install.Distinct.{AreDistinct}
use ssh_mountmate.Install.Whole.{apply_lem}
use ssh_mountmate.Install.Placed.{installed_place, IsAt, apply_prepared_update-IsAt}
use ssh_mountmate.Install.Completed.{IsCommitted, Reports, complete_lem}

-- The old installation is in its place or is the backup, or the prepared update is somewhere whole.
abbrev pub HasApplication : {N : Type 0} → Text → Text → Text → N → View N → View N → Type 0
HasApplication {N} target prepared backup old w0 w =
    HasOld target backup old w
    ⊎ ((place : Text) × (n : N) × (w0 prepared ≡ some n) × (w place ≡ some n))

-- The prepared update is at that place, which is the one of the installation or where nothing was,
-- and there is no backup.
abbrev pub IsConfirmed : {N : Type 0} → Text → Text → Text → Text → View N → View N → Type 0
IsConfirmed {N} place target prepared backup w0 w =
    (n : N) × (w0 prepared ≡ some n)
    × (w place ≡ some n)
    × (w backup ≡ none)
    × ((w0 place ≡ none) ⊎ (place ≡ target))

module _ {N : Type 0} (helper : Helper N) (plan : UpdateHelperPlan) where
  Reports-application :
      (applied : AppliedUpdate) (old n : N) (w0 : View N) (target prepared backup : Text)
      → w0 prepared ≡ some n
      → applied.previous_target ≡ target
      → applied.backup ≡ backup
      → (e : UpdateHelperError) (session : Session N) → Reports helper plan applied old n e session
      → HasApplication target prepared backup old w0 (view session.disk)
  Reports-application applied old n w0 target prepared backup h p q
        (UpdateHelperError.update_rolled_back m) session r =
      inl (inl (rw (← p) r.0))
  Reports-application applied old n w0 target prepared backup h p q
        (UpdateHelperError.restored_relaunch_failed m) session r =
      inl (inl (rw (← p) r))
  Reports-application applied old n w0 target prepared backup h p q
        (UpdateHelperError.rollback_failed m m') session r =
      inl (rw (← p) (rw (← q) r))
  Reports-application applied old n w0 target prepared backup h p q
        (UpdateHelperError.commit_failed m) session r =
      inr (applied.target, n, h, r)
  Reports-application applied old n w0 target prepared backup h p q _ session r = absurd r

  complete_application :
      (applied : AppliedUpdate) (old : N) (w0 : View N) (place target prepared backup : Text)
      (round : Round) (rest : List Round) (session : Session N)
      → w0 target ≡ some old
      → text_eq target prepared ≡ false
      → text_eq target backup ≡ false
      → text_eq prepared backup ≡ false
      → IsApplied target prepared backup old w0 applied session.disk
      → applied.target ≡ place
      → Ends
          (λ u s. IsConfirmed place target prepared backup w0 (view s.disk))
          (λ e s. HasApplication target prepared backup old w0 (view s.disk))
          (complete_applied_update helper plan applied round rest session)
  unfolding complete_applied_update launch_process
  complete_application applied old w0 place target prepared backup round rest session at_target tp
        tb pb h at_place =
      let (its_target, its_payload, its_backup) = h.8 in
      go
        (next_or (λ u. wait_for_health helper plan applied round rest)
          (λ error. rollback_and_relaunch helper plan applied (helper.helper_text error))
          (spawned helper applied.executable (health_arguments helper plan)
            (helper.spawn session.events applied.executable) session))
        (complete_lem helper plan applied old h.0 w0 (rw its_target at_target) (rw its_payload h.1)
          (rw its_backup h.2) (rw (its_target, its_payload) tp) (rw (its_target, its_backup) tb)
          (rw (its_payload, its_backup) pb) (rw its_payload h.5) (rw its_backup h.6)
          (rw its_target h.7) round rest (helper.spawn session.events applied.executable) session
          (rw (its_target, its_payload, its_backup) h.3, rw (its_target, its_backup) h.4))
    where
      go :
          (q : Result UpdateHelperError (Unit {0}) × Session N)
          → Ends (IsCommitted helper plan applied old h.0) (Reports helper plan applied old h.0) q
          → Ends
              (λ u s. IsConfirmed place target prepared backup w0 (view s.disk))
              (λ e s. HasApplication target prepared backup old w0 (view s.disk))
              q
      go (ok u, s) k = (h.0, h.1, rw (← at_place) k.0, rw (← h.8.2) k.1, rw (← at_place) h.7)
      go (err e, s) k =
          Reports-application applied old h.0 w0 target prepared backup h.1 h.8.0 h.8.2 e s k

  module _ (inspection : Inspection N) (paths : Paths) (is_version : Text → Bool)
      (with_file_name_lem : (path name : Text)
        → valid_versioned_executable_name is_version name ≡ true
        → paths.file_name (paths.with_file_name path name) ≡ some name)
      (windows : Bool) where
    -- The failure before the update is in place touches nothing.
    relaunch_lem :
        (message : Text) (session : Session N)
        → Ends
            (λ u s. ⊥)
            (λ e s. s.disk ≡ session.disk)
            (relaunch_after_preapply_failure helper inspection paths is_version windows plan message
              session)
    unfolding relaunch_after_preapply_failure launch_process
    relaunch_lem message session =
        elim (Bool-cases (
          regular_file_digest_matches
            (inspection.symlink_metadata session.disk.entries plan.layout.executable)
            (inspection.file_sha256 session.disk.entries plan.layout.executable)
            plan.parent.executable_sha256)) [
              | inl t ↦ rw t (go (helper.spawn session.events plan.layout.executable))
              | inr f ↦ rw f refl
            ]
      where
        go :
            (o : Option Text)
            → Ends
                (λ u s. ⊥)
                (λ e s. s.disk ≡ session.disk)
                (next_or
                  (λ u. throw {A = Unit {0}} (UpdateHelperError.update_rolled_back message))
                  (λ relaunch. throw (
                    UpdateHelperError.existing_relaunch_failed message
                      (helper.helper_text relaunch)))
                  (spawned helper plan.layout.executable plan.relaunch_arguments o session))
        go none = refl
        go (some source) = refl

    module _ (old : N) (session : Session N)
        (at_target : view session.disk plan.layout.replace_path ≡ some old)
        (no_history : session.disk.history ≡ []) where
      abbrev pub Confirmed : Unit {0} → Session N → Type 0
      Confirmed u s =
          IsConfirmed (installed_place paths plan.layout.replace_path plan.prepared.installed_name)
            plan.layout.replace_path plan.transaction.prepared plan.transaction.backup
            (view session.disk) (view s.disk)

      abbrev pub Application : UpdateHelperError → Session N → Type 0
      Application e s =
          HasApplication plan.layout.replace_path plan.transaction.prepared plan.transaction.backup
            old (view session.disk) (view s.disk)

      relaunched :
          (message : Text) (session1 : Session N)
          → HasOld plan.layout.replace_path plan.transaction.backup old (view session1.disk)
          → Ends Confirmed Application (
              relaunch_after_preapply_failure helper inspection paths is_version windows plan
                message session1)
      relaunched message session1 h =
          go
            (relaunch_after_preapply_failure helper inspection paths is_version windows plan message
              session1)
            (relaunch_lem message session1)
        where
          go :
              (q : Result UpdateHelperError (Unit {0}) × Session N)
              → Ends (λ u s. ⊥) (λ e s. s.disk ≡ session1.disk) q
              → Ends Confirmed Application q
          go (ok u, s) k = absurd k
          go (err e, s) k = inl (
              subst
                (λ (d : Disk N).
                  HasOld plan.layout.replace_path plan.transaction.backup old (view d))
                (sym k) h)

      applied_lem :
          (round : Round) (rest : List Round) (q : Result ApplyUpdateError AppliedUpdate × Disk N)
          → Ends
              (λ a d.
                AreDistinct plan.layout plan.transaction
                × IsApplied plan.layout.replace_path plan.transaction.prepared
                    plan.transaction.backup old
                    (view session.disk)
                    a
                    d)
              (IsFailed plan.layout.replace_path plan.transaction.prepared plan.transaction.backup
                old
                (view session.disk))
              q
          → IsAt (installed_place paths plan.layout.replace_path plan.prepared.installed_name) q
          → Ends Confirmed Application (
              next_or
                (λ applied. complete_applied_update helper plan applied round rest)
                (λ error.
                  relaunch_after_preapply_failure helper inspection paths is_version windows plan
                    (helper.helper_text error))
                (on_disk helper
                  (λ e. UpdateHelperError.install_failed (helper.apply_text e))
                  session
                  q))
      applied_lem round rest (ok applied, d) h k =
          complete_application applied old (view session.disk)
            (installed_place paths plan.layout.replace_path plan.prepared.installed_name)
            plan.layout.replace_path plan.transaction.prepared plan.transaction.backup round rest
            (record session { disk = d }) at_target h.0.0 h.0.1 h.0.2 h.1 k
      applied_lem round rest (err e, d) h k =
          relaunched (helper.helper_text (UpdateHelperError.install_failed (helper.apply_text e)))
            (record session { disk = d }) h.1

      -- How the run ends: with the update in place, or with an application.
      pub run_update_lem :
          (round : Round) (rest : List Round)
          → Ends Confirmed Application
              (run_update helper inspection paths is_version windows plan round rest session)
      unfolding run_update
      run_update_lem round rest = go (
          verify_authorized_installation helper inspection paths is_version windows plan
            session.disk.entries)
        where
          go :
              (r : Result UpdateHelperError (Unit {0}))
              → Ends Confirmed Application (
                  next_or
                    (λ u session1.
                      next_or
                        (λ applied. complete_applied_update helper plan applied round rest)
                        (λ error.
                          relaunch_after_preapply_failure helper inspection paths is_version windows
                            plan
                            (helper.helper_text error))
                        (on_disk helper
                          (λ e. UpdateHelperError.install_failed (helper.apply_text e))
                          session1
                          (apply_prepared_update inspection paths is_version windows plan.layout
                            plan.prepared plan.transaction session1.disk)))
                    (λ error.
                      relaunch_after_preapply_failure helper inspection paths is_version windows
                        plan
                        (helper.helper_text error))
                    (r, session))
          go (err e) = relaunched (helper.helper_text e) session (inl at_target)
          go (ok u) =
              applied_lem round rest
                (apply_prepared_update inspection paths is_version windows plan.layout plan.prepared
                  plan.transaction session.disk)
                (apply_lem inspection paths is_version with_file_name_lem windows plan.layout
                  plan.prepared plan.transaction old session.disk at_target no_history)
                (apply_prepared_update-IsAt inspection paths is_version windows plan.layout
                  plan.prepared plan.transaction session.disk)
