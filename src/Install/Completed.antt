-- ===== src/Install/Completed.antt =====
-- How the wait for the new version ends: with the update, or with the installation that there was.
use ssh_mountmate.Base.{
  ◌≡◌, refl, ap, ◌∙◌, Bool, true, false, Option, none, some, List, [], ◌∷◌, Result, ok, err,
  ForSome, arith, ◌⊎◌,
}
use ssh_mountmate.Text.{Text, text_eq, text_eq_iff, text_eq_refl}
use ssh_mountmate.Action.{Ends, throw, pure, next, next_or}
use ssh_mountmate.Install.{
  Disk, remove_path_entry, AppliedUpdate, rollback_applied_update, commit_applied_update,
  ApplyUpdateError,
}
use ssh_mountmate.Install.HelperRun.{
  Help, Helper, Session, Round, HelperEvent, started, marker_removed, UpdateHelperPlan,
  UpdateHelperError, launch, spawned, launch_process, terminate, on_disk, remove_if_present,
  rollback_and_relaunch, validate_health_marker, commit, judge, decide, wait_for_health,
  health_arguments,
}
use ssh_mountmate.Install.Removal.{IsRemoved, AreOthersKept, remove_lem}
use ssh_mountmate.Install.Moves.{View, view, WasGood}
use ssh_mountmate.Install.Swap.{HasOld}
use ssh_mountmate.Install.Applied.{in_place, IsStuck, IsRolledBack, rollback_lem}

module _ {N : Type 0} (helper : Helper N) (plan : UpdateHelperPlan) (applied : AppliedUpdate)
    (old n : N) where
  -- The update is in place, and the backup is gone.
  abbrev pub IsCommitted : Unit {0} → Session N → Type 0
  IsCommitted u session =
      (view session.disk applied.target ≡ some n) × (view session.disk applied.backup ≡ none)

  -- What each error says of the directory and of the processes.
  abbrev pub Reports : UpdateHelperError → Session N → Type 0
  Reports (UpdateHelperError.update_rolled_back message) session =
      (view session.disk applied.previous_target ≡ some old)
      × ((events : List HelperEvent) × (session.events
            ≡ started applied.previous_executable plan.relaunch_arguments ∷ events))
  Reports (UpdateHelperError.restored_relaunch_failed message) session =
      view session.disk applied.previous_target ≡ some old
  Reports (UpdateHelperError.rollback_failed update message) session =
      HasOld applied.previous_target applied.backup old (view session.disk)
  Reports (UpdateHelperError.commit_failed message) session =
      view session.disk applied.target ≡ some n
  Reports e session = ⊥

  module _ (w0 : View N) (at_target : w0 applied.previous_target ≡ some old)
      (at_prepared : w0 applied.failed_payload ≡ some n) (no_backup : w0 applied.backup ≡ none)
      (tp : text_eq applied.previous_target applied.failed_payload ≡ false)
      (tb : text_eq applied.previous_target applied.backup ≡ false)
      (pb : text_eq applied.failed_payload applied.backup ≡ false)
      (lp : text_eq applied.target applied.failed_payload ≡ false)
      (lb : text_eq applied.target applied.backup ≡ false)
      (free : (w0 applied.target ≡ none) ⊎ (applied.target ≡ applied.previous_target)) where
    -- The update is in place and not yet confirmed.
    abbrev pub IsPending : Disk N → Type 0
    IsPending disk =
        (view disk ≡ in_place applied old n w0 at_target at_prepared no_backup tp tb pb lp lb free)
        × WasGood (HasOld applied.previous_target applied.backup old) disk

    target_kept :
        (disk : Disk N)
        → view disk ≡ w0
        → view (remove_path_entry helper.left applied.failed_payload disk).1 applied.previous_target
          ≡ some old
    target_kept disk e =
        go (remove_path_entry helper.left applied.failed_payload disk)
          (remove_lem helper.left applied.failed_payload disk)
      where
        before : view disk applied.previous_target ≡ some old
        before = ap (λ (w : View N). w applied.previous_target) e ∙ at_target

        apart : text_eq applied.failed_payload applied.previous_target ≡ false
        apart = ground (
          arith,
          text_eq_iff applied.failed_payload applied.previous_target,
          text_eq_iff applied.previous_target applied.failed_payload,
        )

        go :
            (q : Result Text (Unit {0}) × Disk N)
            → Ends
                (IsRemoved applied.failed_payload (view disk))
                (AreOthersKept applied.failed_payload (view disk))
                q
            → view q.1 applied.previous_target ≡ some old
        go (ok u, d) h = h applied.previous_target ∙ rw apart before
        go (err e', d) h = h applied.previous_target apart ∙ before

    relaunch_lem :
        (message : Text) (o : Option Text) (session : Session N)
        → view session.disk applied.previous_target ≡ some old
        → Ends
            (λ u s. ⊥)
            Reports
            (next_or
              (λ u'. throw {A = Unit {0}} (UpdateHelperError.update_rolled_back message))
              (λ error.
                throw (UpdateHelperError.restored_relaunch_failed (helper.helper_text error)))
              (spawned helper applied.previous_executable plan.relaunch_arguments o session))
    relaunch_lem message none session h = (h, (session.events, refl))
    relaunch_lem message (some source) session h = h

    rollback_and_relaunch_lem :
        (message : Text) (session : Session N)
        → IsPending session.disk
        → Ends (λ u s. ⊥) Reports (rollback_and_relaunch helper plan applied message session)
    unfolding rollback_and_relaunch launch_process
    rollback_and_relaunch_lem message session h =
        go (rollback_applied_update applied session.disk) (
          rollback_lem applied old n w0 at_target at_prepared no_backup tp tb pb lp lb free
            session.disk h.0 h.1)
      where
        go :
            (q : Result ApplyUpdateError (Unit {0}) × Disk N)
            → Ends
                (IsRolledBack applied old n w0 at_target at_prepared no_backup tp tb pb lp lb free)
                (IsStuck applied old n w0 at_target at_prepared no_backup tp tb pb lp lb free)
                q
            → Ends
                (λ u s. ⊥)
                Reports
                (next
                  (λ u session1.
                    next_or
                      (λ u'. throw {A = Unit {0}} (UpdateHelperError.update_rolled_back message))
                      (λ error.
                        throw
                          (UpdateHelperError.restored_relaunch_failed (helper.helper_text error)))
                      (launch_process helper applied.previous_executable plan.relaunch_arguments
                        (remove_if_present helper applied.failed_payload session1)))
                  (on_disk helper
                    (λ e. UpdateHelperError.rollback_failed message (helper.apply_text e))
                    session
                    q))
        go (ok u, d) k =
            relaunch_lem message (helper.spawn session.events applied.previous_executable)
              (remove_if_present helper applied.failed_payload (record session { disk = d }))
              (target_kept d k.0)
        go (err e, d) k = k.1

    rolled_back :
        (message : Text) (session : Session N)
        → IsPending session.disk
        → Ends IsCommitted Reports (rollback_and_relaunch helper plan applied message session)
    rolled_back message session h =
        go (rollback_and_relaunch helper plan applied message session)
          (rollback_and_relaunch_lem message session h)
      where
        go :
            (q : Result UpdateHelperError (Unit {0}) × Session N)
            → Ends (λ u s. ⊥) Reports q
            → Ends IsCommitted Reports q
        go (ok u, s) k = absurd k
        go (err e, s) k = k

    commit_lem :
        (session : Session N)
        → IsPending session.disk
        → Ends IsCommitted Reports (commit helper plan applied session)
    unfolding commit commit_applied_update
    commit_lem session h =
        go (remove_path_entry helper.left applied.backup session.disk)
          (remove_lem helper.left applied.backup session.disk)
      where
        apart : text_eq applied.backup applied.target ≡ false
        apart = ground (
          arith,
          text_eq_iff applied.backup applied.target,
          text_eq_iff applied.target applied.backup,
        )

        there : view session.disk applied.target ≡ some n
        there = ap (λ (w : View N). w applied.target) h.0 ∙ rw (text_eq_refl applied.target) refl

        go :
            (q : Result Text (Unit {0}) × Disk N)
            → Ends
                (IsRemoved applied.backup (view session.disk))
                (AreOthersKept applied.backup (view session.disk))
                q
            → Ends IsCommitted Reports (
                next
                  (λ u s.
                    (ok tt, record s { events = marker_removed plan.health_marker ∷ s.events }))
                  (on_disk helper
                    (λ e. UpdateHelperError.commit_failed (helper.apply_text e))
                    session
                    (next_or pure (λ error. throw (ApplyUpdateError.io applied.backup error)) q)))
        go (ok u, d) k = (
          k applied.target ∙ rw apart there,
          k applied.backup ∙ rw (text_eq_refl applied.backup) refl,
        )
        go (err e, d) k = k applied.target apart ∙ there

    judge_lem :
        (verdict : Result UpdateHelperError (Unit {0})) (session : Session N)
        → IsPending session.disk
        → Ends IsCommitted Reports (judge helper plan applied verdict session)
    unfolding judge commit
    judge_lem (ok u) session h = commit_lem session h
    judge_lem (err e) session h = rolled_back (helper.helper_text e) (terminate helper session) h

    abbrev EndsWell : Help N (Unit {0}) → Type 0
    EndsWell act =
        (session : Session N) → IsPending session.disk → Ends IsCommitted Reports (act session)

    decide_lem :
        (round : Round) (there : Result Text Bool) (status : Result Text (Option Text))
        → ForSome EndsWell (decide helper plan applied round there status)
    unfolding decide
    decide_lem round (err source) status = λ session h.
        rolled_back (helper.helper_text (UpdateHelperError.io plan.health_marker source))
          (terminate helper session) h
    decide_lem round (ok there) (err source) = λ session h.
        rolled_back (helper.helper_text (UpdateHelperError.io applied.executable source))
          (terminate helper session) h
    decide_lem round (ok there) (ok (some status)) = λ session h.
        rolled_back (helper.helper_text (UpdateHelperError.new_application_exited status)) session h
    decide_lem round (ok true) (ok none) =
        λ session h. judge_lem (validate_health_marker helper plan.health_token round) session h
    decide_lem round (ok false) (ok none) = tt

    decided :
        (o : Option (Help N (Unit {0}))) (act : Help N (Unit {0})) (session : Session N)
        → ForSome EndsWell o
        → Ends IsCommitted Reports (act session)
        → IsPending session.disk
        → Ends IsCommitted Reports (elim o [ some act' ↦ act' session | none ↦ act session ])
    decided none act session h k g = k
    decided (some act') act session h k g = h session g

    wait_for_health_lem :
        (round : Round) (rest : List Round)
        → EndsWell (wait_for_health helper plan applied round rest)
    unfolding wait_for_health
    wait_for_health_lem round [] session h =
        decided (decide helper plan applied round round.marker_exists round.child_status)
          (λ s.
            rollback_and_relaunch helper plan applied
              (helper.helper_text UpdateHelperError.health_timeout) (terminate helper s))
          session (decide_lem round round.marker_exists round.child_status)
          (rolled_back (helper.helper_text UpdateHelperError.health_timeout)
            (terminate helper session) h)
          h
    wait_for_health_lem round (later ∷ rest) session h =
        decided (decide helper plan applied round round.marker_exists round.child_status)
          (wait_for_health helper plan applied later rest) session
          (decide_lem round round.marker_exists round.child_status)
          (wait_for_health_lem later rest session h) h

    pub complete_lem :
        (round : Round) (rest : List Round) (o : Option Text) (session : Session N)
        → IsPending session.disk
        → Ends IsCommitted Reports (
            next_or
              (λ u. wait_for_health helper plan applied round rest)
              (λ error. rollback_and_relaunch helper plan applied (helper.helper_text error))
              (spawned helper applied.executable (health_arguments helper plan) o session))
    complete_lem round rest none session h =
        wait_for_health_lem round rest
          (record session {
            events = started applied.executable (health_arguments helper plan) ∷ session.events;
          })
          h
    complete_lem round rest (some source) session h =
        rolled_back (helper.helper_text (launch applied.executable source)) session h
