-- ===== src/Install/Healthy.antt =====
-- The helper reports success only after the new version has.
use ssh_mountmate.Base.{
  ◌≡◌, refl, Bool, true, false, ◌&&◌, ◌||◌, Option, none, some, List, [], ◌∷◌, Result, ok, err, any,
  ForSome,
}
use ssh_mountmate.Text.{Text}
use ssh_mountmate.Action.{Ends, Ends-ok, next, next_or, throw}
use ssh_mountmate.Install.{Disk, AppliedUpdate, ApplyUpdateError, rollback_applied_update}
use ssh_mountmate.Install.HelperRun.{
  Help, Helper, Session, Round, UpdateHelperPlan, UpdateHelperError, spawned, launch_process,
  terminate, on_disk, remove_if_present, rollback_and_relaunch, validate_health_marker, commit,
  judge, decide, wait_for_health, complete_applied_update, health_arguments,
}

abbrev is_ok : {E A : Type 0} → Result E A → Bool
is_ok (ok a) = true
is_ok (err e) = false

abbrev runs : Result Text (Option Text) → Bool
runs (ok none) = true
runs (ok (some status)) = false
runs (err e) = false

abbrev is_there : Result Text Bool → Bool
is_there (ok b) = b
is_there (err e) = false

module _ {N : Type 0} (helper : Helper N) (plan : UpdateHelperPlan) where
  -- In the round the new process runs, and the marker is there and valid.
  abbrev pub is_healthy : Round → Bool
  is_healthy round =
      is_there round.marker_exists
      && (runs round.child_status && is_ok (validate_health_marker helper plan.health_token round))

  abbrev Never : Help N (Unit {0}) → Type 0
  Never act = (session : Session N) → Ends (λ u s. ⊥) (λ e s. Unit {0}) (act session)

  rollback-Never :
      (applied : AppliedUpdate) (message : Text)
      → Never (rollback_and_relaunch helper plan applied message)
  unfolding rollback_and_relaunch launch_process
  rollback-Never applied message session = go (rollback_applied_update applied session.disk)
    where
      started_again :
          (o : Option Text) (session1 : Session N)
          → Ends
              (λ u s. ⊥)
              (λ e s. Unit {0})
              (next_or
                (λ u'. throw {A = Unit {0}} (UpdateHelperError.update_rolled_back message))
                (λ error.
                  throw (UpdateHelperError.restored_relaunch_failed (helper.helper_text error)))
                (spawned helper applied.previous_executable plan.relaunch_arguments o session1))
      started_again none session1 = tt
      started_again (some source) session1 = tt

      go :
          (q : Result ApplyUpdateError (Unit {0}) × Disk N)
          → Ends
              (λ u s. ⊥)
              (λ e s. Unit {0})
              (next
                (λ u session1.
                  next_or
                    (λ u'. throw {A = Unit {0}} (UpdateHelperError.update_rolled_back message))
                    (λ error.
                      throw (UpdateHelperError.restored_relaunch_failed (helper.helper_text error)))
                    (launch_process helper applied.previous_executable plan.relaunch_arguments
                      (remove_if_present helper applied.failed_payload session1)))
                (on_disk helper
                  (λ e. UpdateHelperError.rollback_failed message (helper.apply_text e))
                  session
                  q))
      go (ok u, d) =
          started_again (helper.spawn session.events applied.previous_executable)
            (remove_if_present helper applied.failed_payload (record session { disk = d }))
      go (err e, d) = tt

  -- Success needs what the flag says.
  abbrev Needs : Bool → Help N (Unit {0}) → Type 0
  Needs b act = (session : Session N) → Ends (λ u s. b ≡ true) (λ e s. Unit {0}) (act session)

  Never-Needs : (b : Bool) (act : Help N (Unit {0})) → Never act → Needs b act
  Never-Needs b act h session = go (act session) (h session)
    where
      go :
          (q : Result UpdateHelperError (Unit {0}) × Session N)
          → Ends (λ u s. ⊥) (λ e s. Unit {0}) q
          → Ends (λ u s. b ≡ true) (λ e s. Unit {0}) q
      go (ok u, s) k = absurd k
      go (err e, s) k = tt

  any_end :
      (q : Result UpdateHelperError (Unit {0}) × Session N)
      → Ends (λ u s. true ≡ true) (λ e s. Unit {0}) q
  any_end (ok u, s) = refl
  any_end (err e, s) = tt

  judge-Needs :
      (applied : AppliedUpdate) (verdict : Result UpdateHelperError (Unit {0}))
      → Needs (is_ok verdict) (judge helper plan applied verdict)
  unfolding judge
  judge-Needs applied (ok u) session = any_end (commit helper plan applied session)
  judge-Needs applied (err e) session =
      Never-Needs false (rollback_and_relaunch helper plan applied (helper.helper_text e))
        (rollback-Never applied (helper.helper_text e)) (terminate helper session)

  decide-Needs :
      (applied : AppliedUpdate) (round : Round) (there : Result Text Bool)
      (status : Result Text (Option Text))
      → ForSome
          (Needs (
            is_there there
            && (runs status && is_ok (validate_health_marker helper plan.health_token round))))
          (decide helper plan applied round there status)
  unfolding decide
  decide-Needs applied round (err source) status = λ session.
      Never-Needs false
        (rollback_and_relaunch helper plan applied
          (helper.helper_text (UpdateHelperError.io plan.health_marker source)))
        (rollback-Never applied _) (terminate helper session)
  decide-Needs applied round (ok true) (err source) = λ session.
      Never-Needs false
        (rollback_and_relaunch helper plan applied
          (helper.helper_text (UpdateHelperError.io applied.executable source)))
        (rollback-Never applied _) (terminate helper session)
  decide-Needs applied round (ok false) (err source) = λ session.
      Never-Needs false
        (rollback_and_relaunch helper plan applied
          (helper.helper_text (UpdateHelperError.io applied.executable source)))
        (rollback-Never applied _) (terminate helper session)
  decide-Needs applied round (ok true) (ok (some status)) =
      Never-Needs false
        (rollback_and_relaunch helper plan applied
          (helper.helper_text (UpdateHelperError.new_application_exited status)))
        (rollback-Never applied _)
  decide-Needs applied round (ok false) (ok (some status)) =
      Never-Needs false
        (rollback_and_relaunch helper plan applied
          (helper.helper_text (UpdateHelperError.new_application_exited status)))
        (rollback-Never applied _)
  decide-Needs applied round (ok true) (ok none) =
      judge-Needs applied (validate_health_marker helper plan.health_token round)
  decide-Needs applied round (ok false) (ok none) = tt

  or_left :
      (b c : Bool) (q : Result UpdateHelperError (Unit {0}) × Session N)
      → Ends (λ u s. b ≡ true) (λ e s. Unit {0}) q
      → Ends (λ u s. (b || c) ≡ true) (λ e s. Unit {0}) q
  or_left b c (ok u, s) h = rw h refl
  or_left b c (err e, s) h = tt

  or_right :
      (b c : Bool) (q : Result UpdateHelperError (Unit {0}) × Session N)
      → Ends (λ u s. c ≡ true) (λ e s. Unit {0}) q
      → Ends (λ u s. (b || c) ≡ true) (λ e s. Unit {0}) q
  or_right true c (ok u, s) h = refl
  or_right false c (ok u, s) h = h
  or_right b c (err e, s) h = tt

  decided-Needs :
      (b c : Bool) (o : Option (Help N (Unit {0}))) (act : Help N (Unit {0})) (session : Session N)
      → ForSome (Needs b) o
      → Ends (λ u s. c ≡ true) (λ e s. Unit {0}) (act session)
      → Ends {E = UpdateHelperError} {S = Session N} {A = Unit {0}}
          (λ u s. (b || c) ≡ true)
          (λ e s. Unit {0})
          (elim o [ some act' ↦ act' session | none ↦ act session ])
  decided-Needs b c none act session h k = or_right b c (act session) k
  decided-Needs b c (some act') act session h k = or_left b c (act' session) (h session)

  wait-Needs :
      (applied : AppliedUpdate) (round : Round) (rest : List Round)
      → Needs (any is_healthy (round ∷ rest)) (wait_for_health helper plan applied round rest)
  unfolding wait_for_health
  wait-Needs applied round [] session =
      decided-Needs (is_healthy round) false
        (decide helper plan applied round round.marker_exists round.child_status)
        (λ s.
          rollback_and_relaunch helper plan applied
            (helper.helper_text UpdateHelperError.health_timeout) (terminate helper s))
        session (decide-Needs applied round round.marker_exists round.child_status)
        (Never-Needs false
          (rollback_and_relaunch helper plan applied
            (helper.helper_text UpdateHelperError.health_timeout))
          (rollback-Never applied _) (terminate helper session))
  wait-Needs applied round (later ∷ rest) session =
      decided-Needs (is_healthy round) (any is_healthy (later ∷ rest))
        (decide helper plan applied round round.marker_exists round.child_status)
        (wait_for_health helper plan applied later rest) session
        (decide-Needs applied round round.marker_exists round.child_status)
        (wait-Needs applied later rest session)

  complete-Needs :
      (applied : AppliedUpdate) (round : Round) (rest : List Round)
      → Needs
          (any is_healthy (round ∷ rest))
          (complete_applied_update helper plan applied round rest)
  unfolding complete_applied_update launch_process
  complete-Needs applied round rest session = go (helper.spawn session.events applied.executable)
    where
      go :
          (o : Option Text)
          → Ends
              (λ u s. any is_healthy (round ∷ rest) ≡ true)
              (λ e s. Unit {0})
              (next_or
                (λ u. wait_for_health helper plan applied round rest)
                (λ error. rollback_and_relaunch helper plan applied (helper.helper_text error))
                (spawned helper applied.executable (health_arguments helper plan) o session))
      go none = wait-Needs applied round rest _
      go (some source) =
          Never-Needs (any is_healthy (round ∷ rest))
            (rollback_and_relaunch helper plan applied
              (helper.helper_text (UpdateHelperError.launch applied.executable source)))
            (rollback-Never applied _) session

  -- An update that the helper takes up to its end, with success, has been reported as healthy: in a
  -- round of the wait the new process still ran, and the marker was there and was valid.
  pub complete_applied_update-is_healthy :
      (applied : AppliedUpdate) (round : Round) (rest : List Round) (session session1 : Session N)
      → complete_applied_update helper plan applied round rest session ≡ (ok tt, session1)
      → any is_healthy (round ∷ rest) ≡ true
  complete_applied_update-is_healthy applied round rest session session1 e =
      Ends-ok (λ u s. any is_healthy (round ∷ rest) ≡ true) (λ e' s. Unit {0}) _
        (complete-Needs applied round rest session) e
