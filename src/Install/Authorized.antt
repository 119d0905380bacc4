-- ===== src/Install/Authorized.antt =====
-- The helper changes something only with a plan that was authorized, once its parent has exited.
use ssh_mountmate.Base.{
  ◌≡◌, refl, sym, ForOk, ForOk-ok, ForOk-bind, ForOk-then, replicate, ap, ◌∙◌, ℕ, zero, suc, Bool,
  true, false, ◌||◌, not, Option, List, [], ◌∷◌, Result, ok, err, ok_or, ok_or-ok, refuse_if,
  refuse_if-ok, if◌then◌else◌, any, ◌⊎◌, inl, inr, ltb, ◌==◌, ==_refl,
}
use ssh_mountmate.Text.{Text, text_eq, text_eq_sound}
use ssh_mountmate.Action.{next}
use ssh_mountmate.Install.{Inspection, Paths, holds, map_err}
use ssh_mountmate.Install.HelperRun.{
  Helper, Session, Round, UpdateHelperPlan, UpdateHelperError, ParentProcessIdentity,
  ProcessIdentitySnapshot, PlanFile, Start, has_exited, wait_for_parent_exit,
  capture_current_process_identity, verify_running_helper, load_authenticated_plan,
  validate_plan_fields, check_plan_file, option_eq, is_marker_name, update_plan_schema,
  max_update_plan_bytes, regular_file_digest_matches, authorize, run_update, run_update_helper,
  unauthorized, storage, plan_too_large, unsupported_schema, invalid_plan, helper_not_detached,
  helper_digest_mismatch, parent_exit_timeout, current_process_identity, plan_cleanup, io,
}

abbrev answer : Bool → Result UpdateHelperError (Unit {0})
answer b = if b then ok tt else err parent_exit_timeout

-- The wait for the parent succeeds if a round sees that it has exited, and else ends with the
-- deadline.
pub wait_for_parent_exit_lem :
    (parent : ParentProcessIdentity) (snapshot : Option ProcessIdentitySnapshot)
    (rest : List (Option ProcessIdentitySnapshot))
    → wait_for_parent_exit parent snapshot rest
      ≡ (if any (has_exited parent) (snapshot ∷ rest) then ok tt else err parent_exit_timeout)
unfolding wait_for_parent_exit
wait_for_parent_exit_lem parent snapshot [] = go (has_exited parent snapshot)
  where
    go : (b : Bool) → answer b ≡ answer (b || false)
    go true = refl
    go false = refl
wait_for_parent_exit_lem parent snapshot (later ∷ rest) =
    rw (wait_for_parent_exit_lem parent later rest) (go (has_exited parent snapshot))
  where
    go :
        (b : Bool)
        → (if b then ok tt else answer (any (has_exited parent) (later ∷ rest)))
          ≡ answer (b || any (has_exited parent) (later ∷ rest))
    go true = refl
    go false = refl

map_err-ok : {D E A : Type 0} (f : D → E) (r : Result D A) (a : A) → map_err f r ≡ ok a → r ≡ ok a
map_err-ok f (ok b) a h = cc
map_err-ok f (err e) a h = absurd (cc)

not-false : (b : Bool) → not b ≡ false → b ≡ true
not-false true h = refl
not-false false h = cc

answered : (b : Bool) → answer b ≡ ok tt → b ≡ true
answered true h = refl
answered false h = absurd (cc)

-- The process that an identity was taken from is not seen as one that has exited.
has_exited-capture :
    (path : Text) (canonical : Result Text Text) (pid : ℕ)
    (snapshot : Option ProcessIdentitySnapshot) (digest : Result Text Text)
    → ForOk
        (λ parent. has_exited parent snapshot ≡ false)
        (capture_current_process_identity path canonical pid snapshot digest)
unfolding capture_current_process_identity has_exited
has_exited-capture path canonical pid snapshot digest =
    ForOk-bind _ (map_err (io path) canonical) _ (λ executable e0.
      ForOk-bind _ (ok_or snapshot current_process_identity) _ (λ seen e1.
        ForOk-bind _ (ok_or seen.executable current_process_identity) _ (λ process e2.
          ForOk-then _ (refuse_if (not (text_eq process executable)) current_process_identity) _
            (λ e3. ForOk-bind _ (map_err (λ e. current_process_identity) digest) _ (λ sha e4.
              rw (ok_or-ok snapshot current_process_identity seen e1) (
                rw (ok_or-ok seen.executable current_process_identity process e2) (
                  rw (==_refl seen.started_at) (
                    refuse_if-ok (not (text_eq process executable)) current_process_identity tt
                      e3))))))))

any-same :
    (p : Option ProcessIdentitySnapshot → Bool) (x : Option ProcessIdentitySnapshot) (n : ℕ)
    → p x ≡ false
    → any p (replicate n x) ≡ false
any-same p x zero h = refl
any-same p x (suc n) h = rw h (any-same p x n h)

-- While the process whose identity was taken is the one that every round sees, the wait for its exit
-- ends with the deadline and never with success.
pub wait_for_parent_exit-capture :
    (path : Text) (canonical : Result Text Text) (pid : ℕ)
    (snapshot : Option ProcessIdentitySnapshot) (digest : Result Text Text)
    (parent : ParentProcessIdentity) (n : ℕ)
    → capture_current_process_identity path canonical pid snapshot digest ≡ ok parent
    → wait_for_parent_exit parent snapshot (replicate n snapshot) ≡ err parent_exit_timeout
wait_for_parent_exit-capture path canonical pid snapshot digest parent n h =
    wait_for_parent_exit_lem parent snapshot (replicate n snapshot)
    ∙ ap answer (
        any-same (has_exited parent) snapshot (suc n) (
          ForOk-ok (λ p. has_exited p snapshot ≡ false) _
            (has_exited-capture path canonical pid snapshot digest) h))

-- What is known of a plan that the helper goes on with.
abbrev pub IsAuthorized : (Text → Text) → Paths → (Text → Bool) → Start → UpdateHelperPlan → Type 0
IsAuthorized sha256_text paths is_version start plan =
    (start.file.content ≡ ok plan)
    × (sha256_text start.token ≡ plan.token_sha256)
    × (validate_plan_fields paths is_version plan ≡ ok tt)
    × (regular_file_digest_matches start.helper_metadata start.helper_digest
          plan.parent.executable_sha256
        ≡ true)
    × (any (has_exited plan.parent) (start.snapshot ∷ start.later_snapshots) ≡ true)

module _ {N : Type 0} (helper : Helper N) (inspection : Inspection N) (paths : Paths)
    (is_version : Text → Bool) (windows : Bool) where
  load_lem :
      (file : PlanFile) (plan_path token : Text)
      → ForOk
          (λ plan.
            (file.content ≡ ok plan)
            × (helper.sha256_text token ≡ plan.token_sha256)
            × (validate_plan_fields paths is_version plan ≡ ok tt))
          (load_authenticated_plan paths is_version helper.sha256_text file plan_path token)
  unfolding load_authenticated_plan
  load_lem file plan_path token =
      ForOk-then _ (check_plan_file paths is_version plan_path file.metadata) _ (λ e0.
        ForOk-then _
          (refuse_if (ltb max_update_plan_bytes file.file_length) (plan_too_large plan_path)) _
          (λ e1. ForOk-bind _ (map_err storage file.content) _ (λ plan e2.
            ForOk-then _ (refuse_if (not (plan.schema == update_plan_schema)) unsupported_schema) _
              (λ e3. ForOk-then _ (validate_plan_fields paths is_version plan) _ (λ e4.
                ForOk-then _
                  (refuse_if
                    (not (option_eq (paths.parent plan.health_marker) (paths.parent plan_path))
                      || not (
                          holds (is_marker_name paths is_version)
                            (paths.file_name plan.health_marker)))
                    invalid_plan)
                  _
                  (λ e5.
                    ForOk-then _
                      (refuse_if (not (text_eq (helper.sha256_text token) plan.token_sha256))
                        unauthorized)
                      _
                      (λ e6. (
                        map_err-ok storage file.content plan e2,
                        text_eq_sound _ _ (not-false _ (refuse_if-ok _ unauthorized tt e6)),
                        e4,
                      ))))))))

  -- A plan that the helper goes on with is authorized.
  pub authorize_lem :
      (start : Start)
      → ForOk
          (IsAuthorized helper.sha256_text paths is_version start)
          (authorize helper inspection paths is_version windows start)
  unfolding authorize verify_running_helper
  authorize_lem start =
      ForOk-bind _
        (load_authenticated_plan paths is_version helper.sha256_text start.file start.plan_path
          start.token)
        _
        (λ plan e0.
          let known = ForOk-ok _ _ (load_lem start.file start.plan_path start.token) e0 in
          ForOk-bind _
            (verify_running_helper plan start.helper_path start.helper_canonical
              start.helper_metadata start.helper_digest)
            _
            (λ own e1. ForOk-then _ (map_err (λ e. plan_cleanup) start.plan_removed) _ (λ e2.
              ForOk-then (IsAuthorized helper.sha256_text paths is_version start)
                (wait_for_parent_exit plan.parent start.snapshot start.later_snapshots) (ok plan)
                (λ e3. (
                  known.0,
                  known.1,
                  known.2,
                  ForOk-ok _ _ (verify_lem plan start) e1,
                  exited plan start e3,
                )))))
    where
      verify_lem :
          (plan : UpdateHelperPlan) (s : Start)
          → ForOk
              (λ own.
                regular_file_digest_matches s.helper_metadata s.helper_digest
                  plan.parent.executable_sha256
                ≡ true)
              (verify_running_helper plan s.helper_path s.helper_canonical s.helper_metadata
                s.helper_digest)
      verify_lem plan s = ForOk-bind _ (map_err (io s.helper_path) s.helper_canonical) _ (λ own e0.
          ForOk-then _ (refuse_if (text_eq own plan.parent.executable) helper_not_detached) _ (λ e1.
            ForOk-then _
              (refuse_if
                (not (
                  regular_file_digest_matches s.helper_metadata s.helper_digest
                    plan.parent.executable_sha256))
                helper_digest_mismatch)
              _ (λ e2. not-false _ (refuse_if-ok _ helper_digest_mismatch tt e2))))

      exited :
          (plan : UpdateHelperPlan) (s : Start)
          → wait_for_parent_exit plan.parent s.snapshot s.later_snapshots ≡ ok tt
          → any (has_exited plan.parent) (s.snapshot ∷ s.later_snapshots) ≡ true
      exited plan s e =
          answered _ (sym (wait_for_parent_exit_lem plan.parent s.snapshot s.later_snapshots) ∙ e)

  -- Either the helper ends with the directory and the processes as they were, or the plan in the
  -- file has valid fields and was authorized by the token, the helper has the digest of the parent,
  -- and a round of the wait saw that the parent had exited.
  pub run_update_helper-IsAuthorized :
      (start : Start) (round : Round) (rest : List Round) (session session1 : Session N)
      (result : Result UpdateHelperError (Unit {0}))
      → run_update_helper helper inspection paths is_version windows start round rest session
        ≡ (result, session1)
      → (session1 ≡ session)
        ⊎ ((plan : UpdateHelperPlan) × IsAuthorized helper.sha256_text paths is_version start plan)
  unfolding run_update_helper
  run_update_helper-IsAuthorized start round rest session session1 result h =
      go (authorize helper inspection paths is_version windows start) (authorize_lem start) h
    where
      go :
          (r : Result UpdateHelperError UpdateHelperPlan)
          → ForOk (IsAuthorized helper.sha256_text paths is_version start) r
          → next
              (λ plan. run_update helper inspection paths is_version windows plan round rest)
              (r, session)
            ≡ (result, session1)
          → (session1 ≡ session)
            ⊎ ((plan : UpdateHelperPlan) × IsAuthorized helper.sha256_text paths is_version start
                  plan)
      go (ok plan) k e = inr (plan, k)
      go (err error) k e = inl (cc)
