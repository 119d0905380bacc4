-- ===== src/Install/Started.antt =====
-- The helper from its start to its end.
use ssh_mountmate.Base.{
  ◌≡◌, sym, subst, Bool, true, some, List, [], Result, ok, err, ForOk, inl, ok-injective, ◌∙◌,
}
use ssh_mountmate.Text.{Text}
use ssh_mountmate.Action.{Ends, Ends-ok, Ends-err, next}
use ssh_mountmate.Install.{Inspection, Paths, valid_versioned_executable_name}
use ssh_mountmate.Install.HelperRun.{
  Helper, Session, Round, UpdateHelperPlan, UpdateHelperError, Start, authorize, run_update,
  run_update_helper,
}
use ssh_mountmate.Install.Moves.{view}
use ssh_mountmate.Install.Placed.{installed_place}
use ssh_mountmate.Install.Run.{HasApplication, IsConfirmed, run_update_lem}
use ssh_mountmate.Install.Authorized.{IsAuthorized, authorize_lem}

module _ {N : Type 0} (helper : Helper N) (inspection : Inspection N) (paths : Paths)
    (is_version : Text → Bool)
    (with_file_name_lem : (path name : Text)
      → valid_versioned_executable_name is_version name ≡ true
      → paths.file_name (paths.with_file_name path name) ≡ some name)
    (windows : Bool) (start : Start) (plan : UpdateHelperPlan)
    (content : start.file.content ≡ ok plan) (old : N) (session : Session N)
    (at_target : view session.disk plan.layout.replace_path ≡ some old)
    (no_history : session.disk.history ≡ []) where
  abbrev AtEnd : UpdateHelperPlan → Result UpdateHelperError (Unit {0}) × Session N → Type 0
  AtEnd p q =
      Ends
        (λ u s.
          IsConfirmed (installed_place paths p.layout.replace_path p.prepared.installed_name)
            p.layout.replace_path p.transaction.prepared p.transaction.backup (view session.disk)
            (view s.disk))
        (λ e s.
          HasApplication p.layout.replace_path p.transaction.prepared p.transaction.backup old
            (view session.disk) (view s.disk))
        q

  run_update_helper_lem :
      (round : Round) (rest : List Round)
      → AtEnd plan
          (run_update_helper helper inspection paths is_version windows start round rest session)
  unfolding run_update_helper
  run_update_helper_lem round rest =
      go (authorize helper inspection paths is_version windows start)
        (authorize_lem helper inspection paths is_version windows start)
    where
      go :
          (r : Result UpdateHelperError UpdateHelperPlan)
          → ForOk (IsAuthorized helper.sha256_text paths is_version start) r
          → AtEnd plan (
              next
                (λ p. run_update helper inspection paths is_version windows p round rest)
                (r, session))
      go (err e) k = inl (inl at_target)
      go (ok p) k =
          subst
            (λ (p' : UpdateHelperPlan).
              AtEnd plan
                (run_update helper inspection paths is_version windows p' round rest session))
            (ok-injective plan p (sym content ∙ k.0))
            (run_update_lem helper plan inspection paths is_version with_file_name_lem windows old
              session at_target no_history round rest)

  -- An update that the helper reports as done is in the place of the installation, or, where the
  -- plan has a name for it, at `with_file_name` of that place and the name. Nothing was at that
  -- path, unless it is the one of the installation, and nothing is left at the one of the backup.
  -- It is assumed that `with_file_name` gives a path of that name, for the name of a version; the
  -- plan is the one in the file, there is an installation, and no history of the directory yet.
  pub run_update_helper-IsConfirmed :
      (round : Round) (rest : List Round) (session1 : Session N)
      → run_update_helper helper inspection paths is_version windows start round rest session
        ≡ (ok tt, session1)
      → IsConfirmed
          (installed_place paths plan.layout.replace_path plan.prepared.installed_name)
          plan.layout.replace_path
          plan.transaction.prepared
          plan.transaction.backup
          (view session.disk)
          (view session1.disk)
  run_update_helper-IsConfirmed round rest session1 e =
      Ends-ok _ _ _ (run_update_helper_lem round rest) e

  -- Whatever error the helper ends with, an application is left: the old installation is in its
  -- place or is the backup, or the prepared update is whole at some path. It is assumed that
  -- `with_file_name` gives a path of that name, for the name of a version; the plan is the one in
  -- the file, there is an installation, and no history of the directory yet.
  pub run_update_helper-HasApplication :
      (round : Round) (rest : List Round) (error : UpdateHelperError) (session1 : Session N)
      → run_update_helper helper inspection paths is_version windows start round rest session
        ≡ (err error, session1)
      → HasApplication plan.layout.replace_path plan.transaction.prepared plan.transaction.backup
          old
          (view session.disk)
          (view session1.disk)
  run_update_helper-HasApplication round rest error session1 e =
      Ends-err _ _ _ (run_update_helper_lem round rest) e
