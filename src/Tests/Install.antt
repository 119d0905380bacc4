-- ===== src/Tests/Install.antt =====
-- Runs of an update in a directory of three entries.
use ssh_mountmate.Base.{
  ◌==◌, ◌≡◌, refl, ap, ◌||◌, true, false, Option, none, some, List, [], ◌∷◌, ◌++◌, Result, ok, err,
  if◌then◌else◌, drop, any, replicate, ◌⊎◌,
}
use ssh_mountmate.Text.{Text, codes, text_eq, strip_prefix, is_ascii_hexdigit}
use ssh_mountmate.Dict.{Dict, lookup}
use ssh_mountmate.Install.{
  Disk, Metadata, not_found, found, Inspection, Paths, InstallLayout, standalone_executable,
  TransactionPaths, PreparedPayload, AppliedUpdate, apply_prepared_update, io,
  validate_transaction_shape, plan_transaction_paths, transaction_file_name,
  recover_previous_update,
}
use ssh_mountmate.Install.HelperRun.{
  Helper, Session, Round, UpdateHelperPlan, UpdateHelperError, started, marker_removed,
  complete_applied_update, run_update_helper, Start, has_exited, wait_for_parent_exit,
  capture_current_process_identity, write_update_plan, load_authenticated_plan,
  validate_health_marker, write_update_health_marker, health_arguments,
}
use ssh_mountmate.Install.Run.{HasApplication, IsConfirmed}
use ssh_mountmate.Install.Started.{run_update_helper-IsConfirmed, run_update_helper-HasApplication}
use ssh_mountmate.Install.Authorized.{
  IsAuthorized, run_update_helper-IsAuthorized, wait_for_parent_exit-capture,
  wait_for_parent_exit_lem,
}
use ssh_mountmate.Install.Planned.{validate_transaction_shape-plan_transaction_paths}
use ssh_mountmate.Install.Recovered.{IsRecovered, recover_previous_update-IsRecovered}
use ssh_mountmate.Install.Detect.{Probe, detect_install_layout}
use ssh_mountmate.Install.Evidence.{IsFile, IsElsewhere}
use ssh_mountmate.Install.Detected.{IsLaidOut, detect_install_layout-IsLaidOut}
use ssh_mountmate.Install.Written.{
  load_authenticated_plan-write_update_plan, validate_health_marker-write_update_health_marker,
}
use ssh_mountmate.Install.Healthy.{is_healthy, complete_applied_update-is_healthy}
use ssh_mountmate.Install.Moves.{view}
use ssh_mountmate.Install.Swap.{IsApplied, IsFailed}
use ssh_mountmate.Install.Whole.{apply_prepared_update-IsApplied, apply_prepared_update-IsFailed}

-- Two contents, each its own digest, and two tokens.
abbrev old : Text
old = replicate 64 b'a'

abbrev new : Text
new = replicate 64 b'b'

abbrev token : Text
token = replicate 64 b'1'

abbrev health_token : Text
health_token = replicate 64 b'2'

-- Paths below one directory of one letter.
-- What stands before the last slash.
abbrev before_slash : Text → Option Text
before_slash [] = none
before_slash (c ∷ path) = elim (before_slash path) [
  | none ↦ if c == b'/' then some [] else none
  | some parent ↦ some (c ∷ parent)
]

abbrev paths : Paths
paths = record {
  parent = before_slash;
  file_name = λ p. some (drop 2 p);
  join = λ a b. a ++ (codes "/" ++ b);
  with_file_name = λ p name. codes "d/" ++ name;
  starts_with = text_eq;
  path_strip_prefix = λ a b. if text_eq a b then some [] else none;
}

abbrev installation : InstallLayout
installation = record {
  kind = standalone_executable;
  executable = codes "d/app";
  replace_path = codes "d/app";
}

abbrev transaction : TransactionPaths
transaction = record {
  prepared = codes "d/.app.ssh-mountmate-prepared-0123456789abcdef0123456789abcdef";
  backup = codes "d/.app.ssh-mountmate-backup";
}

abbrev prepared : PreparedPayload
prepared = record {
  installed_name = none;
  replace_path = transaction.prepared;
  executable = transaction.prepared;
  executable_sha256 = new;
  tree_sha256 = new;
}

-- An entry is a file, and its content serves as its digest.
abbrev metadata : Option Text → Metadata
metadata none = not_found
metadata (some n) = found true false false

abbrev digest : Option Text → Result Text Text
digest none = err (codes "entity not found")
digest (some n) = ok n

abbrev inspection : Inspection Text
inspection = record {
  symlink_metadata = λ entries path. metadata (lookup path entries);
  file_sha256 = λ entries path. digest (lookup path entries);
  prepared_tree_sha256 = λ entries path. digest (lookup path entries);
  locate_directory_payload = λ entries path. none;
  detect_install_layout = λ entries executable. ok installation;
}

abbrev before : Dict Text
before = (codes "d/app", old) ∷ (transaction.prepared, new) ∷ []

abbrev disk : List (Option Text) → Disk Text
disk refusals = record { entries = before; refusals = refusals; history = [] }

abbrev away : Dict Text
away = (transaction.prepared, new) ∷ (transaction.backup, old) ∷ []

abbrev after : Dict Text
after = (transaction.backup, old) ∷ (codes "d/app", new) ∷ []

abbrev applied : AppliedUpdate
applied = record {
  previous_target = codes "d/app";
  previous_executable = codes "d/app";
  executable = codes "d/app";
  target = codes "d/app";
  failed_payload = transaction.prepared;
  backup = transaction.backup;
}

abbrev updated : Disk Text
updated = record { entries = after; refusals = []; history = after ∷ away ∷ [] }

applied_well :
    apply_prepared_update inspection paths
      (λ v. true)
      false
      installation
      prepared
      transaction
      (disk [])
    ≡ (ok applied, updated)
unfolding apply_prepared_update strip_prefix is_ascii_hexdigit
applied_well = refl

apply_prepared_update-IsApplied_example :
    IsApplied
      (codes "d/app")
      transaction.prepared
      transaction.backup
      old
      (view (disk []))
      applied
      updated
unfolding text_eq
apply_prepared_update-IsApplied_example =
    apply_prepared_update-IsApplied inspection paths (λ v. true) (λ path name h. refl) false
      installation prepared transaction old (disk []) (unfold lookup in refl) refl applied updated
      applied_well

abbrev restored : Dict Text
restored = (transaction.prepared, new) ∷ (codes "d/app", old) ∷ []

-- The update cannot be moved in, and the installation is moved back.
apply_prepared_update-IsFailed_example :
    IsFailed
      (codes "d/app")
      transaction.prepared
      transaction.backup
      old
      (view (disk (none ∷ some (codes "busy") ∷ [])))
      (io transaction.prepared (codes "busy"))
      (record { entries = restored; refusals = []; history = restored ∷ away ∷ [] })
unfolding text_eq
apply_prepared_update-IsFailed_example =
    apply_prepared_update-IsFailed inspection paths (λ v. true) (λ path name h. refl) false
      installation prepared transaction old (disk (none ∷ some (codes "busy") ∷ []))
      (unfold lookup in refl) refl (io transaction.prepared (codes "busy"))
      (record { entries = restored; refusals = []; history = restored ∷ away ∷ [] })
      (unfold apply_prepared_update strip_prefix is_ascii_hexdigit in refl)

abbrev helper : Helper Text
helper = record {
  apply_text = λ e. codes "not applied";
  helper_text = λ e. codes "failed";
  spawn = λ events executable. none;
  sha256_text = λ token. token;
  left = λ n. n;
}

abbrev plan : UpdateHelperPlan
plan = record {
  schema = 1;
  token_sha256 = token;
  parent = record { pid = 7; started_at = 0; executable = codes "d/app"; executable_sha256 = old };
  layout = installation;
  prepared = prepared;
  transaction = transaction;
  health_marker = codes "d/health-1.json";
  health_token = health_token;
  relaunch_arguments = [];
}

abbrev healthy : Round
healthy = record {
  marker_exists = ok true;
  child_status = ok none;
  is_symlink = false;
  is_file = true;
  marker_length = 80;
  marker = some (record { schema = 1; token_sha256 = health_token });
}

abbrev waiting : Round
waiting = record healthy { marker_exists = ok false }

abbrev begin : Session Text
begin = record { disk = disk []; events = [] }

abbrev final : Dict Text
final = (codes "d/app", new) ∷ []

abbrev end_healthy : Session Text
end_healthy = record {
  disk = record { entries = final; refusals = []; history = final ∷ after ∷ away ∷ [] };
  events =
      marker_removed (codes "d/health-1.json")
      ∷ started (codes "d/app") (health_arguments helper plan)
      ∷ [];
}

abbrev start : Start
start = record {
  plan_path = codes "d/plan-1.json";
  token = token;
  file = record { metadata = found true false false; file_length = 900; content = ok plan };
  helper_path = codes "d/helper";
  helper_canonical = ok (codes "d/helper");
  helper_metadata = found true false false;
  helper_digest = ok old;
  plan_removed = ok tt;
  snapshot = some (record { started_at = 0; executable = none });
  later_snapshots = none ∷ [];
}

run_update_helper-IsConfirmed_example :
    IsConfirmed
      (codes "d/app")
      (codes "d/app")
      transaction.prepared
      transaction.backup
      (view begin.disk)
      (view end_healthy.disk)
unfolding text_eq
run_update_helper-IsConfirmed_example =
    run_update_helper-IsConfirmed helper inspection paths (λ v. true) (λ path name h. refl) false
      start plan refl old begin (unfold lookup in refl) refl waiting (healthy ∷ []) end_healthy
      (unfold run_update_helper strip_prefix is_ascii_hexdigit in refl)

abbrev taken_back : Dict Text
taken_back = (transaction.prepared, new) ∷ (codes "d/app", old) ∷ []

abbrev out_again : Dict Text
out_again = (transaction.backup, old) ∷ (transaction.prepared, new) ∷ []

abbrev cleaned : Dict Text
cleaned = (codes "d/app", old) ∷ []

-- The new version exits, and the old one is started again.
abbrev end_failed : Session Text
end_failed = record {
  disk = record {
    entries = cleaned;
    refusals = [];
    history = cleaned ∷ taken_back ∷ out_again ∷ after ∷ away ∷ [];
  };
  events = started (codes "d/app") [] ∷ started (codes "d/app") (health_arguments helper plan) ∷ [];
}

run_update_helper-HasApplication_example :
    HasApplication
      (codes "d/app")
      transaction.prepared
      transaction.backup
      old
      (view begin.disk)
      (view end_failed.disk)
unfolding text_eq
run_update_helper-HasApplication_example =
    run_update_helper-HasApplication helper inspection paths (λ v. true) (λ path name h. refl) false
      start plan refl old begin (unfold lookup in refl) refl
      (record waiting { child_status = ok (some (codes "exit status: 1")) }) []
      (UpdateHelperError.update_rolled_back (codes "failed")) end_failed
      (unfold run_update_helper strip_prefix is_ascii_hexdigit in refl)

run_update_helper-IsAuthorized_example :
    (end_healthy ≡ begin)
    ⊎ ((p : UpdateHelperPlan) × IsAuthorized helper.sha256_text paths (λ v. true) start p)
unfolding text_eq
run_update_helper-IsAuthorized_example =
    run_update_helper-IsAuthorized helper inspection paths (λ v. true) false start waiting
      (healthy ∷ []) begin end_healthy (ok tt)
      (unfold run_update_helper strip_prefix is_ascii_hexdigit in refl)

wait_for_parent_exit-capture_example :
    wait_for_parent_exit plan.parent
      (some (record { started_at = 0; executable = some (codes "d/app") }))
      (replicate 2 (some (record { started_at = 0; executable = some (codes "d/app") })))
    ≡ err UpdateHelperError.parent_exit_timeout
wait_for_parent_exit-capture_example =
    wait_for_parent_exit-capture (codes "app") (ok (codes "d/app")) 7
      (some (record { started_at = 0; executable = some (codes "d/app") })) (ok old) plan.parent 2
      (unfold capture_current_process_identity in refl)

wait_for_parent_exit_lem_example :
    wait_for_parent_exit plan.parent start.snapshot start.later_snapshots ≡ ok tt
unfolding has_exited
wait_for_parent_exit_lem_example =
    wait_for_parent_exit_lem plan.parent start.snapshot start.later_snapshots

load_authenticated_plan-write_update_plan_example :
    load_authenticated_plan paths (λ v. true) (λ t. t) start.file start.plan_path token ≡ ok plan
load_authenticated_plan-write_update_plan_example =
    load_authenticated_plan-write_update_plan paths (λ v. true) (λ t. t) (codes "d") (codes "1")
      refl refl refl token health_token plan.parent installation prepared transaction [] (ok tt)
      not_found not_found (ok tt) 900 (record { plan_path = start.plan_path; token = token }) plan
      refl (unfold write_update_plan strip_prefix is_ascii_hexdigit in refl)

validate_health_marker-write_update_health_marker_example :
    validate_health_marker helper health_token healthy ≡ ok tt
unfolding text_eq
validate_health_marker-write_update_health_marker_example =
    validate_health_marker-write_update_health_marker helper paths (λ v. true) (codes "d")
      (record { marker_path = codes "d/health-1.json"; token = health_token }) 80 healthy not_found
      (ok tt) (record { schema = 1; token_sha256 = health_token }) refl
      (unfold write_update_health_marker is_ascii_hexdigit in refl)

complete_applied_update-is_healthy_example :
    any (is_healthy helper plan) (waiting ∷ healthy ∷ []) ≡ true
unfolding text_eq
complete_applied_update-is_healthy_example =
    complete_applied_update-is_healthy helper plan applied waiting (healthy ∷ [])
      (record { disk = updated; events = [] }) end_healthy (unfold complete_applied_update in refl)

abbrev hex : Text
hex = codes "0123456789abcdef0123456789abcdef"

abbrev idle : Disk Text
idle = record { entries = (codes "d/app", old) ∷ []; refusals = []; history = [] }

validate_transaction_shape-plan_transaction_paths_example :
    validate_transaction_shape paths installation transaction ≡ true
unfolding transaction_file_name
validate_transaction_shape-plan_transaction_paths_example =
    validate_transaction_shape-plan_transaction_paths inspection paths installation hex (codes "d")
      (codes "app") (unfold is_ascii_hexdigit in refl) refl refl refl refl refl refl idle idle
      transaction (unfold plan_transaction_paths lookup in refl)

-- An update was interrupted before its backup was removed.
abbrev interrupted : Disk Text
interrupted = record {
  entries = (codes "d/app", new) ∷ (transaction.backup, old) ∷ [];
  refusals = [];
  history = [];
}

abbrev recovered : Text
recovered = codes "d/.app.ssh-mountmate-recovered-0123456789abcdef0123456789abcdef"

abbrev kept : Dict Text
kept = (codes "d/app", new) ∷ (recovered, old) ∷ []

recover_previous_update-IsRecovered_example :
    IsRecovered inspection paths installation hex
      (codes "d")
      (codes "app")
      refl
      refl
      (λ entries path h. ap metadata h)
      interrupted
      transaction.backup
      (some recovered)
      (record { entries = kept; refusals = []; history = kept ∷ [] })
unfolding text_eq transaction_file_name
recover_previous_update-IsRecovered_example =
    recover_previous_update-IsRecovered inspection paths installation hex (codes "d") (codes "app")
      refl refl (λ entries path h. ap metadata h) interrupted (some recovered)
      (record { entries = kept; refusals = []; history = kept ∷ [] })
      (unfold recover_previous_update lookup in refl)

-- One file, which `./app` names too.
abbrev probe : Probe
probe = record {
  symlink_metadata = λ path.
      if text_eq path (codes "d/app") || text_eq path (codes "./app")
      then found true false false
      else not_found;
  metadata_len = λ path. 3;
  read = λ path. none;
  canonicalize = λ path. ok (codes "d/app");
  verify_bundled = λ path. ok tt;
  components = λ path. path ∷ [];
  ancestors = λ path. path ∷ codes "d" ∷ [];
  extension = λ path. none;
  to_lowercase = λ s. s;
}

detect_install_layout-IsLaidOut_example :
    IsFile probe paths (codes "linux") (codes "t") (codes "./app")
    × (probe.canonicalize (codes "./app") ≡ ok (codes "d/app"))
    × IsElsewhere probe paths (codes "linux") (codes "t") (codes "d/app")
    × IsLaidOut probe paths
        (codes "linux")
        (codes "t")
        standalone_executable
        (codes "d/app")
        (codes "d/app")
unfolding text_eq
detect_install_layout-IsLaidOut_example =
    detect_install_layout-IsLaidOut probe paths (codes "linux") (codes "t") (codes "./app")
      installation (unfold detect_install_layout in refl)
