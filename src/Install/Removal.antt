-- ===== src/Install/Removal.antt =====
-- A removal touches one entry.
use ssh_mountmate.Base.{◌≡◌, refl, ◌∙◌, false, Option, none, some, List, [], ◌∷◌, if◌then◌else◌}
use ssh_mountmate.Text.{Text, text_eq}
use ssh_mountmate.Dict.{lookup}
use ssh_mountmate.Dict.Laws.{lookup-insert, lookup-remove}
use ssh_mountmate.Action.{Ends}
use ssh_mountmate.Install.{Disk, remove_found, remove_unless, remove_path_entry}
use ssh_mountmate.Install.Moves.{View, view}

-- A removal touches one entry, and that is gone where it succeeds.
abbrev pub IsRemoved : {N : Type 0} → Text → View N → Unit {0} → Disk N → Type 0
IsRemoved path w u disk = (k : Text) → view disk k ≡ (if text_eq path k then none else w k)

abbrev pub AreOthersKept : {N E : Type 0} → Text → View N → E → Disk N → Type 0
AreOthersKept path w e disk = (k : Text) → text_eq path k ≡ false → view disk k ≡ w k

remove_found_lem :
    {N : Type 0} (path : Text) (o : Option N) (disk : Disk N)
    → Ends (IsRemoved path (view disk)) (AreOthersKept path (view disk)) (remove_found path o disk)
remove_found_lem path none disk = λ k f. refl
remove_found_lem path (some n) disk = λ k. lookup-remove path k disk.entries

pub remove_lem :
    {N : Type 0} (left : N → N) (path : Text) (disk : Disk N)
    → Ends
        (IsRemoved path (view disk))
        (AreOthersKept path (view disk))
        (remove_path_entry left path disk)
unfolding remove_path_entry
remove_lem {N} left path disk = go disk.refusals (lookup path disk.entries)
  where
    go :
        (r : List (Option Text)) (o : Option N)
        → Ends
            (IsRemoved path (view disk))
            (AreOthersKept path (view disk))
            (remove_unless left r path o disk)
    go [] o = remove_found_lem path o disk
    go (none ∷ rest) o = remove_found_lem path o (record disk { refusals = rest })
    go (some error ∷ rest) none = λ k f. refl
    go (some error ∷ rest) (some n) = λ k f. lookup-insert path k (left n) disk.entries ∙ rw f refl
