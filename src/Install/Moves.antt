-- ===== src/Install/Moves.antt =====
-- What a move does to the entries, and to a property that every state of the directory has.
use mathlib.Core.Path.{fun_ext}
use ssh_mountmate.Base.{
  ◌≡◌, refl, sym, ap, ◌∙◌, subst, Option, none, some, List, [], ◌∷◌, All, if◌then◌else◌,
}
use ssh_mountmate.Text.{Text, text_eq, text_eq_refl}
use ssh_mountmate.Dict.{Dict, lookup, insert, remove}
use ssh_mountmate.Dict.Laws.{lookup-insert, lookup-remove}
use ssh_mountmate.Action.{Ends}
use ssh_mountmate.Install.{Disk, move_entry, rename_unless, rename_no_replace}

abbrev pub View : Type 0 → Type 0
View N = Text → Option N

abbrev pub view_of : {N : Type 0} → Dict N → View N
view_of entries k = lookup k entries

abbrev pub view : {N : Type 0} → Disk N → View N
view disk = view_of disk.entries

abbrev pub moved : {N : Type 0} → Text → Text → N → View N → View N
moved source destination n w k =
    if text_eq destination k then some n else if text_eq source k then none else w k

pub moved-destination :
    {N : Type 0} (source destination : Text) (n : N) (w : View N)
    → moved source destination n w destination ≡ some n
moved-destination source destination n w = rw (text_eq_refl destination) refl

module _ {N : Type 0} (Good : View N → Type 0) where
  -- Every state so far has the property.
  abbrev pub WasGood : Disk N → Type 0
  WasGood disk = All (λ entries. Good (view_of entries)) disk.history

  abbrev pub IsMoved : Text → Text → View N → Unit {0} → Disk N → Type 0
  IsMoved source destination w u disk =
      (n : N) × (w source ≡ some n)
      × (w destination ≡ none)
      × (view disk ≡ moved source destination n w)
      × WasGood disk

  abbrev pub IsKept : {E : Type 0} → View N → E → Disk N → Type 0
  IsKept w e disk = (view disk ≡ w) × WasGood disk

  move_entry_lem :
      (source destination : Text) (w : View N) (disk : Disk N) (a b : Option N)
      → w source ≡ a
      → w destination ≡ b
      → view disk ≡ w
      → WasGood disk
      → ((n : N) → w source ≡ some n → w destination ≡ none → Good (moved source destination n w))
      → Ends (IsMoved source destination w) (IsKept w) (move_entry source destination a b disk)
  move_entry_lem source destination w disk none b e f h g good = (h, g)
  move_entry_lem source destination w disk (some n) (some m) e f h g good = (h, g)
  move_entry_lem source destination w disk (some n) none e f h g good =
      (n, e, f, after, (subst Good (sym after) (good n e f), g))
    where
      after :
          view_of (insert destination n (remove source disk.entries)) ≡ moved source destination n w
      after = fun_ext λ k.
          lookup-insert destination k n (remove source disk.entries)
          ∙ ap (λ o. if text_eq destination k then some n else o)
              (lookup-remove source k disk.entries
                ∙ ap (λ (v : View N). if text_eq source k then none else v k) h)

  pub rename_lem :
      (source destination : Text) (w : View N) (disk : Disk N)
      → view disk ≡ w
      → WasGood disk
      → ((n : N) → w source ≡ some n → w destination ≡ none → Good (moved source destination n w))
      → Ends (IsMoved source destination w) (IsKept w) (rename_no_replace source destination disk)
  unfolding rename_no_replace
  rename_lem source destination w disk h g good = go disk.refusals
    where
      there : (k : Text) → w k ≡ lookup k disk.entries
      there k = ap (λ (v : View N). v k) (sym h)

      go :
          (r : List (Option Text))
          → Ends (IsMoved source destination w) (IsKept w) (rename_unless r source destination disk)
      go [] =
          move_entry_lem source destination w disk (lookup source disk.entries)
            (lookup destination disk.entries) (there source) (there destination) h g good
      go (some error ∷ rest) = (h, g)
      go (none ∷ rest) =
          move_entry_lem source destination w (record disk { refusals = rest })
            (lookup source disk.entries) (lookup destination disk.entries) (there source)
            (there destination) h g good
