-- ===== src/Tests/Program.antt =====
-- Runs of the program log and of the navigation.
use ssh_mountmate.Base.{◌≡◌, refl, true, false, [], ◌∷◌}
use ssh_mountmate.Text.{Text, codes}
use ssh_mountmate.ProgramLog.{ProgramLog, Level, Locale, Message, new_log, publish, update}
use ssh_mountmate.ProgramLog.Bounded.{start, published, updated, IsSound, Reachable-IsSound}
use ssh_mountmate.Navigation.{Screen, Call, new_navigation, current, calls, call, close_transfers}

abbrev same : Text → Text
same t = t

-- A warning while the log does not follow.
abbrev log : ProgramLog
log =
    publish same (codes "12:00:00") Level.warning (codes "disk full")
      (update same (Message.follow false) (new_log Locale.english))

Reachable-IsSound_example : IsSound same log
Reachable-IsSound_example = Reachable-IsSound same log (
    published (codes "12:00:00") Level.warning (codes "disk full")
      (updated (Message.follow false) (start Locale.english)))

-- A page is shown beneath the transfers.
beneath :
    current (
      close_transfers
        (calls (Call.raise ∷ Call.show_page Screen.settings ∷ []) (new_navigation true)))
    ≡ Screen.settings
unfolding current close_transfers calls call
beneath = refl
