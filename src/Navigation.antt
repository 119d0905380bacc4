-- ===== src/Navigation.antt =====
-- crates/mountmate-app/src/navigation.rs: the page, which the transfers may cover.
use ssh_mountmate.Base.{◌≡◌, refl, Bool, true, false, List, [], ◌∷◌, if◌then◌else◌}

pub data Screen : Type 0 where
  connections transfer_center connection_editor settings : Screen

pub record Navigation : Type 0 where
  pub page : Screen
  pub transfers_open : Bool

abbrev pub new_navigation : Bool → Navigation
new_navigation show_transfers = record {
  page = Screen.connections;
  transfers_open = show_transfers;
}

unfoldable pub current : Navigation → Screen
current n = if n.transfers_open then Screen.transfer_center else n.page

abbrev pub context : Navigation → Screen
context n = n.page

unfoldable pub show : Screen → Navigation → Navigation
show page n = record n { page = page }

unfoldable pub open_transfers : Navigation → Navigation
open_transfers n = record n { transfers_open = true }

unfoldable pub close_transfers : Navigation → Navigation
close_transfers n = record n { transfers_open = false }

-- The calls of the three methods that change the state.
pub data Call : Type 0 where
  show_page : Screen → Call
  raise lower : Call

unfoldable pub call : Call → Navigation → Navigation
unfolding show open_transfers close_transfers
call (Call.show_page page) n = show page n
call Call.raise n = open_transfers n
call Call.lower n = close_transfers n

unfoldable pub calls : List Call → Navigation → Navigation
unfolding call
calls [] n = n
calls (c ∷ cs) n = calls cs (call c n)

-- The page of the last call of `show`, and `page` if there is none.
unfoldable pub last_page : List Call → Screen → Screen
last_page [] page = page
last_page (Call.show_page p ∷ cs) page = last_page cs p
last_page (Call.raise ∷ cs) page = last_page cs page
last_page (Call.lower ∷ cs) page = last_page cs page

context-calls : (cs : List Call) (n : Navigation) → context (calls cs n) ≡ last_page cs n.page
unfolding calls last_page
context-calls [] n = refl
context-calls (Call.show_page p ∷ cs) n = context-calls cs (show p n)
context-calls (Call.raise ∷ cs) n = context-calls cs (open_transfers n)
context-calls (Call.lower ∷ cs) n = context-calls cs (close_transfers n)

-- Behind any calls, while the transfers cover the page the screen is theirs, and once they are
-- closed it is the page that was shown last: what happens beneath them is kept.
pub current-calls :
    (cs : List Call) (n : Navigation)
    → (current (open_transfers (calls cs n)) ≡ Screen.transfer_center)
      × (current (close_transfers (calls cs n)) ≡ last_page cs n.page)
unfolding current open_transfers close_transfers
current-calls cs n = (refl, context-calls cs n)
