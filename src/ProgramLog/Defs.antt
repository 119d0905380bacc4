-- ===== src/ProgramLog/Defs.antt =====
-- `ProgramLog`: `publish`, `set_locale`, `refresh` and `update`.
use ssh_mountmate.Base.{
  ℕ, ◌-◌, Bool, true, false, not, ◌&&◌, List, [], ◌∷◌, ◌++◌, length, take, drop, ltb, if◌then◌else◌,
  sat_add,
}
use ssh_mountmate.Text.{Text, codes, text_eq, is_empty, trim, contains, byte_len, join_texts}

abbrev pub max_entries : ℕ
max_entries = 500

unfoldable pub max_message_chars : ℕ
max_message_chars = 4096

pub data Level : Type 0 where
  info warning error : Level

pub data Locale : Type 0 where
  english chinese : Locale

pub record Entry : Type 0 where
  pub time : Text
  pub level : Level
  pub message : Text

pub data Message : Type 0 where
  resize toggle copy clear : Message
  filter : Text → Message
  follow : Bool → Message
  -- an action of the editor: does it edit?
  action : Bool → Message

pub record ProgramLog : Type 0 where
  pub collapsed : Bool
  pub entries : List Entry
  pub content : Text
  pub filter : Text
  pub follow : Bool
  pub pending : ℕ
  pub locale : Locale

abbrev pub new_log : Locale → ProgramLog
new_log l = record {
  collapsed = false;
  entries = [];
  content = [];
  filter = [];
  follow = true;
  pending = 0;
  locale = l;
}

abbrev pub level_eq : Level → Level → Bool
level_eq Level.info Level.info = true
level_eq Level.warning Level.warning = true
level_eq Level.error Level.error = true
level_eq _ _ = false

abbrev pub locale_eq : Locale → Locale → Bool
locale_eq Locale.english Locale.english = true
locale_eq Locale.chinese Locale.chinese = true
locale_eq _ _ = false

unfoldable pub label : Level → Locale → Text
label Level.info Locale.english = codes "INFO"
label Level.warning Locale.english = codes "WARNING"
label Level.error Locale.english = codes "ERROR"
label Level.info Locale.chinese = codes "信息"
label Level.warning Locale.chinese = codes "注意"
label Level.error Locale.chinese = codes "错误"

-- The first 4096 characters, with a mark behind them where something is cut off.
unfoldable pub bound_message : Text → Text
unfolding max_message_chars
bound_message message =
    let bounded = take max_message_chars message in
    if ltb (byte_len bounded) (byte_len message) then bounded ++ codes "…" else bounded

-- `entries.back()` has this level and this message.
unfoldable pub repeats_last : List Entry → Level → Text → Bool
repeats_last [] level message = false
repeats_last (entry ∷ []) level message =
    level_eq entry.level level && text_eq entry.message message
repeats_last (entry ∷ next ∷ rest) level message = repeats_last (next ∷ rest) level message

-- The loop that pops the front while there are too many entries.
unfoldable pub trim_entries : List Entry → List Entry
trim_entries entries = drop (length entries - max_entries) entries

module _ (to_lowercase : Text → Text) where
  unfoldable pub line_text : Locale → Entry → Text
  unfolding label
  line_text locale entry =
      codes "["
      ++ (entry.time
          ++ (codes "] [" ++ (label entry.level locale ++ (codes "] " ++ entry.message))))

  unfoldable pub shown_lines : Locale → Text → List Entry → List Text
  unfolding line_text
  shown_lines locale query [] = []
  shown_lines locale query (entry ∷ rest) =
      let line = line_text locale entry in
      let more = shown_lines locale query rest in
      if contains (to_lowercase line) query then line ∷ more else more

  -- The text that the editor is given.
  unfoldable pub render : ProgramLog → Text
  unfolding shown_lines
  render log =
      join_texts (codes "\n") (shown_lines log.locale (to_lowercase log.filter) log.entries)

  unfoldable pub refresh : ProgramLog → ProgramLog
  unfolding render
  refresh log = record log { content = render log; pending = 0 }

  -- The end of `publish`, where an entry has been added.
  unfoldable pub notify : ProgramLog → ProgramLog
  unfolding refresh
  notify log = if log.follow then refresh log else record log { pending = sat_add log.pending 1 }

  abbrev pub expand : Level → ProgramLog → ProgramLog
  expand level log = record log {
    collapsed = if level_eq level Level.info then log.collapsed else false;
  }

  -- `time`: what the clock shows.
  unfoldable pub publish : Text → Level → Text → ProgramLog → ProgramLog
  unfolding bound_message repeats_last trim_entries notify
  publish time level message log =
      let bounded = bound_message message in
      let opened = expand level log in
      let entry : Entry = record { time = time; level = level; message = bounded } in
      if is_empty (trim message)
      then log
      else if repeats_last log.entries level bounded
      then opened
      else notify (record opened { entries = trim_entries (log.entries ++ entry ∷ []) })

  unfoldable pub set_locale : Locale → ProgramLog → ProgramLog
  unfolding refresh
  set_locale locale log =
      if locale_eq log.locale locale then log else refresh (record log { locale = locale })

  unfoldable pub update : Message → ProgramLog → ProgramLog
  unfolding refresh
  update Message.resize log = log
  update Message.toggle log = record log { collapsed = not log.collapsed }
  update (Message.filter value) log = refresh (record log { filter = value })
  update (Message.follow true) log = refresh (record log { follow = true })
  update (Message.follow false) log = record log { follow = false }
  update Message.copy log = log
  update Message.clear log = refresh (record log { entries = [] })
  update (Message.action true) log = log
  update (Message.action false) log = record log { follow = false }
