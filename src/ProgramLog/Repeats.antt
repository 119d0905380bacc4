-- ===== src/ProgramLog/Repeats.antt =====
-- A message that repeats the last entry.
use ssh_mountmate.Base.{
  ℕ, zero, suc, ◌-◌, ◌<◌, ◌≡◌, refl, ap, ◌∙◌, Bool, true, false, sat_add, List, [], ◌∷◌, ◌++◌,
  length, length-concat, drop, arith, if◌then◌else◌, Bool-cases, inl, inr,
}
use ssh_mountmate.Text.{Text, text_eq_refl, is_empty, trim}
use ssh_mountmate.ProgramLog.{
  ProgramLog, Entry, Level, publish, refresh, notify, bound_message, repeats_last, trim_entries,
  max_entries, expand, level_eq,
}

level_eq_refl : (level : Level) → level_eq level level ≡ true
level_eq_refl Level.info = refl
level_eq_refl Level.warning = refl
level_eq_refl Level.error = refl

last_repeats :
    (entries : List Entry) (entry : Entry)
    → repeats_last (entries ++ entry ∷ []) entry.level entry.message ≡ true
unfolding repeats_last
last_repeats [] entry = rw (level_eq_refl entry.level) (text_eq_refl entry.message)
last_repeats (x ∷ []) entry = rw (level_eq_refl entry.level) (text_eq_refl entry.message)
last_repeats (x ∷ y ∷ rest) entry = last_repeats (y ∷ rest) entry

repeats_last-drop :
    (n : ℕ) (entries : List Entry) (level : Level) (message : Text)
    → n < length entries
    → repeats_last (drop n entries) level message ≡ repeats_last entries level message
unfolding repeats_last
repeats_last-drop zero entries level message h = refl
repeats_last-drop (suc n) [] level message h = absurd (omega arith)
repeats_last-drop (suc n) (x ∷ []) level message h = absurd (omega (arith, h))
repeats_last-drop (suc n) (x ∷ y ∷ rest) level message h =
    repeats_last-drop n (y ∷ rest) level message (omega (arith, h))

added_repeats :
    (entries : List Entry) (entry : Entry)
    → repeats_last (trim_entries (entries ++ entry ∷ [])) entry.level entry.message ≡ true
unfolding trim_entries
added_repeats entries entry =
    repeats_last-drop (length (entries ++ entry ∷ []) - max_entries) (entries ++ entry ∷ [])
      entry.level entry.message (omega (arith, length-concat entries entry))
    ∙ last_repeats entries entry

module _ (to_lowercase : Text → Text) where
  -- What `notify` returns, whether the log follows or not.
  abbrev noted : Bool → ProgramLog → ProgramLog
  noted follow log =
      if follow then refresh to_lowercase log else record log { pending = sat_add log.pending 1 }

  noted-entries : (b : Bool) (log : ProgramLog) → (noted b log).entries ≡ log.entries
  unfolding refresh
  noted-entries true log = refl
  noted-entries false log = refl

  expand_idem :
      (level : Level) (log : ProgramLog)
      → expand to_lowercase level (expand to_lowercase level log) ≡ expand to_lowercase level log
  expand_idem Level.info log = refl
  expand_idem Level.warning log = refl
  expand_idem Level.error log = refl

  expand-noted :
      (level : Level) (b : Bool) (log : ProgramLog) (entries : List Entry)
      → let added : ProgramLog = record (expand to_lowercase level log) { entries = entries } in
        expand to_lowercase level (noted b added) ≡ noted b added
  unfolding refresh
  expand-noted Level.info true log entries = refl
  expand-noted Level.info false log entries = refl
  expand-noted Level.warning true log entries = refl
  expand-noted Level.warning false log entries = refl
  expand-noted Level.error true log entries = refl
  expand-noted Level.error false log entries = refl

  publish_repeated :
      (log : ProgramLog) (time : Text) (level : Level) (message : Text)
      → is_empty (trim message) ≡ false
      → repeats_last log.entries level (bound_message message) ≡ true
      → publish to_lowercase time level message log ≡ expand to_lowercase level log
  unfolding publish
  publish_repeated log time level message e r = rw e (rw r refl)

  publish_new :
      (log : ProgramLog) (time : Text) (level : Level) (message : Text)
      → is_empty (trim message) ≡ false
      → repeats_last log.entries level (bound_message message) ≡ false
      → let entry : Entry = record {
        time = time;
        level = level;
        message = bound_message message;
      } in
        publish to_lowercase time level message log
        ≡ noted log.follow (record (expand to_lowercase level log) {
          entries = trim_entries (log.entries ++ entry ∷ []);
        })
  unfolding publish notify
  publish_new log time level message e r = rw e (rw r refl)

  -- A message that is published twice in a row leaves the log as the first time has left it: the
  -- second adds no entry, counts nothing as pending and moves nothing.
  pub publish_twice :
      (log : ProgramLog) (first second : Text) (level : Level) (message : Text)
      → publish to_lowercase second level message (publish to_lowercase first level message log)
        ≡ publish to_lowercase first level message log
  publish_twice log first second level message = elim (Bool-cases (is_empty (trim message))) [
    | inl e ↦ unfold publish in rw e refl
    | inr e ↦ elim (Bool-cases (repeats_last log.entries level (bound_message message))) [
      | inl r ↦ rw (publish_repeated log first level message e r) (
          publish_repeated (expand to_lowercase level log) second level message e r
          ∙ expand_idem level log)
      | inr r ↦
          let entry : Entry = record {
            time = first;
            level = level;
            message = bound_message message;
          } in
          let entries = trim_entries (log.entries ++ entry ∷ []) in
          let added : ProgramLog = record (expand to_lowercase level log) { entries = entries } in
          rw (publish_new log first level message e r) (
            publish_repeated (noted log.follow added) second level message e (
              ap (λ es. repeats_last es level (bound_message message))
                (noted-entries log.follow added)
              ∙ added_repeats log.entries entry)
            ∙ expand-noted level log.follow log entries)
    ]
  ]
