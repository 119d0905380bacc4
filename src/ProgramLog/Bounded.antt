-- ===== src/ProgramLog/Bounded.antt =====
-- Invariants of the log over all sequences of messages.
use ssh_mountmate.Base.{
  ℕ, zero, suc, ◌-◌, ◌≤◌, ◌≡◌, refl, Bool, true, false, ◌⊎◌, inl, inr, List, [], ◌∷◌, ◌++◌, length,
  length-take, length-drop, length-append, take, drop, All, All-append, ltb, arith, if◌then◌else◌,
  Bool-cases, sat_add,
}
use ssh_mountmate.Text.{Text, codes, join_texts, is_empty, trim, byte_len}
use ssh_mountmate.ProgramLog.{
  ProgramLog, Entry, Level, Locale, Message, new_log, publish, set_locale, update, refresh, notify,
  render, bound_message, repeats_last, trim_entries, max_entries, max_message_chars, expand,
  locale_eq, shown_lines,
}

-- An entry of bounded length: the mark may stand behind 4096 characters.
abbrev pub IsBounded : Entry → Type 0
IsBounded entry = length entry.message ≤ 4097

bound_message-le : (message : Text) → length (bound_message message) ≤ 4097
unfolding bound_message
bound_message-le message =
    let t = length-take max_message_chars message in
    elim (Bool-cases (ltb (byte_len (take max_message_chars message)) (byte_len message))) [
      | inl e ↦ rw e (
          unfold max_message_chars in
          omega (arith, t, length-append (take max_message_chars message) (codes "…")))
      | inr e ↦ rw e (unfold max_message_chars in omega (arith, t))
    ]

drop-All : (n : ℕ) (xs : List Entry) → All IsBounded xs → All IsBounded (drop n xs)
drop-All zero xs h = h
drop-All (suc n) [] h = tt
drop-All (suc n) (x ∷ xs) h = drop-All n xs h.1

trim_entries-le : (entries : List Entry) → length (trim_entries entries) ≤ 500
unfolding trim_entries
trim_entries-le entries = omega (arith, length-drop (length entries - max_entries) entries)

trim_entries-All :
    (entries : List Entry) → All IsBounded entries → All IsBounded (trim_entries entries)
unfolding trim_entries
trim_entries-All entries h = drop-All (length entries - max_entries) entries h

module _ (to_lowercase : Text → Text) where
  -- At most 500 entries of bounded length; where the log follows, nothing is pending and the editor
  -- shows what the entries, the filter and the language give.
  pub record IsSound (log : ProgramLog) : Type 0 where
    pub few : length log.entries ≤ 500
    pub short : All IsBounded log.entries
    pub current :
        (log.follow ≡ false) ⊎ ((log.pending ≡ 0) × (log.content ≡ render to_lowercase log))

  refresh-IsSound :
      (log : ProgramLog)
      → length log.entries ≤ 500
      → All IsBounded log.entries
      → IsSound (refresh to_lowercase log)
  unfolding refresh render
  refresh-IsSound log f s = record { few = f; short = s; current = inr (refl, refl) }

  IsSound-if :
      (b : Bool) (x y : ProgramLog)
      → (b ≡ true → IsSound x)
      → (b ≡ false → IsSound y)
      → IsSound (if b then x else y)
  IsSound-if true x y h k = h refl
  IsSound-if false x y h k = k refl

  notify-IsSound :
      (log : ProgramLog)
      → length log.entries ≤ 500
      → All IsBounded log.entries
      → IsSound (notify to_lowercase log)
  unfolding notify
  notify-IsSound log f s =
      IsSound-if log.follow (refresh to_lowercase log)
        (record log { pending = sat_add log.pending 1 }) (λ e. refresh-IsSound log f s)
        (λ e. record { few = f; short = s; current = inl e })

  publish-IsSound :
      (log : ProgramLog) (time : Text) (level : Level) (message : Text)
      → IsSound log
      → IsSound (publish to_lowercase time level message log)
  unfolding publish render
  publish-IsSound log time level message h =
      let bounded = bound_message message in
      let opened = expand to_lowercase level log in
      let entry : Entry = record { time = time; level = level; message = bounded } in
      let added = trim_entries (log.entries ++ entry ∷ []) in
      let noted = notify to_lowercase (record opened { entries = added }) in
      IsSound-if (is_empty (trim message)) log
        (if repeats_last log.entries level bounded then opened else noted) (λ e. h)
        (λ e.
          IsSound-if (repeats_last log.entries level bounded) opened noted
            (λ r. record { few = h.few; short = h.short; current = h.current })
            (λ r.
              notify-IsSound (record opened { entries = added })
                (trim_entries-le (log.entries ++ entry ∷ []))
                (trim_entries-All (log.entries ++ entry ∷ []) (
                  All-append IsBounded log.entries (entry ∷ []) h.short
                    (bound_message-le message, tt)))))

  set_locale-IsSound :
      (log : ProgramLog) (locale : Locale)
      → IsSound log
      → IsSound (set_locale to_lowercase locale log)
  unfolding set_locale
  set_locale-IsSound log locale h =
      IsSound-if (locale_eq log.locale locale) log
        (refresh to_lowercase (record log { locale = locale })) (λ e. h)
        (λ e. refresh-IsSound (record log { locale = locale }) h.few h.short)

  update-IsSound :
      (log : ProgramLog) (message : Message)
      → IsSound log
      → IsSound (update to_lowercase message log)
  unfolding update render
  update-IsSound log Message.resize h = h
  update-IsSound log Message.toggle h = record { few = h.few; short = h.short; current = h.current }
  update-IsSound log (Message.filter value) h =
      refresh-IsSound (record log { filter = value }) h.few h.short
  update-IsSound log (Message.follow true) h =
      refresh-IsSound (record log { follow = true }) h.few h.short
  update-IsSound log (Message.follow false) h = record {
    few = h.few;
    short = h.short;
    current = inl refl;
  }
  update-IsSound log Message.copy h = h
  update-IsSound log Message.clear h =
      refresh-IsSound (record log { entries = [] }) (omega arith) tt
  update-IsSound log (Message.action true) h = h
  update-IsSound log (Message.action false) h = record {
    few = h.few;
    short = h.short;
    current = inl refl;
  }

  -- The logs that the operations lead to.
  pub data Reachable : ProgramLog → Type 0 where
    start : (locale : Locale) → Reachable (new_log locale)
    published :
        {log : ProgramLog} (time : Text) (level : Level) (message : Text)
        → Reachable log
        → Reachable (publish to_lowercase time level message log)
    translated :
        {log : ProgramLog} (locale : Locale)
        → Reachable log
        → Reachable (set_locale to_lowercase locale log)
    updated :
        {log : ProgramLog} (message : Message)
        → Reachable log
        → Reachable (update to_lowercase message log)

  -- Every log that is reached has at most 500 entries, each of at most 4097 characters; unless it
  -- no longer follows, nothing is pending and the editor shows its entries as they are filtered.
  pub Reachable-IsSound : (log : ProgramLog) → Reachable log → IsSound log
  unfolding render
  Reachable-IsSound _ (start locale) = record {
    few = omega arith;
    short = tt;
    current = inr (refl, unfold shown_lines join_texts in refl);
  }
  Reachable-IsSound _ (published {log = log} time level message r) =
      publish-IsSound log time level message (Reachable-IsSound log r)
  Reachable-IsSound _ (translated {log = log} locale r) =
      set_locale-IsSound log locale (Reachable-IsSound log r)
  Reachable-IsSound _ (updated {log = log} message r) =
      update-IsSound log message (Reachable-IsSound log r)
