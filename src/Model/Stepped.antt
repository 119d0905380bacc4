-- ===== src/Model/Stepped.antt =====
-- The steps of `Settings::migrate` behind its first one, as fields of the settings at their start.
use ssh_mountmate.Base.{
  ℕ, ◌≡◌, refl, Bool, true, false, not, ◌&&◌, ◌||◌, Option, none, some, ltb, ◌==◌, if◌then◌else◌,
  within, arith, ◌∙◌, ap,
}
use ssh_mountmate.Text.{Text, codes, text_eq}
use ssh_mountmate.Model.{
  Settings, AccentColor, is_color, migrate_zero_delay, migrate_transfers, migrate_write_back,
  finish_migration, apply_recommended_cache_defaults,
}
use ssh_mountmate.Model.Historic.{Historic, has_old_delay, upload_transfers, migrated_by}
use ssh_mountmate.Model.Ruled.{cached}

if_same : {A : Type 0} (b : Bool) (x : A) → (if b then x else x) ≡ x
if_same true x = refl
if_same false x = refl

if_and :
    {A : Type 0} (b c : Bool) (x y : A)
    → (if b then (if c then x else y) else y) ≡ (if b && c then x else y)
if_and true c x y = refl
if_and false c x y = refl

delay_lem :
    (z l : Bool) (w : Text)
    → (if l && text_eq (if z then codes "1s" else w) (codes "5s")
        then codes "1s"
        else (if z then codes "1s" else w))
      ≡ (if z || (l && text_eq w (codes "5s")) then codes "1s" else w)
unfolding text_eq
delay_lem true true w = refl
delay_lem true false w = refl
delay_lem false l w = refl

transfers_lem :
    (l : Bool) (t : ℕ)
    → (if within 1 32 (if l then (if t == 4 then 12 else t) else t)
        then (if l then (if t == 4 then 12 else t) else t)
        else 12)
      ≡ (if not (within 1 32 t) || (l && t == 4) then 12 else t)
transfers_lem true t = ground arith
transfers_lem false t = ground arith

-- Each step as a change of the fields that it is about.
abbrev with_delay : Settings → Text → Settings
with_delay s w = record s { vfs_write_back = w }

abbrev with_transfers : Settings → ℕ → AccentColor → Settings
with_transfers s t a = record s { vfs_upload_transfers = t; accent_color = a }

delay_if :
    (b : Bool) (s : Settings) (w : Text)
    → (if b then with_delay s w else s) ≡ with_delay s (if b then w else s.vfs_write_back)
delay_if true s w = refl
delay_if false s w = refl

transfers_if :
    (b : Bool) (s : Settings) (t : ℕ) (a : AccentColor)
    → (if b then with_transfers s t a else s)
      ≡ with_transfers s (if b then t else s.vfs_upload_transfers) (if b then a else s.accent_color)
transfers_if true s t a = refl
transfers_if false s t a = refl

abbrev is_zero_delay : ℕ → Settings → Bool
is_zero_delay version s =
    ltb version 9
    && text_eq s.vfs_cache_mode (codes "full")
    && text_eq s.vfs_cache_max_age (codes "30m")
    && text_eq s.vfs_write_back (codes "0s")
    && text_eq s.dir_cache_time (codes "5m")

abbrev transfers_of : ℕ → Settings → ℕ
transfers_of version s =
    if ltb version 15
    then (if s.vfs_upload_transfers == 4 then 12 else s.vfs_upload_transfers)
    else s.vfs_upload_transfers

abbrev accent_of : ℕ → Settings → AccentColor
accent_of version s =
    if ltb version 15
    then (if is_color s.custom_accent_color then AccentColor.custom else s.accent_color)
    else s.accent_color

zero_delay_lem :
    (version : ℕ) (s : Settings)
    → migrate_zero_delay version s
      ≡ with_delay s (if is_zero_delay version s then codes "1s" else s.vfs_write_back)
unfolding migrate_zero_delay
zero_delay_lem version s = delay_if (is_zero_delay version s) s (codes "1s")

old_transfers_lem :
    (version : ℕ) (s : Settings)
    → migrate_transfers version s ≡ with_transfers s (transfers_of version s) (accent_of version s)
unfolding migrate_transfers
old_transfers_lem version s = transfers_if (ltb version 15) s _ _

write_back_lem :
    (version : ℕ) (s : Settings)
    → migrate_write_back version s
      ≡ with_delay s (
          if ltb version 16 && text_eq s.vfs_write_back (codes "5s")
          then codes "1s"
          else s.vfs_write_back)
unfolding migrate_write_back
write_back_lem version s =
    delay_if (ltb version 16 && text_eq s.vfs_write_back (codes "5s")) s (codes "1s")

abbrev current : Settings → Text → ℕ → AccentColor → Settings
current s w t a = record s {
  settings_schema_version = 16;
  vfs_write_back = w;
  vfs_upload_transfers = t;
  accent_color = a;
}

-- The steps behind the table, in one.
pub steps_lem :
    (s : Settings)
    → finish_migration (
        migrate_write_back s.settings_schema_version (
          migrate_transfers s.settings_schema_version
            (migrate_zero_delay s.settings_schema_version s)))
      ≡ migrated_by none s
unfolding finish_migration
steps_lem s =
    let version = s.settings_schema_version in
    let s1 = with_delay s (if is_zero_delay version s then codes "1s" else s.vfs_write_back) in
    let s2 = with_transfers s1 (transfers_of version s) (accent_of version s) in
    ap (λ t. finish_migration (migrate_write_back version (migrate_transfers version t)))
      (zero_delay_lem version s)
    ∙ ap (λ t. finish_migration (migrate_write_back version t)) (old_transfers_lem version s1)
    ∙ ap finish_migration (write_back_lem version s2)
    ∙ ap
        (λ w.
          current s w (if within 1 32 (transfers_of version s) then transfers_of version s else 12)
            (accent_of version s))
        (delay_lem (is_zero_delay version s) (ltb version 16) s.vfs_write_back)
    ∙ ap
        (λ t.
          current s (if has_old_delay s then codes "1s" else s.vfs_write_back) t
            (accent_of version s))
        (transfers_lem (ltb version 15) s.vfs_upload_transfers)
    ∙ ap (current s (if has_old_delay s then codes "1s" else s.vfs_write_back) (upload_transfers s))
        (if_and (ltb version 15) (is_color s.custom_accent_color) AccentColor.custom s.accent_color)

pub under_rule :
    (rule : Option Historic) (s : Settings) → migrated_by none (cached rule s) ≡ migrated_by rule s
unfolding apply_recommended_cache_defaults
under_rule none s = refl
under_rule (some rule) s =
    let s1 = cached (some rule) s in
    ap
      (λ w. current s1 w (upload_transfers s) (
        if ltb s.settings_schema_version 15 && is_color s.custom_accent_color
        then AccentColor.custom
        else s.accent_color))
      (if_same (has_old_delay s1) (codes "1s"))

-- A migration keeps the version until its end.
pub version-cached :
    (rule : Option Historic) (s : Settings)
    → (cached rule s).settings_schema_version ≡ s.settings_schema_version
unfolding apply_recommended_cache_defaults
version-cached none s = refl
version-cached (some rule) s = refl
