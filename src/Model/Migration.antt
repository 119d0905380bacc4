-- ===== src/Model/Migration.antt =====
-- `Settings::migrate`: its result, by the version and by the table of the settings of older versions.
use ssh_mountmate.Base.{ℕ, ◌≤◌, ◌≡◌, refl, sym, ap, ◌∙◌, if◌then◌else◌, arith, within}
use ssh_mountmate.Model.Historic.{migrated, first_of, historic}
use ssh_mountmate.Model.Ruled.{cached, cached_lem}
use ssh_mountmate.Model.Stepped.{steps_lem, under_rule, version-cached}
use ssh_mountmate.Model.{
  Settings, migrate, migrate_cache, migrate_zero_delay, migrate_transfers, migrate_write_back,
  finish_migration, default_upload_transfers,
}

-- The current schema, and a number of upload transfers that rclone is given.
abbrev pub IsCurrent : Settings → Type 0
IsCurrent s =
    (s.settings_schema_version ≡ 16) × (1 ≤ s.vfs_upload_transfers) × (s.vfs_upload_transfers ≤ 32)

finish-IsCurrent : (s : Settings) → IsCurrent (finish_migration s)
unfolding finish_migration
finish-IsCurrent s = (refl, ground arith, ground arith)

-- Settings of any version become settings of the current schema with 1 to 32 upload transfers.
pub migrate-IsCurrent : (s : Settings) → IsCurrent (migrate s)
unfolding migrate
migrate-IsCurrent s =
    let version = s.settings_schema_version in
    finish-IsCurrent (
      migrate_write_back version
        (migrate_transfers version (migrate_zero_delay version (migrate_cache version s))))

current_cache : (n : ℕ) (s : Settings) → 16 ≤ n → migrate_cache n s ≡ s
unfolding migrate_cache
current_cache n s h = ground arith

current_zero_delay : (n : ℕ) (s : Settings) → 16 ≤ n → migrate_zero_delay n s ≡ s
unfolding migrate_zero_delay
current_zero_delay n s h = ground arith

current_transfers : (n : ℕ) (s : Settings) → 16 ≤ n → migrate_transfers n s ≡ s
unfolding migrate_transfers
current_transfers n s h = ground arith

current_write_back : (n : ℕ) (s : Settings) → 16 ≤ n → migrate_write_back n s ≡ s
unfolding migrate_write_back
current_write_back n s h = ground arith

finish-id : (s : Settings) → IsCurrent s → finish_migration s ≡ s
unfolding finish_migration
finish-id s h =
    let e : (if within 1 32 s.vfs_upload_transfers
          then s.vfs_upload_transfers
          else default_upload_transfers)
        ≡ s.vfs_upload_transfers =
      ground (arith, h.1, h.2) in
    ap (λ n. record s { vfs_upload_transfers = n; settings_schema_version = 16 }) e
    ∙ ap (λ v. record s { settings_schema_version = v }) (sym h.0)

-- Settings of the current schema whose number of upload transfers is in range keep every field.
pub migrate-id : (s : Settings) → IsCurrent s → migrate s ≡ s
unfolding migrate
migrate-id s h =
    let k : 16 ≤ s.settings_schema_version = omega (arith, h.0) in
    rw (current_cache s.settings_schema_version s k) (
      rw (current_zero_delay s.settings_schema_version s k) (
        rw (current_transfers s.settings_schema_version s k)
          (rw (current_write_back s.settings_schema_version s k) (finish-id s h))))

-- Settings written by a newer version keep every field but the number of the schema and a number
-- of upload transfers that is out of range.
pub migrate_newer : (s : Settings) → 16 ≤ s.settings_schema_version → migrate s ≡ finish_migration s
unfolding migrate
migrate_newer s k = rw (current_cache s.settings_schema_version s k) (
    rw (current_zero_delay s.settings_schema_version s k) (
      rw (current_transfers s.settings_schema_version s k)
        (rw (current_write_back s.settings_schema_version s k) refl)))

-- A migration is the one pass over the settings that the table of the historic settings gives. The
-- first entry that agrees with them, its version included, resets the mode, the two times and the
-- delay before a file is written back, and the two limits if it clears them. Without one, that
-- delay becomes `1s` if it is one that the versions below 9 or 16 had. A number of upload transfers
-- out of range becomes 12, and 4 does below version 15, where a custom color is put to use too. The
-- version becomes 16, and no other field changes.
pub migrate_lem : (s : Settings) → migrate s ≡ migrated s
unfolding migrate
migrate_lem s =
    let rule = first_of s historic in
    let steps = λ (n : ℕ) (t : Settings).
      finish_migration (migrate_write_back n (migrate_transfers n (migrate_zero_delay n t))) in
    ap (steps s.settings_schema_version) (cached_lem s)
    ∙ ap (λ n. steps n (cached rule s)) (sym (version-cached rule s))
    ∙ steps_lem (cached rule s)
    ∙ under_rule rule s
