-- ===== src/Model/Ruled.antt =====
-- The first chain of conditions of `Settings::migrate` as a table.
use ssh_mountmate.Base.{
  ◌≡◌, refl, Bool, true, false, ◌&&◌, ◌||◌, Option, none, some, [], ◌∷◌, ltb, if◌then◌else◌, ◌∙◌,
  ap,
}
use ssh_mountmate.Text.{Text, codes, text_eq, is_empty}
use ssh_mountmate.Model.{Settings, migrate_cache, apply_recommended_cache_defaults}
use ssh_mountmate.Model.Historic.{
  Historic, historic, writes_alone, without_cache, without_mode, small_cache, writes_without_times,
  is_of, first_of,
}

-- The settings with the recommended ones for the cache, where a rule applies.
abbrev pub cached : Option Historic → Settings → Settings
cached none s = s
cached (some rule) s = apply_recommended_cache_defaults rule.clears_limits s

empty_lem : (t : Text) → text_eq t [] ≡ is_empty t
unfolding text_eq
empty_lem [] = refl
empty_lem (c ∷ t) = refl

and_true : (b : Bool) → b && true ≡ b
and_true true = refl
and_true false = refl

-- The table as a chain of conditions.
chain :
    (s : Settings) (b1 b2 b3 b4 b5 : Bool) (r1 r2 r3 r4 r5 : Historic)
    → r1.clears_limits ≡ true
    → r2.clears_limits ≡ false
    → r3.clears_limits ≡ false
    → r4.clears_limits ≡ true
    → r5.clears_limits ≡ false
    → (if b1
        then apply_recommended_cache_defaults true s
        else if b2 || b3
        then apply_recommended_cache_defaults false s
        else if b4
        then apply_recommended_cache_defaults true s
        else if b5
        then apply_recommended_cache_defaults false s
        else s)
      ≡ cached
          (if b1
            then some r1
            else if b2
            then some r2
            else if b3
            then some r3
            else if b4
            then some r4
            else if b5
            then some r5
            else none)
          s
chain s true b2 b3 b4 b5 r1 r2 r3 r4 r5 e1 e2 e3 e4 e5 = rw e1 refl
chain s false true b3 b4 b5 r1 r2 r3 r4 r5 e1 e2 e3 e4 e5 = rw e2 refl
chain s false false true b4 b5 r1 r2 r3 r4 r5 e1 e2 e3 e4 e5 = rw e3 refl
chain s false false false true b5 r1 r2 r3 r4 r5 e1 e2 e3 e4 e5 = rw e4 refl
chain s false false false false true r1 r2 r3 r4 r5 e1 e2 e3 e4 e5 = rw e5 refl
chain s false false false false false r1 r2 r3 r4 r5 e1 e2 e3 e4 e5 = refl

-- What may be anything drops out of a conjunction.
any_values : (a : Bool) → a && true && true && true && true && true ≡ a
any_values true = refl
any_values false = refl

module _ (s : Settings) where
  of_writes_alone : is_of s writes_alone ≡ (
      ltb s.settings_schema_version 2
      && text_eq s.vfs_cache_mode (codes "writes")
      && is_empty s.vfs_cache_max_size
      && is_empty s.vfs_cache_max_age
      && is_empty s.vfs_cache_min_free_space
      && is_empty s.vfs_write_back
      && is_empty s.dir_cache_time)
  of_writes_alone =
      rw
        (
          empty_lem s.vfs_cache_max_size,
          empty_lem s.vfs_cache_max_age,
          empty_lem s.vfs_cache_min_free_space,
          empty_lem s.vfs_write_back,
          empty_lem s.dir_cache_time,
        )
        refl

  of_without_cache :
      is_of s without_cache
      ≡ (ltb s.settings_schema_version 3 && text_eq s.vfs_cache_mode (codes "off"))
  of_without_cache =
      any_values (ltb s.settings_schema_version 3 && text_eq s.vfs_cache_mode (codes "off"))

  of_without_mode :
      is_of s without_mode ≡ (ltb s.settings_schema_version 5 && is_empty s.vfs_cache_mode)
  of_without_mode =
      any_values (ltb s.settings_schema_version 5 && text_eq s.vfs_cache_mode [])
      ∙ ap (λ b. ltb s.settings_schema_version 5 && b) (empty_lem s.vfs_cache_mode)

  of_small_cache : is_of s small_cache ≡ (
      ltb s.settings_schema_version 4
      && text_eq s.vfs_cache_mode (codes "minimal")
      && text_eq s.vfs_cache_max_size (codes "10G")
      && text_eq s.vfs_cache_min_free_space (codes "10G")
      && text_eq s.vfs_write_back (codes "0s")
      && text_eq s.dir_cache_time (codes "30s"))
  of_small_cache =
      rw
        (and_true (
          ltb s.settings_schema_version 4
          && text_eq s.vfs_cache_mode (codes "minimal")
          && text_eq s.vfs_cache_max_size (codes "10G")))
        refl

  of_writes_without_times : is_of s writes_without_times ≡ (
      ltb s.settings_schema_version 6
      && text_eq s.vfs_cache_mode (codes "writes")
      && is_empty s.vfs_cache_max_age
      && is_empty s.vfs_write_back
      && is_empty s.dir_cache_time)
  of_writes_without_times =
      rw (and_true (ltb s.settings_schema_version 6 && text_eq s.vfs_cache_mode (codes "writes"))) (
        rw
          (and_true (
            ltb s.settings_schema_version 6
            && text_eq s.vfs_cache_mode (codes "writes")
            && text_eq s.vfs_cache_max_age []))
          (rw
            (empty_lem s.vfs_cache_max_age, empty_lem s.vfs_write_back, empty_lem s.dir_cache_time)
            refl))

pub cached_lem :
    (s : Settings) → migrate_cache s.settings_schema_version s ≡ cached (first_of s historic) s
unfolding migrate_cache
cached_lem s = rw (of_writes_alone s) (
    rw (of_without_cache s) (
      rw (of_without_mode s) (
        rw (of_small_cache s) (
          rw (of_writes_without_times s) (
            chain s _ _ _ _ _ writes_alone without_cache without_mode small_cache
              writes_without_times refl refl refl refl refl)))))
