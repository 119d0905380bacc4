-- ===== src/Mountpoint/Folders.antt =====
-- Which candidate folder `allocate_home_folder` takes, and when a custom path is accepted.
use ssh_mountmate.Base.{
  ℕ, zero, suc, ◌+◌, ◌<◌, ◌≡◌, ◌↔◌, refl, ap, ◌∙◌, Bool, true, false, not, ◌&&◌, ◌||◌, Option, none,
  some, arith, if◌then◌else◌, ok,
}
use ssh_mountmate.Text.{Text}
use ssh_mountmate.Mountpoint.{
  MountpointAllocator, MountpointProbe, WindowsVolumeKind, is_taken, search_folder, candidate_name,
  validate_custom_path, check_target, windows_parent, path_is_absolute, is_windows_unc,
}

abbrev is_fixed : WindowsVolumeKind → Bool
is_fixed WindowsVolumeKind.fixed = true
is_fixed _ = false

-- The conditions on a custom path, on Windows and elsewhere.
unfoldable pub is_acceptable : Text → Bool → MountpointProbe → (Text → Bool) → Bool
is_acceptable path true probe is_reserved =
    path_is_absolute path true
    && not (is_windows_unc path)
    && not (is_reserved path)
    && not (probe.path_exists path)
    && not (probe.path_is_mount path)
    && probe.path_exists (windows_parent path)
    && is_fixed (probe.windows_volume_kind (windows_parent path))
is_acceptable path false probe is_reserved =
    path_is_absolute path false
    && not (is_reserved path)
    && not (probe.path_is_mount path)
    && (not (probe.path_exists path) || probe.path_is_dir path)

-- `validate_custom_path` accepts exactly the acceptable paths: on Windows an absolute path that is
-- no UNC path, not reserved, not there and no mount, whose parent is there on a fixed volume;
-- elsewhere an absolute path that is not reserved, no mount, and a folder if it is there.
pub validate_custom_path_lem :
    (path : Text) (windows : Bool) (probe : MountpointProbe) (is_reserved : Text → Bool)
    → (validate_custom_path path windows probe is_reserved ≡ ok tt)
      ↔ (is_acceptable path windows probe is_reserved ≡ true)
unfolding validate_custom_path check_target is_acceptable
validate_custom_path_lem path true probe is_reserved = ground arith
validate_custom_path_lem path false probe is_reserved = ground arith

module _ (join : Text → Text → Text) (is_alphanumeric : ℕ → Bool) where
  -- The candidate with this index is taken.
  abbrev is_taken_at : MountpointAllocator → Text → Text → ℕ → Bool
  is_taken_at a parent root index =
      is_taken a (join parent (candidate_name join is_alphanumeric root index))

  -- All of the candidates, `steps` from `first` on, are taken.
  unfoldable pub all_taken : MountpointAllocator → Text → Text → ℕ → ℕ → Bool
  all_taken a parent root zero first = true
  all_taken a parent root (suc steps) first =
      is_taken_at a parent root first && all_taken a parent root steps (first + 1)

  -- What a search of `steps` candidates from `first` on finds: the first one that is not taken, or
  -- nothing where all are taken.
  abbrev pub IsFirst : MountpointAllocator → Text → Text → ℕ → ℕ → Option Text → Type 0
  IsFirst a parent root first steps none = all_taken a parent root steps first ≡ true
  IsFirst a parent root first steps (some path) =
      (k : ℕ) × (k < steps)
      × (path ≡ join parent (candidate_name join is_alphanumeric root (first + k)))
      × (is_taken a path ≡ false)
      × (all_taken a parent root k first ≡ true)

  -- The search takes the candidate with the smallest index that is not taken, and fails only where
  -- every candidate is taken.
  pub search_folder-IsFirst :
      (a : MountpointAllocator) (parent root : Text) (steps first : ℕ)
      → IsFirst a parent root first steps
          (search_folder join is_alphanumeric a parent root steps first)
  unfolding search_folder all_taken
  search_folder-IsFirst a parent root zero first = refl
  search_folder-IsFirst a parent root (suc steps) first =
      go (is_taken_at a parent root first) refl
        (search_folder join is_alphanumeric a parent root steps (first + 1))
        (search_folder-IsFirst a parent root steps (first + 1))
    where
      go :
          (b : Bool)
          → is_taken_at a parent root first ≡ b
          → (o : Option Text) → IsFirst a parent root (first + 1) steps o
          → IsFirst a parent root first
              (suc steps)
              (if b then o else some (join parent (candidate_name join is_alphanumeric root first)))
      go false e o h = (
        0,
        omega arith,
        let z : first ≡ first + 0 = omega arith in
            ap (λ n. join parent (candidate_name join is_alphanumeric root n)) z,
        e,
        refl,
      )
      go true e none h = ground arith
      go true e (some path) h =
          let next : first + 1 + h.0 ≡ first + suc h.0 = omega arith in
          (
            suc h.0,
            omega (arith, h.1),
            h.2 ∙ ap (λ n. join parent (candidate_name join is_alphanumeric root n)) next,
            h.3,
            ground (arith, h.4),
          )
