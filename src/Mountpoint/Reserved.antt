-- ===== src/Mountpoint/Reserved.antt =====
-- What the allocator hands out is free, and it hands out nothing twice.
use ssh_mountmate.Base.{
  ℕ, zero, suc, ◌+◌, ◌≡◌, refl, ap, ◌∙◌, subst, Bool, true, false, not, ◌&&◌, ◌||◌, Option, none,
  some, List, [], ◌∷◌, map, arith, if◌then◌else◌, find, find-holds, All, ForSome, ForSome-if, ForOk,
  ForOk-ok, ForOk-bind, ForOk-then, ForOk-if, ForOk-ok_or, Result, ok, err, ok_or, refuse_if, ◌>>=◌,
  ◌>>◌,
}
use ssh_mountmate.Text.{
  Text, text_eq, text_eq_refl, text_eq_comm, is_empty, trim, codes, eq_ignore_ascii_case,
}
use ssh_mountmate.Dict.{mem}
use ssh_mountmate.Model.{ServerConfig, display_name}
use ssh_mountmate.Model.Tags.{distinct}
use ssh_mountmate.Mountpoint.{
  MountpointAllocator, MountpointError, reserve, grant, is_reserved, free_drive,
  allocate_windows_drive, drive_is_occupied, drive_path, windows_auto_drives, is_taken,
  search_folder, candidate_name, allocate_home_folder, validate_custom_path, validate_custom,
  folder_candidates, stable_folder_name, expand_home, take_drive, take_custom, take_configured,
  choose_path, resolve, path_key, windows_drive, home_mountpoint_value,
}

-- The allocator has not handed the path out.
abbrev IsFree : MountpointAllocator → Text → Type 0
IsFree a path = is_reserved a path ≡ false

free_drive-IsFree :
    (a : MountpointAllocator) (occupied : ℕ)
    → ForSome (λ drive. IsFree a (drive_path drive)) (free_drive a occupied)
unfolding free_drive
free_drive-IsFree a occupied =
    let p : ℕ → Bool =
      λ d. not (drive_is_occupied occupied d) && not (is_reserved a (drive_path d)) in
    go (find p windows_auto_drives) (find-holds p windows_auto_drives)
  where
    go :
        (o : Option ℕ)
        → ForSome
            (λ d. (not (drive_is_occupied occupied d) && not (is_reserved a (drive_path d))) ≡ true)
            o
        → ForSome (λ drive. IsFree a (drive_path drive)) o
    go none h = tt
    go (some d) h = ground arith

allocate_windows_drive-IsFree :
    (a : MountpointAllocator) → ForOk (IsFree a) (allocate_windows_drive a)
unfolding allocate_windows_drive
allocate_windows_drive-IsFree a = ForOk-bind (IsFree a) a.probe.windows_drive_occupancy _ (λ o e.
    ForOk-bind (IsFree a) (ok_or (free_drive a o) MountpointError.no_free_drive) _ (λ d q.
      ForOk-ok (λ drive. IsFree a (drive_path drive))
        (ok_or (free_drive a o) MountpointError.no_free_drive)
        (ForOk-ok_or (λ drive. IsFree a (drive_path drive)) (free_drive a o)
          MountpointError.no_free_drive (free_drive-IsFree a o))
        q))

not_taken-IsFree : (a : MountpointAllocator) (path : Text) → is_taken a path ≡ false → IsFree a path
unfolding is_taken
not_taken-IsFree a path h = ground arith

validate_custom_path-IsFree :
    (a : MountpointAllocator) (path : Text) (u : Unit)
    → validate_custom_path path a.windows a.probe (is_reserved a) ≡ ok u
    → IsFree a path
unfolding validate_custom_path
validate_custom_path-IsFree a path u h = ground arith

module _ (join : Text → Text → Text) (is_alphanumeric : ℕ → Bool) where
  search_folder-not_taken :
      (a : MountpointAllocator) (parent root : Text) (steps index : ℕ)
      → ForSome
          (λ path. is_taken a path ≡ false)
          (search_folder join is_alphanumeric a parent root steps index)
  unfolding search_folder
  search_folder-not_taken a parent root zero index = tt
  search_folder-not_taken a parent root (suc steps) index =
      let candidate = join parent (candidate_name join is_alphanumeric root index) in
      ForSome-if (λ path. is_taken a path ≡ false) (is_taken a candidate)
        (search_folder join is_alphanumeric a parent root steps (index + 1)) candidate (λ e. e)
        (search_folder-not_taken a parent root steps (index + 1))

  allocate_home_folder-IsFree :
      (a : MountpointAllocator) (server : ServerConfig)
      → ForOk (IsFree a) (allocate_home_folder join is_alphanumeric a server)
  unfolding allocate_home_folder
  allocate_home_folder-IsFree a server =
      let root = stable_folder_name is_alphanumeric (display_name server) in
      let parent = join a.home (codes "mnt") in
      ForOk-ok_or (IsFree a) _ _ (
        free (search_folder join is_alphanumeric a parent root folder_candidates 1)
          (search_folder-not_taken a parent root folder_candidates 1))
    where
      free : (o : Option Text) → ForSome (λ path. is_taken a path ≡ false) o → ForSome (IsFree a) o
      free none h = tt
      free (some path) h = not_taken-IsFree a path h

  take_drive-IsFree :
      (a : MountpointAllocator) (drive : ℕ)
      → ForOk (IsFree a) (take_drive join is_alphanumeric a drive)
  unfolding take_drive
  take_drive-IsFree a drive =
      go (is_reserved a (drive_path drive)) refl a.probe.windows_drive_occupancy
    where
      go :
          (b : Bool)
          → is_reserved a (drive_path drive) ≡ b
          → (r : Result MountpointError ℕ)
          → ForOk (IsFree a) (
              if b then err (MountpointError.drive_in_use (drive_path drive)) else (do
                occupied ← r
                refuse_if
                    (drive_is_occupied occupied drive)
                    (MountpointError.drive_in_use (drive_path drive))
                ok (drive_path drive)))
      go true e r = tt
      go false e (err c) = tt
      go false e (ok o) =
          ForOk-then (IsFree a)
            (refuse_if (drive_is_occupied o drive)
              (MountpointError.drive_in_use (drive_path drive)))
            (ok (drive_path drive)) (λ q. e)

  take_custom-IsFree :
      (a : MountpointAllocator) (configured : Text)
      → ForOk (IsFree a) (take_custom join is_alphanumeric a configured)
  unfolding take_custom validate_custom
  take_custom-IsFree a configured =
      let path = expand_home join configured a.home in
      ForOk-then (IsFree a) (validate_custom_path path a.windows a.probe (is_reserved a)) (ok path)
        (validate_custom_path-IsFree a path tt)

  choose_path-IsFree :
      (a : MountpointAllocator) (server : ServerConfig)
      → ForOk (IsFree a) (choose_path join is_alphanumeric a server)
  unfolding choose_path
  choose_path-IsFree a server =
      let configured = trim server.mountpoint in
      ForOk-if (IsFree a) (is_empty configured || eq_ignore_ascii_case configured (codes "auto"))
        (if a.windows
          then allocate_windows_drive a
          else allocate_home_folder join is_alphanumeric a server)
        _
        (λ e.
          ForOk-if (IsFree a) a.windows (allocate_windows_drive a)
            (allocate_home_folder join is_alphanumeric a server)
            (λ q. allocate_windows_drive-IsFree a) (λ q. allocate_home_folder-IsFree a server))
        (λ e.
          ForOk-if (IsFree a) (text_eq configured home_mountpoint_value)
            (allocate_home_folder join is_alphanumeric a server)
            (take_configured join is_alphanumeric a configured
              (if a.windows then windows_drive configured else none))
            (λ q. allocate_home_folder-IsFree a server)
            (λ q.
              configured_free configured (if a.windows then windows_drive configured else none)))
    where
      configured_free :
          (configured : Text) (drive : Option ℕ)
          → ForOk (IsFree a) (take_configured join is_alphanumeric a configured drive)
      configured_free configured none = take_custom-IsFree a configured
      configured_free configured (some drive) = take_drive-IsFree a drive

  reserved_now : (a : MountpointAllocator) (path : Text) → is_reserved (reserve path a) path ≡ true
  unfolding is_reserved reserve mem
  reserved_now a path = ground (arith, text_eq_refl (path_key path a.windows))

  -- A path that `resolve` returns was not reserved, is reserved afterwards, and the allocator
  -- changes in nothing but this reservation.
  pub resolve-reserves :
      (a b : MountpointAllocator) (server : ServerConfig) (path : Text)
      → resolve join is_alphanumeric a server ≡ ok (path, b)
      → (is_reserved a path ≡ false) × (is_reserved b path ≡ true) × (b ≡ reserve path a)
  unfolding resolve
  resolve-reserves a b server path h =
      go (choose_path join is_alphanumeric a server) (choose_path-IsFree a server) h
    where
      go :
          (r : Result MountpointError Text)
          → ForOk (IsFree a) r
          → (r >>= grant a) ≡ ok (path, b)
          → (is_reserved a path ≡ false) × (is_reserved b path ≡ true) × (b ≡ reserve path a)
      go (ok p) f e =
          let same : p ≡ path = cc in
          let state : b ≡ reserve path a = cc in
          (
            subst (λ x. is_reserved a x ≡ false) same f,
            ap (λ x. is_reserved x path) state ∙ reserved_now a path,
            state,
          )
      go (err c) f e = absurd (cc)

  -- Servers that are resolved one behind the other, with the paths that they get; a server whose
  -- mountpoint is refused changes nothing and gets none.
  pub data Resolves : MountpointAllocator → List Text → MountpointAllocator → Type 0 where
    done : {a : MountpointAllocator} → Resolves a [] a
    granted :
        {a b c : MountpointAllocator} {paths : List Text} (server : ServerConfig) (path : Text)
        → resolve join is_alphanumeric a server ≡ ok (path, b)
        → Resolves b paths c
        → Resolves a (path ∷ paths) c
    refused :
        {a c : MountpointAllocator} {paths : List Text} (server : ServerConfig)
        (e : MountpointError)
        → resolve join is_alphanumeric a server ≡ err e
        → Resolves a paths c
        → Resolves a paths c

  later_free :
      (a : MountpointAllocator) (q p : Text)
      → is_reserved (reserve q a) p ≡ false
      → (text_eq (path_key p a.windows) (path_key q a.windows) ≡ false) × (is_reserved a p ≡ false)
  unfolding is_reserved reserve mem
  later_free a q p h =
      (ground (arith, text_eq_comm (path_key p a.windows) (path_key q a.windows)), ground arith)

  later-All :
      (a : MountpointAllocator) (q : Text) (ps : List Text)
      → All (IsFree (reserve q a)) ps
      → (mem (path_key q a.windows) (map (λ path. path_key path a.windows) ps) ≡ false)
        × All (IsFree a) ps
  unfolding mem
  later-All a q [] h = (refl, tt)
  later-All a q (p ∷ ps) h =
      let rest = later-All a q ps h.1 in
      let now = later_free a q p h.0 in (rw now.0 rest.0, (now.1, rest.1))

  -- The paths that servers get one behind the other are all different, by the keys that ignore
  -- what the system ignores, and none was reserved before.
  pub Resolves-distinct :
      (a c : MountpointAllocator) (paths : List Text)
      → Resolves a paths c
      → (distinct (map (λ path. path_key path a.windows) paths) ≡ true)
        × All (λ path. is_reserved a path ≡ false) paths
  unfolding distinct reserve
  Resolves-distinct a c paths done = (refl, tt)
  Resolves-distinct a c paths (refused server e h r) = Resolves-distinct a c paths r
  Resolves-distinct a c _ (granted {b = b} {paths = paths} server path h r) =
      go (resolve-reserves a b server path h) (Resolves-distinct b c paths r)
    where
      go :
          (is_reserved a path ≡ false) × (is_reserved b path ≡ true) × (b ≡ reserve path a)
          → (distinct (map (λ p. path_key p b.windows) paths) ≡ true) × All (IsFree b) paths
          → (distinct (map (λ p. path_key p a.windows) (path ∷ paths)) ≡ true)
            × All (IsFree a) (path ∷ paths)
      go f d =
          let e =
            subst
              (λ x.
                (distinct (map (λ p. path_key p x.windows) paths) ≡ true) × All (IsFree x) paths)
              f.2 d in
          let l = later-All a path paths e.1 in (rw l.0 e.0, (f.0, l.1))
