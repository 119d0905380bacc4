-- ===== src/Install/Evidence.antt =====
-- What the files and the paths say of a layout, in their own words.
use ssh_mountmate.Base.{
  ◌≡◌, ◌≢◌, refl, sym, ap, ◌∙◌, Bool, true, false, ◌&&◌, ◌||◌, not, Option, none, some, List, [],
  ◌∷◌, ◌++◌, Result, ok, err, All, any, map, length, ◌==◌, ==_iff, arith, if◌then◌else◌, ForOk,
  ForOk-then, refuse_if, refuse_if-ok,
}
use ssh_mountmate.Text.{Text, codes, text_eq, text_eq_sound, text_eq_refl}
use ssh_mountmate.Install.{Paths, Metadata, not_found, unreadable, found, holds, name_eq, map_err}
use ssh_mountmate.Install.Detect.{
  Probe, DirectoryBundleStatus, complete, not_bundle, directory_bundle_status, is_regular,
  directory_bundle_marker_name, directory_bundle_marker, mac_application_root, above,
  as_application, components_start_with, path_is_within, incomplete_directory_bundle,
  corrupt_directory_bundle,
}

name_eq-some : (o : Option Text) (t : Text) → name_eq o t ≡ true → o ≡ some t
name_eq-some none t h = absurd (cc)
name_eq-some (some s) t h = ap some (text_eq_sound s t h)

pub map_err-ok :
    {D E A : Type 0} (f : D → E) (r : Result D A) (a : A) → map_err f r ≡ ok a → r ≡ ok a
map_err-ok f (ok b) a h = cc
map_err-ok f (err e) a h = absurd (cc)

module _ (probe : Probe) (paths : Paths) (os temporary_directory : Text) where
  -- A file, and no link.
  abbrev pub IsFile : Text → Type 0
  IsFile path = (is_dir : Bool) × (probe.symlink_metadata path ≡ found true is_dir false)

  -- The marker is a file with the content that it must have.
  abbrev pub HasMarker : Text → Type 0
  HasMarker marker =
      IsFile marker
      × (probe.metadata_len marker ≡ 34)
      × (probe.read marker ≡ some (codes "ssh-mountmate-directory-bundle-v1\n"))

  abbrev pub rclone_of : Text → Text
  rclone_of root =
      paths.join (paths.join root (codes "bin"))
        (if text_eq os (codes "windows") then codes "rclone.exe" else codes "rclone")

  abbrev pub digest_of : Text → Text
  digest_of root = paths.with_file_name (rclone_of root) (
      (if text_eq os (codes "windows") then codes "rclone.exe" else codes "rclone")
      ++ codes ".sha256")

  -- A bundle has its marker, and an rclone that was verified, beside the file of its digest.
  abbrev pub IsBundle : Text → Type 0
  IsBundle root =
      HasMarker (paths.join root directory_bundle_marker_name)
      × IsFile (rclone_of root)
      × IsFile (digest_of root)
      × (probe.verify_bundled (rclone_of root) ≡ ok tt)

  -- The executable lies in `Contents/MacOS` of an application.
  abbrev pub IsApplication : Text → Text → Type 0
  IsApplication executable application =
      (macos contents : Text) × (paths.parent executable ≡ some macos)
      × (paths.file_name macos ≡ some (codes "MacOS"))
      × (paths.parent macos ≡ some contents)
      × (paths.file_name contents ≡ some (codes "Contents"))
      × (paths.parent contents ≡ some application)
      × (probe.extension application ≡ some (codes "app"))

  -- On Windows the path does not continue that of the temporary directory, in either case.
  abbrev pub IsElsewhere : Text → Type 0
  IsElsewhere executable =
      text_eq os (codes "windows") ≡ true
      → (directory : Text) (rest : List Text)
      → probe.canonicalize temporary_directory ≡ ok directory
      → map probe.to_lowercase (probe.components executable)
        ≢ map probe.to_lowercase (probe.components directory) ++ rest

  -- On macOS no directory around the path is an application.
  abbrev pub IsInNone : Text → Type 0
  IsInNone executable =
      text_eq os (codes "macos") ≡ true
      → All (λ path. probe.extension path ≢ some (codes "app")) (probe.ancestors executable)

  pub file_of :
      (path : Text) (m : Metadata)
      → probe.symlink_metadata path ≡ m
      → is_regular probe paths m ≡ true
      → IsFile path
  file_of path not_found h k = absurd (cc)
  file_of path (unreadable source) h k = absurd (cc)
  file_of path (found true d false) h k = (d, h)
  file_of path (found true d true) h k = absurd (cc)
  file_of path (found false d l) h k = absurd (cc)

  abbrev pub HasStatus : Text → DirectoryBundleStatus → Type 0
  HasStatus root complete = IsBundle root
  HasStatus root not_bundle =
      probe.symlink_metadata (paths.join root directory_bundle_marker_name) ≡ not_found

  two_true : (a b : Bool) → (not a || not b) ≡ false → (a ≡ true) × (b ≡ true)
  two_true true true k = (refl, refl)
  two_true true false k = absurd (cc)
  two_true false b k = absurd (cc)

  marker_of :
      (marker : Text) (m : Metadata) (f d l : Bool)
      → m ≡ found f d l
      → probe.symlink_metadata marker ≡ m
      → (not f
          || (l
              || (not (probe.metadata_len marker == length directory_bundle_marker)
                  || not (
                      holds
                        (λ contents. text_eq contents directory_bundle_marker)
                        (probe.read marker)))))
        ≡ false
      → HasMarker marker
  marker_of marker m true d false e h k =
      let (a, b) =
        two_true (probe.metadata_len marker == length directory_bundle_marker)
          (holds (λ contents. text_eq contents directory_bundle_marker) (probe.read marker)) k in
      (
        (d, h ∙ e),
        (==_iff (probe.metadata_len marker) 34).0 a,
        name_eq-some (probe.read marker) directory_bundle_marker b,
      )
  marker_of marker m true d true e h k = absurd (cc)
  marker_of marker m false d l e h k = absurd (cc)

  -- What the two states of a directory mean.
  pub directory_bundle_status_lem :
      (root : Text) (m : Metadata)
      → probe.symlink_metadata (paths.join root directory_bundle_marker_name) ≡ m
      → ForOk (HasStatus root) (directory_bundle_status probe paths root os m)
  unfolding directory_bundle_status
  directory_bundle_status_lem root not_found h = h
  directory_bundle_status_lem root (unreadable source) h = tt
  directory_bundle_status_lem root (found f d l) h =
      ForOk-then (HasStatus root) (refuse_if _ _) _ (λ e0.
        ForOk-then (HasStatus root) (refuse_if _ _) _ (λ e1.
          ForOk-then (HasStatus root)
            (map_err (corrupt_directory_bundle (rclone_of root))
              (probe.verify_bundled (rclone_of root)))
            (ok complete)
            (λ e2.
              let (a, b) = two_true _ _ (refuse_if-ok _ (incomplete_directory_bundle root) tt e1) in
              (
                marker_of (paths.join root directory_bundle_marker_name) (found f d l) f d l refl h
                    (refuse_if-ok _ _ tt e0),
                file_of (rclone_of root) _ refl a,
                file_of (digest_of root) _ refl b,
                map_err-ok (corrupt_directory_bundle (rclone_of root))
                    (probe.verify_bundled (rclone_of root)) tt e2,
              ))))

  above_lem :
      (name : Text) (o : Option Text) (q : Text)
      → above probe paths name o ≡ some q
      → (p : Text) × (o ≡ some p) × (paths.file_name p ≡ some name) × (paths.parent p ≡ some q)
  above_lem name none q h = absurd (cc)
  above_lem name (some p) q h = go (name_eq (paths.file_name p) name) refl h
    where
      go :
          (b : Bool)
          → name_eq (paths.file_name p) name ≡ b
          → (if b then paths.parent p else none) ≡ some q
          → (p' : Text) × (some p ≡ some p')
            × (paths.file_name p' ≡ some name)
            × (paths.parent p' ≡ some q)
      go true e k = (p, refl, name_eq-some (paths.file_name p) name e, k)
      go false e k = absurd (cc)

  as_application_lem :
      (o : Option Text) (a : Text)
      → as_application probe paths o ≡ some a
      → (o ≡ some a) × (probe.extension a ≡ some (codes "app"))
  as_application_lem none a h = absurd (cc)
  as_application_lem (some p) a h = go (name_eq (probe.extension p) (codes "app")) refl h
    where
      go :
          (b : Bool)
          → name_eq (probe.extension p) (codes "app") ≡ b
          → (if b then some p else none) ≡ some a
          → (some p ≡ some a) × (probe.extension a ≡ some (codes "app"))
      go true e k =
          let same : p ≡ a = cc in
          (k, ap probe.extension (sym same) ∙ name_eq-some (probe.extension p) (codes "app") e)
      go false e k = absurd (cc)

  pub mac_application_root_lem :
      (executable application : Text)
      → mac_application_root probe paths executable ≡ some application
      → IsApplication executable application
  unfolding mac_application_root
  mac_application_root_lem executable application h =
      let (a, b) = as_application_lem _ application h in
      let (contents, c, d, e) = above_lem (codes "Contents") _ application a in
      let (macos, f, g, i) = above_lem (codes "MacOS") _ contents c in
      (macos, contents, f, g, i, d, e, b)

  -- A path that continues the other one is found to start with it.
  components_lem :
      (path directory rest : List Text)
      → map probe.to_lowercase path ≡ map probe.to_lowercase directory ++ rest
      → components_start_with probe paths true path directory ≡ true
  unfolding components_start_with
  components_lem path [] rest h = refl
  components_lem [] (d ∷ directory) rest h = absurd (cc)
  components_lem (p ∷ path) (d ∷ directory) rest h =
      let same : probe.to_lowercase p ≡ probe.to_lowercase d = cc in
      let more : map probe.to_lowercase path ≡ map probe.to_lowercase directory ++ rest = cc in
      rw same (rw (text_eq_refl (probe.to_lowercase d)) (components_lem path directory rest more))

  pub elsewhere_lem :
      (executable : Text)
      → (text_eq os (codes "windows")
          && path_is_within probe paths executable temporary_directory true)
        ≡ false
      → IsElsewhere executable
  unfolding path_is_within
  elsewhere_lem executable h w directory rest e l =
      let inside =
        components_lem (probe.components executable) (probe.components directory) rest l in
      go (rw w (rw e inside)) h
    where
      go : {b : Bool} → b ≡ true → b ≡ false → ⊥
      go h' k' = absurd (cc)

  none_lem :
      (ancestors : List Text)
      → any (λ path. name_eq (probe.extension path) (codes "app")) ancestors ≡ false
      → All (λ path. probe.extension path ≢ some (codes "app")) ancestors
  none_lem [] h = tt
  none_lem (a ∷ ancestors) h = (one, none_lem ancestors (ground arith))
    where
      one : probe.extension a ≢ some (codes "app")
      one e =
          let named : name_eq (probe.extension a) (codes "app") ≡ true =
            rw e (text_eq_refl (codes "app")) in
          absurd (ground (arith, named, h))

  pub in_none_lem :
      (executable : Text)
      → any (λ path. name_eq (probe.extension path) (codes "app")) (probe.ancestors executable)
        ≡ false
      → IsInNone executable
  in_none_lem executable h e = none_lem (probe.ancestors executable) h
