-- ===== src/Install/Detected.antt =====
-- What is known of a layout that was detected.
use ssh_mountmate.Base.{
  ◌≡◌, refl, sym, ap, ◌∙◌, subst, true, false, ◌&&◌, Option, none, some, Result, ok, err, any,
  ForOk, ForOk-ok, ForOk-bind, ForOk-then, ForOk-if,
}
use ssh_mountmate.Text.{Text, codes, text_eq}
use ssh_mountmate.Install.{
  Paths, Metadata, not_found, unreadable, found, InstallKind, standalone_executable,
  directory_bundle, mac_application_bundle, InstallLayout, map_err, name_eq,
}
use ssh_mountmate.Install.Evidence.{
  IsFile, IsBundle, IsApplication, IsElsewhere, IsInNone, HasStatus, directory_bundle_status_lem,
  mac_application_root_lem, elsewhere_lem, in_none_lem, map_err-ok,
}
use ssh_mountmate.Install.Detect.{
  Probe, InstallLayoutError, inspect, DirectoryBundleStatus, complete, not_bundle, of_status,
  parent_or_dot, directory_bundle_status, directory_bundle_marker_name, in_directory, on_mac,
  mac_application_root, path_is_within, temporary_windows_location, malformed_mac_application,
  layout_of, check_executable, detect_install_layout,
}

module _ (probe : Probe) (paths : Paths) (os temporary_directory : Text) where
  -- A single executable is replaced itself, and has no marker beside it; a bundle is the directory
  -- of the executable; an application of macOS is the directory around it.
  abbrev pub IsLaidOut : InstallKind → Text → Text → Type 0
  IsLaidOut standalone_executable executable replace_path =
      (replace_path ≡ executable)
      × (probe.symlink_metadata (
            paths.join (parent_or_dot probe paths (paths.parent executable))
              directory_bundle_marker_name)
          ≡ not_found)
      × IsInNone probe paths os temporary_directory executable
  IsLaidOut directory_bundle executable replace_path =
      (replace_path ≡ parent_or_dot probe paths (paths.parent executable))
      × IsBundle probe paths os temporary_directory replace_path
      × IsInNone probe paths os temporary_directory executable
  IsLaidOut mac_application_bundle executable replace_path =
      (text_eq os (codes "macos") ≡ true)
      × IsApplication probe paths os temporary_directory executable replace_path

  abbrev IsOf : Text → InstallLayout → Type 0
  IsOf executable layout =
      (layout.executable ≡ executable)
      × IsElsewhere probe paths os temporary_directory executable
      × IsLaidOut layout.kind executable layout.replace_path

  in_directory_lem :
      (executable : Text)
      → IsElsewhere probe paths os temporary_directory executable
      → IsInNone probe paths os temporary_directory executable
      → ForOk (IsOf executable) (in_directory probe paths executable os)
  in_directory_lem executable elsewhere in_none =
      ForOk-bind (IsOf executable)
        (directory_bundle_status probe paths (parent_or_dot probe paths (paths.parent executable))
          os
          (probe.symlink_metadata (
            paths.join (parent_or_dot probe paths (paths.parent executable))
              directory_bundle_marker_name)))
        _
        (λ status h. go status (
          ForOk-ok
            (HasStatus probe paths os temporary_directory
              (parent_or_dot probe paths (paths.parent executable)))
            _
            (directory_bundle_status_lem probe paths os temporary_directory
              (parent_or_dot probe paths (paths.parent executable)) _ refl)
            h))
    where
      go :
          (status : DirectoryBundleStatus)
          → HasStatus probe paths os temporary_directory
              (parent_or_dot probe paths (paths.parent executable))
              status
          → IsOf executable (
              of_status probe paths executable
                (parent_or_dot probe paths (paths.parent executable))
                status)
      go complete h = (refl, elsewhere, (refl, h, in_none))
      go not_bundle h = (refl, elsewhere, (refl, h, in_none))

  on_mac_lem :
      (executable : Text) (o : Option Text)
      → text_eq os (codes "macos") ≡ true
      → IsElsewhere probe paths os temporary_directory executable
      → mac_application_root probe paths executable ≡ o
      → ForOk (IsOf executable) (on_mac probe paths executable os o)
  on_mac_lem executable (some application) is_mac elsewhere h = (
    refl,
    elsewhere,
    (is_mac, mac_application_root_lem probe paths os temporary_directory executable application h),
  )
  on_mac_lem executable none is_mac elsewhere h =
      ForOk-if (IsOf executable)
        (any (λ path. name_eq (probe.extension path) (codes "app")) (probe.ancestors executable))
        (err (malformed_mac_application executable)) (in_directory probe paths executable os)
        (λ e. tt)
        (λ e.
          in_directory_lem executable elsewhere
            (in_none_lem probe paths os temporary_directory executable e))

  layout_of_lem :
      (executable : Text)
      → ForOk (IsOf executable) (layout_of probe paths os temporary_directory executable)
  unfolding layout_of
  layout_of_lem executable =
      ForOk-if (IsOf executable)
        (text_eq os (codes "windows")
          && path_is_within probe paths executable temporary_directory true)
        (err (temporary_windows_location executable)) _ (λ e. tt)
        (λ e.
          let elsewhere = elsewhere_lem probe paths os temporary_directory executable e in
          ForOk-if (IsOf executable) (text_eq os (codes "macos"))
            (on_mac probe paths executable os (mac_application_root probe paths executable))
            (in_directory probe paths executable os)
            (λ e'.
              on_mac_lem executable (mac_application_root probe paths executable) e' elsewhere refl)
            (λ e'. in_directory_lem executable elsewhere (λ m. absurd (cc))))

  -- What a detection goes through.
  abbrev IsDetected : Text → InstallLayout → Type 0
  IsDetected executable layout =
      (canonical : Text) × (probe.canonicalize executable ≡ ok canonical)
      × (layout_of probe paths os temporary_directory canonical ≡ ok layout)
      × IsFile probe paths os temporary_directory executable

  plain_file :
      (executable : Text) (m : Metadata) (u : Unit {0})
      → probe.symlink_metadata executable ≡ m
      → check_executable probe paths executable m ≡ ok u
      → IsFile probe paths os temporary_directory executable
  plain_file executable not_found u h k = absurd (cc)
  plain_file executable (unreadable source) u h k = absurd (cc)
  plain_file executable (found true d false) u h k = (d, h)
  plain_file executable (found true d true) u h k = absurd (cc)
  plain_file executable (found false d false) u h k = absurd (cc)
  plain_file executable (found false d true) u h k = absurd (cc)

  detect_lem :
      (executable : Text)
      → ForOk
          (IsDetected executable)
          (detect_install_layout probe paths os temporary_directory executable)
  unfolding detect_install_layout
  detect_lem executable =
      ForOk-then (IsDetected executable)
        (check_executable probe paths executable (probe.symlink_metadata executable)) _
        (λ e0.
          ForOk-bind (IsDetected executable)
            (map_err (inspect executable) (probe.canonicalize executable)) _
            (λ canonical e1.
              same (plain_file executable _ tt refl e0) canonical
                (map_err-ok (inspect executable) (probe.canonicalize executable) canonical e1)
                (layout_of probe paths os temporary_directory canonical) refl))
    where
      same :
          IsFile probe paths os temporary_directory executable
          → (canonical : Text) → probe.canonicalize executable ≡ ok canonical
          → (r : Result InstallLayoutError InstallLayout)
          → layout_of probe paths os temporary_directory canonical ≡ r
          → ForOk (IsDetected executable) r
      same file canonical h (ok layout) k = (canonical, h, k, file)
      same file canonical h (err e) k = tt

  -- A layout is detected from a file that is no link; its executable is the canonical path of that
  -- file, which on Windows is not in the temporary directory, if that has a canonical path, cases
  -- being ignored. What is replaced is the executable itself, where no marker stands beside it; or
  -- its directory, with a marker of the right length and content and with an rclone that was
  -- verified, beside the file of its digest; or on macOS the application in whose `Contents/MacOS`
  -- it lies. In the first two cases no directory around it is an application, on macOS.
  pub detect_install_layout-IsLaidOut :
      (executable : Text) (layout : InstallLayout)
      → detect_install_layout probe paths os temporary_directory executable ≡ ok layout
      → IsFile probe paths os temporary_directory executable
        × (probe.canonicalize executable ≡ ok layout.executable)
        × IsElsewhere probe paths os temporary_directory layout.executable
        × IsLaidOut layout.kind layout.executable layout.replace_path
  detect_install_layout-IsLaidOut executable layout h =
      let (canonical, a, b, f) = ForOk-ok (IsDetected executable) _ (detect_lem executable) h in
      let (c, e, d) = ForOk-ok (IsOf canonical) _ (layout_of_lem canonical) b in
      (
        f,
        a ∙ ap ok (sym c),
        subst (λ (t : Text). IsElsewhere probe paths os temporary_directory t) (sym c) e,
        subst (λ (t : Text). IsLaidOut layout.kind t layout.replace_path) (sym c) d,
      )

  -- A detection from the executable of a layout that was detected gives the layout again, where that
  -- executable is a file whose path is canonical.
  pub detect_install_layout_idem :
      (executable : Text) (layout : InstallLayout)
      → detect_install_layout probe paths os temporary_directory executable ≡ ok layout
      → probe.symlink_metadata layout.executable ≡ found true false false
      → probe.canonicalize layout.executable ≡ ok layout.executable
      → detect_install_layout probe paths os temporary_directory layout.executable ≡ ok layout
  unfolding detect_install_layout
  detect_install_layout_idem executable layout h k l =
      let (canonical, a, b, f) = ForOk-ok (IsDetected executable) _ (detect_lem executable) h in
      let (c, g, d) = ForOk-ok (IsOf canonical) _ (layout_of_lem canonical) b in
      rw k (
        rw l (
          subst (λ (t : Text). layout_of probe paths os temporary_directory t ≡ ok layout) (sym c)
            b))
