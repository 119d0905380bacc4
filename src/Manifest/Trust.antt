-- ===== src/Manifest/Trust.antt =====
-- What holds of a manifest that `verify_release_manifest_identity` returns.
use ssh_mountmate.Base.{
  ℕ, ◌≤◌, ◌≡◌, refl, ap, subst, Bool, true, false, not, Option, none, some, List, [], ◌∷◌, map,
  arith, length, Result, ok, err, ok_or, ok_or-ok, refuse_if, refuse_if-ok, bind-ok, then-ok, ◌>>=◌,
  ◌>>◌, All,
}
use ssh_mountmate.Text.{Text, codes, text_eq_sound, trim, strip_prefix}
use ssh_mountmate.Dict.{lookup}
use ssh_mountmate.Manifest.{
  Crates, Version, ManifestAsset, SignedUpdateManifestV1, UpdateTrustError, canonical_asset_names,
  check_asset, check_assets, check_version, check_tag, check_schema, check_key_id, check_count,
  read_version, check_signature, validate_manifest, validate_release_identity, is_lower_sha256,
  valid_key_id, is_prerelease, bool_eq, check_sizes, read_signature, get, or_invalid,
  verify_release_manifest_identity,
}

-- A file of at least one byte, with a digest in lower case.
abbrev pub IsAsset : ManifestAsset → Type 0
IsAsset asset = (1 ≤ asset.size) × (is_lower_sha256 asset.sha256 ≡ true)

check_asset-ok :
    (asset : ManifestAsset) (name : Text) (u : Unit)
    → check_asset asset name ≡ ok u
    → (asset.name ≡ name) × IsAsset asset
unfolding check_asset
check_asset-ok asset name u h =
    (text_eq_sound asset.name name (ground arith), (ground arith, ground arith))

check_assets-ok :
    (assets : List ManifestAsset) (names : List Text) (u : Unit)
    → length assets ≡ length names
    → check_assets assets names ≡ ok u
    → (map (λ asset. asset.name) assets ≡ names) × All IsAsset assets
unfolding check_assets
check_assets-ok [] [] u l h = (refl, tt)
check_assets-ok [] (name ∷ names) u l h = absurd (omega (arith, l))
check_assets-ok (asset ∷ rest) [] u l h = absurd (omega (arith, l))
check_assets-ok (asset ∷ rest) (name ∷ names) u l h =
    let s = then-ok (check_asset asset name) (check_assets rest names) u h in
    let a = check_asset-ok asset name s.0.0 s.0.1 in
    let r = check_assets-ok rest names u (omega (arith, l)) s.1 in
    (rw a.0 (ap (λ t. name ∷ t) r.0), (a.1, r.1))

bool_eq_sound : (a b : Bool) → bool_eq a b ≡ true → a ≡ b
bool_eq_sound true b h = ground arith
bool_eq_sound false b h = ground arith

-- The manifest belongs to the release of that tag.
abbrev pub IsOfRelease : SignedUpdateManifestV1 → Text → Bool → Type 0
IsOfRelease manifest release_tag prerelease =
    (strip_prefix (trim release_tag) (codes "v") ≡ some manifest.version)
    × (prerelease ≡ is_prerelease manifest.channel)

identity-ok :
    (manifest : SignedUpdateManifestV1) (release_tag : Text) (prerelease : Bool) (u : Unit)
    → validate_release_identity manifest release_tag prerelease ≡ ok u
    → IsOfRelease manifest release_tag prerelease
unfolding validate_release_identity
identity-ok manifest release_tag prerelease u h =
    let other = not (bool_eq prerelease (is_prerelease manifest.channel)) in
    let s =
      then-ok (check_tag manifest.version (strip_prefix (trim release_tag) (codes "v")))
        (refuse_if other UpdateTrustError.channel_mismatch) u h in
    let c = refuse_if-ok other UpdateTrustError.channel_mismatch u s.1 in
    (
      tag (strip_prefix (trim release_tag) (codes "v")) s.0.0 s.0.1,
      bool_eq_sound prerelease (is_prerelease manifest.channel) (ground arith),
    )
  where
    tag :
        (o : Option Text) (v : Unit)
        → check_tag manifest.version o ≡ ok v
        → o ≡ some manifest.version
    tag none v h = absurd (cc)
    tag (some t) v h = ap (λ x. some x) (text_eq_sound t manifest.version (ground arith))

module _ {K : Type 0} (crates : Crates K) where
  -- The canonical assets, in order, each with a size and a digest, and a channel that fits the
  -- version.
  abbrev pub IsValid : SignedUpdateManifestV1 → Type 0
  IsValid manifest =
      (version : Version) × (crates.parse_version manifest.version ≡ some version)
      × (version.print ≡ manifest.version)
      × (is_prerelease manifest.channel ≡ not version.pre_is_empty)
      × (valid_key_id manifest.key_id ≡ true)
      × (map (λ asset. asset.name) manifest.assets ≡ canonical_asset_names)
      × All IsAsset manifest.assets

  version-ok :
      (manifest : SignedUpdateManifestV1) (version : Version) (u : Unit)
      → check_version crates manifest version ≡ ok u
      → (version.print ≡ manifest.version)
        × (is_prerelease manifest.channel ≡ not version.pre_is_empty)
  unfolding check_version
  version-ok manifest version u h = (
    text_eq_sound version.print manifest.version (ground arith),
    bool_eq_sound (is_prerelease manifest.channel) (not version.pre_is_empty) (ground arith),
  )

  count-ok :
      (manifest : SignedUpdateManifestV1) (u : Unit)
      → check_count manifest ≡ ok u
      → length manifest.assets ≡ length canonical_asset_names
  unfolding check_count
  count-ok manifest u h = ground arith

  key_id-ok :
      (manifest : SignedUpdateManifestV1) (u : Unit)
      → check_key_id manifest ≡ ok u
      → valid_key_id manifest.key_id ≡ true
  unfolding check_key_id
  key_id-ok manifest u h = ground arith

  version-read :
      (manifest : SignedUpdateManifestV1) (version : Version)
      → read_version crates manifest ≡ ok version
      → crates.parse_version manifest.version ≡ some version
  unfolding read_version
  version-read manifest version h =
      ok_or-ok (crates.parse_version manifest.version)
        (UpdateTrustError.invalid_manifest (codes "version is not valid SemVer")) version h

  validate_manifest-IsValid :
      (manifest : SignedUpdateManifestV1) (u : Unit)
      → validate_manifest crates manifest ≡ ok u
      → IsValid manifest
  unfolding validate_manifest
  validate_manifest-IsValid manifest u h =
      let assets = check_count manifest >> check_assets manifest.assets canonical_asset_names in
      let checked : Version → Result UpdateTrustError Unit =
        λ version. check_version crates manifest version >> assets in
      let versioned = read_version crates manifest >>= checked in
      let s = then-ok (check_schema manifest) (check_key_id manifest >> versioned) u h in
      let k = then-ok (check_key_id manifest) versioned u s.1 in
      let v = bind-ok (read_version crates manifest) checked u k.1 in
      let c = then-ok (check_version crates manifest v.0) assets u v.2 in
      let n =
        then-ok (check_count manifest) (check_assets manifest.assets canonical_asset_names) u c.1 in
      let a =
        check_assets-ok manifest.assets canonical_asset_names u (count-ok manifest n.0.0 n.0.1)
          n.1 in
      let w = version-ok manifest v.0 c.0.0 c.0.1 in
      (v.0, version-read manifest v.0 v.1, w.0, w.1, key_id-ok manifest k.0.0 k.0.1, a.0, a.1)

  -- The registry has a key of the manifest's identifier, which verifies the signature's 64 bytes
  -- on the bytes of the manifest.
  abbrev pub IsSigned : List ℕ → List ℕ → List (Text × K) → SignedUpdateManifestV1 → Type 0
  IsSigned manifest_bytes signature_bytes keys manifest =
      (key : K) × (signature : List ℕ) × (lookup manifest.key_id keys ≡ some key)
      × (read_signature crates signature_bytes ≡ ok signature)
      × (crates.verify_strict key manifest_bytes signature ≡ true)

  check_signature-IsSigned :
      (manifest_bytes signature_bytes : List ℕ) (keys : List (Text × K))
      (manifest : SignedUpdateManifestV1) (u : Unit)
      → check_signature crates manifest_bytes signature_bytes keys manifest ≡ ok u
      → IsSigned manifest_bytes signature_bytes keys manifest
  unfolding check_signature get
  check_signature-IsSigned manifest_bytes signature_bytes keys manifest u h =
      let unknown = UpdateTrustError.unknown_key_id manifest.key_id in
      let verify : K → List ℕ → Result UpdateTrustError Unit = λ key signature.
        refuse_if (not (crates.verify_strict key manifest_bytes signature))
          UpdateTrustError.invalid_signature in
      let read : K → Result UpdateTrustError Unit =
        λ key. read_signature crates signature_bytes >>= verify key in
      let k = bind-ok (ok_or (lookup manifest.key_id keys) unknown) read u h in
      let s = bind-ok (read_signature crates signature_bytes) (verify k.0) u k.2 in
      let v =
        refuse_if-ok (not (crates.verify_strict k.0 manifest_bytes s.0))
          UpdateTrustError.invalid_signature u s.2 in
      (k.0, s.0, ok_or-ok (lookup manifest.key_id keys) unknown k.0 k.1, s.1, ground arith)

  -- A manifest that is returned is the one in the bytes, it is signed with a registered key, it is
  -- valid, and it belongs to the release of that tag.
  pub verify_release_manifest_identity-IsSigned :
      (manifest_bytes signature_bytes : List ℕ) (keys : List (Text × K)) (release_tag : Text)
      (prerelease : Bool) (manifest : SignedUpdateManifestV1)
      → verify_release_manifest_identity crates manifest_bytes signature_bytes keys release_tag
          prerelease
        ≡ ok manifest
      → (crates.from_slice manifest_bytes ≡ ok manifest)
        × IsSigned manifest_bytes signature_bytes keys manifest
        × IsValid manifest
        × IsOfRelease manifest release_tag prerelease
  unfolding verify_release_manifest_identity
  verify_release_manifest_identity-IsSigned manifest_bytes signature_bytes keys release_tag
        prerelease manifest h =
      let released : SignedUpdateManifestV1 → Result UpdateTrustError SignedUpdateManifestV1 =
        λ m. validate_release_identity m release_tag prerelease >> ok m in
      let valid : SignedUpdateManifestV1 → Result UpdateTrustError SignedUpdateManifestV1 =
        λ m. validate_manifest crates m >> released m in
      let signed : SignedUpdateManifestV1 → Result UpdateTrustError SignedUpdateManifestV1 =
        λ m. check_signature crates manifest_bytes signature_bytes keys m >> valid m in
      let z =
        then-ok (check_sizes crates manifest_bytes signature_bytes)
          (or_invalid crates (crates.from_slice manifest_bytes) >>= signed) manifest h in
      let p = bind-ok (or_invalid crates (crates.from_slice manifest_bytes)) signed manifest z.1 in
      let s =
        then-ok (check_signature crates manifest_bytes signature_bytes keys p.0) (valid p.0)
          manifest p.2 in
      let v = then-ok (validate_manifest crates p.0) (released p.0) manifest s.1 in
      let r =
        then-ok (validate_release_identity p.0 release_tag prerelease) (ok p.0) manifest v.1 in
      let same : p.0 ≡ manifest = ground (arith, r.1) in
      subst
        (λ m.
          (crates.from_slice manifest_bytes ≡ ok m)
          × IsSigned manifest_bytes signature_bytes keys m
          × IsValid m
          × IsOfRelease m release_tag prerelease)
        same
        (
          parsed (crates.from_slice manifest_bytes) p.0 p.1,
          check_signature-IsSigned manifest_bytes signature_bytes keys p.0 s.0.0 s.0.1,
          validate_manifest-IsValid p.0 v.0.0 v.0.1,
          identity-ok p.0 release_tag prerelease r.0.0 r.0.1,
        )
    where
      parsed :
          (r : Result Text SignedUpdateManifestV1) (m : SignedUpdateManifestV1)
          → or_invalid crates r ≡ ok m
          → r ≡ ok m
      parsed (ok n) m e = ground (arith, e)
      parsed (err t) m e = absurd (cc)
