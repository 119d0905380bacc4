-- ===== src/Manifest/Verify.antt =====
-- `verify_release_manifest` and the validations that it is made of.
use ssh_mountmate.Base.{
  ℕ, Bool, true, false, not, ◌&&◌, ◌||◌, Option, none, some, List, [], ◌∷◌, ◌++◌, find, ltb, ◌==◌,
  length, Result, ok, err, ok_or, refuse_if, ◌>>=◌, ◌>>◌,
}
use ssh_mountmate.Text.{Text, codes, text_eq, is_empty, trim, strip_prefix}
use ssh_mountmate.Text.Decimal.{decimal}
use ssh_mountmate.Dict.{mem}
use ssh_mountmate.Manifest.Types.{
  Crates, Version, Url, ManifestAsset, PublishedAsset, SignedUpdateManifestV1, ReleaseChannel,
  UpdateTrustError, manifest_schema_version, max_manifest_bytes, max_signature_bytes,
  canonical_asset_names,
}
use ssh_mountmate.Manifest.Registry.{valid_key_id, is_lower_sha256, get, sized}

abbrev pub is_prerelease : ReleaseChannel → Bool
is_prerelease ReleaseChannel.prerelease = true
is_prerelease ReleaseChannel.stable = false

abbrev pub bool_eq : Bool → Bool → Bool
bool_eq true b = b
bool_eq false b = not b

unfoldable pub check_asset : ManifestAsset → Text → Result UpdateTrustError Unit
check_asset asset expected_name = do
  refuse_if (not (text_eq asset.name expected_name)) (
      UpdateTrustError.invalid_asset_set
        (codes "expected sorted asset " ++ (expected_name ++ (codes ", got " ++ asset.name))))
  refuse_if (asset.size == 0)
      (UpdateTrustError.invalid_asset_set (asset.name ++ codes " has zero size"))
  refuse_if (not (is_lower_sha256 asset.sha256))
      (UpdateTrustError.invalid_asset_set (asset.name ++ codes " has invalid SHA-256"))

-- The loop over `assets.iter().zip(CANONICAL_ASSET_NAMES)`.
unfoldable pub check_assets : List ManifestAsset → List Text → Result UpdateTrustError Unit
unfolding check_asset
check_assets [] names = ok tt
check_assets (asset ∷ rest) [] = ok tt
check_assets (asset ∷ rest) (name ∷ names) = check_asset asset name >> check_assets rest names

unfoldable pub find_asset : List ManifestAsset → Text → Option ManifestAsset
find_asset assets name = find (λ asset. text_eq asset.name name) assets

-- The tag without its `v`.
abbrev pub check_tag : Text → Option Text → Result UpdateTrustError Unit
check_tag version none = err UpdateTrustError.version_mismatch
check_tag version (some tag) =
    refuse_if (not (text_eq tag version)) UpdateTrustError.version_mismatch

unfoldable pub validate_release_identity :
    SignedUpdateManifestV1 → Text → Bool → Result UpdateTrustError Unit
validate_release_identity manifest release_tag release_prerelease = do
  check_tag manifest.version (strip_prefix (trim release_tag) (codes "v"))
  refuse_if (not (bool_eq release_prerelease (is_prerelease manifest.channel)))
      UpdateTrustError.channel_mismatch

abbrev pub release_path : Text → Text → Text
release_path release_tag asset_name =
    codes "/Stardust0831/ssh-mountmate/releases/download/"
    ++ (release_tag ++ (codes "/" ++ asset_name))

abbrev pub is_github : Option Text → Bool
is_github none = false
is_github (some host) = text_eq host (codes "github.com") || text_eq host (codes "www.github.com")

abbrev pub url_matches : Text → Option Url → Bool
url_matches path none = false
url_matches path (some url) =
    text_eq url.scheme (codes "https") && is_github url.host_str && text_eq url.path path

unfoldable pub check_schema : SignedUpdateManifestV1 → Result UpdateTrustError Unit
check_schema manifest = refuse_if (not (manifest.schema_version == manifest_schema_version)) (
    UpdateTrustError.invalid_manifest
      (codes "unsupported schema_version " ++ decimal manifest.schema_version))

unfoldable pub check_key_id : SignedUpdateManifestV1 → Result UpdateTrustError Unit
check_key_id manifest =
    refuse_if (not (valid_key_id manifest.key_id))
      (UpdateTrustError.invalid_manifest (codes "key_id is not a canonical Ed25519 fingerprint"))

unfoldable pub check_count : SignedUpdateManifestV1 → Result UpdateTrustError Unit
check_count manifest = refuse_if (not (length manifest.assets == length canonical_asset_names)) (
    UpdateTrustError.invalid_asset_set (
      codes "expected "
      ++ (decimal (length canonical_asset_names)
          ++ (codes " assets, got " ++ decimal (length manifest.assets)))))

module _ {K : Type 0} (crates : Crates K) where
  unfoldable pub check_version : SignedUpdateManifestV1 → Version → Result UpdateTrustError Unit
  check_version manifest version = do
    refuse_if (not (text_eq version.print manifest.version))
        (UpdateTrustError.invalid_manifest (codes "version is not canonical SemVer"))
    refuse_if (not (bool_eq (is_prerelease manifest.channel) (not version.pre_is_empty)))
        UpdateTrustError.channel_mismatch

  unfoldable pub read_version : SignedUpdateManifestV1 → Result UpdateTrustError Version
  read_version manifest =
      ok_or (crates.parse_version manifest.version)
        (UpdateTrustError.invalid_manifest (codes "version is not valid SemVer"))

  unfoldable pub validate_manifest : SignedUpdateManifestV1 → Result UpdateTrustError Unit
  unfolding check_schema check_key_id read_version check_version check_count check_assets
  validate_manifest manifest = do
    check_schema manifest
    check_key_id manifest
    version ← read_version manifest
    check_version manifest version
    check_count manifest
    check_assets manifest.assets canonical_asset_names

  unfoldable pub asset_url_matches : Text → Text → Text → Bool
  asset_url_matches value release_tag asset_name =
      url_matches (release_path release_tag asset_name) (crates.parse_url value)

  -- One published asset against the signed one.
  abbrev pub matches_signed : Text → PublishedAsset → ManifestAsset → Bool
  matches_signed release_tag published signed =
      published.size == signed.size
      && text_eq published.digest (codes "sha256:" ++ signed.sha256)
      && asset_url_matches published.url release_tag published.name

  -- The loop over the published assets, with the names that it has seen.
  unfoldable pub check_published :
      List ManifestAsset → Text → List Text → List PublishedAsset → Result UpdateTrustError Unit
  unfolding find_asset
  check_published assets release_tag names [] = ok tt
  check_published assets release_tag names (published ∷ rest) = do
    refuse_if (mem published.name names)
        (UpdateTrustError.release_asset_mismatch (codes "duplicate asset " ++ published.name))
    signed ←
        ok_or (find_asset assets published.name)
          (UpdateTrustError.release_asset_mismatch published.name)
    refuse_if (not (matches_signed release_tag published signed))
        (UpdateTrustError.release_asset_mismatch published.name)
    check_published assets release_tag (published.name ∷ names) rest

  unfoldable pub validate_published_assets :
      SignedUpdateManifestV1 → Text → List PublishedAsset → Result UpdateTrustError Unit
  unfolding check_published
  validate_published_assets manifest release_tag published = do
    refuse_if (not (length published == length manifest.assets)) (
        UpdateTrustError.release_asset_mismatch (
          codes "expected "
          ++ (decimal (length manifest.assets)
              ++ (codes " ZIP assets, got " ++ decimal (length published)))))
    check_published manifest.assets release_tag [] published

  abbrev pub or_invalid :
      Result Text SignedUpdateManifestV1 → Result UpdateTrustError SignedUpdateManifestV1
  or_invalid (ok manifest) = ok manifest
  or_invalid (err message) = err (UpdateTrustError.invalid_manifest message)

  -- The four tests on sizes.
  unfoldable pub check_sizes : List ℕ → List ℕ → Result UpdateTrustError Unit
  check_sizes manifest_bytes signature_bytes = do
    refuse_if (is_empty manifest_bytes) UpdateTrustError.missing_manifest
    refuse_if (ltb max_manifest_bytes (length manifest_bytes)) UpdateTrustError.manifest_too_large
    refuse_if (is_empty signature_bytes) UpdateTrustError.missing_signature
    refuse_if (ltb max_signature_bytes (length signature_bytes))
        UpdateTrustError.signature_too_large

  -- The 64 bytes of the signature.
  unfoldable pub read_signature : List ℕ → Result UpdateTrustError (List ℕ)
  read_signature signature_bytes = do
    text ← ok_or (crates.from_utf8 signature_bytes) UpdateTrustError.invalid_signature
    decoded ← ok_or (crates.decode_base64 (trim text)) UpdateTrustError.invalid_signature
    ok_or (sized crates 64 decoded) UpdateTrustError.invalid_signature

  -- The key of the manifest's identifier verifies the signature.
  unfoldable pub check_signature :
      List ℕ → List ℕ → List (Text × K) → SignedUpdateManifestV1 → Result UpdateTrustError Unit
  unfolding read_signature
  check_signature manifest_bytes signature_bytes keys manifest = do
    key ← ok_or (get crates keys manifest.key_id) (UpdateTrustError.unknown_key_id manifest.key_id)
    signature ← read_signature signature_bytes
    refuse_if (not (crates.verify_strict key manifest_bytes signature))
        UpdateTrustError.invalid_signature

  unfoldable pub verify_release_manifest_identity :
      List ℕ
      → List ℕ
      → List (Text × K)
      → Text
      → Bool
      → Result UpdateTrustError SignedUpdateManifestV1
  unfolding check_sizes check_signature validate_manifest validate_release_identity
  verify_release_manifest_identity manifest_bytes signature_bytes keys release_tag prerelease = do
    check_sizes manifest_bytes signature_bytes
    manifest ← or_invalid (crates.from_slice manifest_bytes)
    check_signature manifest_bytes signature_bytes keys manifest
    validate_manifest manifest
    validate_release_identity manifest release_tag prerelease
    ok manifest

  unfoldable pub verify_release_manifest :
      List ℕ
      → List ℕ
      → List (Text × K)
      → Text
      → Bool
      → List PublishedAsset
      → Result UpdateTrustError SignedUpdateManifestV1
  unfolding verify_release_manifest_identity validate_published_assets
  verify_release_manifest manifest_bytes signature_bytes keys release_tag prerelease published = do
    verified ←
        verify_release_manifest_identity manifest_bytes signature_bytes keys release_tag prerelease
    validate_published_assets verified release_tag published
    ok verified
