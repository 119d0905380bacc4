-- ===== src/Manifest/Types.antt =====
-- The data of the update manifest and what the crates compute on it.
use ssh_mountmate.Base.{ℕ, ◌*◌, Bool, Option, List, [], ◌∷◌, Result}
use ssh_mountmate.Text.{Text, codes}

abbrev pub manifest_schema_version : ℕ
manifest_schema_version = 1

abbrev pub max_manifest_bytes : ℕ
max_manifest_bytes = 64 * 1024

abbrev pub max_signature_bytes : ℕ
max_signature_bytes = 1024

abbrev pub canonical_asset_names : List Text
canonical_asset_names =
    codes "SSHMountMate-linux-arm64.zip"
    ∷ codes "SSHMountMate-linux-x64.zip"
    ∷ codes "SSHMountMate-macos-arm64.zip"
    ∷ codes "SSHMountMate-macos-x64.zip"
    ∷ codes "SSHMountMate-windows-arm64.zip"
    ∷ codes "SSHMountMate-windows-x64.zip"
    ∷ []

pub data ReleaseChannel : Type 0 where
  stable prerelease : ReleaseChannel

pub record ManifestAsset : Type 0 where
  pub name : Text
  pub size : ℕ
  pub sha256 : Text

pub record SignedUpdateManifestV1 : Type 0 where
  pub schema_version : ℕ
  pub key_id : Text
  pub version : Text
  pub channel : ReleaseChannel
  pub assets : List ManifestAsset

pub record TrustedUpdateKey : Type 0 where
  pub key_id : Text
  pub public_key : Text

pub record PublishedAsset : Type 0 where
  pub name : Text
  pub size : ℕ
  pub digest : Text
  pub url : Text

pub data UpdateTrustError : Type 0 where
  missing_manifest missing_signature manifest_too_large signature_too_large : UpdateTrustError
  invalid_manifest invalid_key_registry unknown_key_id : Text → UpdateTrustError
  invalid_signature version_mismatch channel_mismatch : UpdateTrustError
  invalid_asset_set release_asset_mismatch : Text → UpdateTrustError
  invalid_private_key : UpdateTrustError
  private_key_mismatch io : Text → UpdateTrustError

-- `semver::Version`, as far as it is used: its print, and whether its pre-release part is empty.
pub record Version : Type 0 where
  pub print : Text
  pub pre_is_empty : Bool

-- `url::Url`, as far as it is used.
pub record Url : Type 0 where
  pub scheme : Text
  pub host_str : Option Text
  pub path : Text

-- `K`: a verifying key.
pub record Crates (K : Type 0) : Type 0 where
  pub from_slice : List ℕ → Result Text SignedUpdateManifestV1
  pub from_utf8 : List ℕ → Option Text
  pub decode_base64 : Text → Option (List ℕ)
  pub verify_strict : K → List ℕ → List ℕ → Bool
  pub key_from_bytes : List ℕ → Option K
  pub fingerprint : K → Text
  pub parse_version : Text → Option Version
  pub parse_url : Text → Option Url
