-- ===== src/Tests/Manifest.antt =====
-- Runs of the verification of a release manifest.
use ssh_mountmate.Base.{
  ℕ, zero, suc, ◌≡◌, refl, true, false, some, List, [], ◌∷◌, ◌++◌, map, ok, if◌then◌else◌,
}
use ssh_mountmate.Text.{
  Text, codes, text_eq, is_digit, is_ascii_hexdigit, is_ascii_uppercase, byte_len, len_utf8,
  starts_with, strip_prefix, trim, trim_by, trim_start_by, trim_end_by, is_whitespace,
}
use ssh_mountmate.Dict.{lookup, mem}
use ssh_mountmate.Manifest.{
  Crates, ManifestAsset, PublishedAsset, SignedUpdateManifestV1, TrustedUpdateKey, ReleaseChannel,
  canonical_asset_names, release_path, verify_release_manifest, verify_release_manifest_identity,
  check_sizes, check_signature, read_signature, get, validate_manifest, check_schema, check_key_id,
  read_version, check_version, check_count, check_assets, check_asset, valid_key_id,
  is_lower_sha256, validate_release_identity, validate_published_assets, check_published,
  find_asset, asset_url_matches, new_key_set, read_keys, read_key, decode_key, check_fingerprint,
  key_id_for,
}
use ssh_mountmate.Manifest.Release.{IsTrusted, verify_release_manifest-IsTrusted}
use ssh_mountmate.Manifest.Published.{get-new_key_set}

abbrev copies : ℕ → ℕ → List ℕ
copies zero c = []
copies (suc n) c = c ∷ copies n c

abbrev named_asset : Text → ManifestAsset
named_asset n = record { name = n; size = 10; sha256 = copies 64 b'a' }

abbrev first_key : Text
first_key = codes "ed25519-0123456789abcdef"

abbrev manifest : SignedUpdateManifestV1
manifest = record {
  schema_version = 1;
  key_id = first_key;
  version = codes "1.2.3";
  channel = ReleaseChannel.stable;
  assets = map named_asset canonical_asset_names;
}

-- Every signature verifies; a key has 32 bytes and a signature 64.
abbrev crates : Crates ℕ
crates = record {
  from_slice = λ bytes. ok manifest;
  from_utf8 = λ bytes. some bytes;
  decode_base64 = λ t. some (if text_eq t (codes "key") then copies 32 0 else copies 64 0);
  verify_strict = λ key bytes signature. true;
  key_from_bytes = λ bytes. some 7;
  fingerprint = λ key. codes "0123456789abcdef0123";
  parse_version = λ t. some (record { print = t; pre_is_empty = true });
  parse_url =
      λ t. some (record { scheme = codes "https"; host_str = some (codes "github.com"); path = t });
}

abbrev registry : List (Text × ℕ)
registry = (first_key, 7) ∷ []

abbrev published_as : ManifestAsset → PublishedAsset
published_as asset = record {
  name = asset.name;
  size = asset.size;
  digest = codes "sha256:" ++ asset.sha256;
  url = release_path (codes "v1.2.3") asset.name;
}

abbrev published : List PublishedAsset
published = map published_as manifest.assets

accepted :
    verify_release_manifest crates
      (codes "{}")
      (codes "sig")
      registry
      (codes "v1.2.3")
      false
      published
    ≡ ok manifest
unfolding verify_release_manifest verify_release_manifest_identity check_sizes check_signature
    read_signature get lookup validate_manifest check_schema check_key_id read_version check_version
    check_count check_assets check_asset valid_key_id is_lower_sha256 validate_release_identity
    validate_published_assets check_published find_asset asset_url_matches mem text_eq is_digit
    is_ascii_hexdigit is_ascii_uppercase byte_len len_utf8 starts_with strip_prefix trim trim_by
    trim_start_by trim_end_by is_whitespace
accepted = refl

verify_release_manifest-IsTrusted_example :
    IsTrusted crates (codes "{}") (codes "sig") registry (codes "v1.2.3") false published manifest
verify_release_manifest-IsTrusted_example =
    verify_release_manifest-IsTrusted crates (codes "{}") (codes "sig") registry (codes "v1.2.3")
      false published manifest accepted

abbrev record_of_first : TrustedUpdateKey
record_of_first = record { key_id = first_key; public_key = codes "key" }

get-new_key_set_example : (first_key ≡ key_id_for crates 7) × (valid_key_id first_key ≡ true)
get-new_key_set_example =
    get-new_key_set crates (record_of_first ∷ []) registry first_key 7
      (unfold new_key_set read_keys read_key decode_key check_fingerprint valid_key_id mem text_eq
          byte_len len_utf8 starts_with is_digit is_ascii_hexdigit is_ascii_uppercase in
        refl)
      (unfold get lookup text_eq in refl)
