-- ===== src/Manifest/Release.antt =====
-- What holds of a release that `verify_release_manifest` accepts.
use ssh_mountmate.Base.{
  ℕ, ◌≡◌, subst, Bool, true, List, map, length, All, Result, ok, bind-ok, then-ok, ok-injective,
  ◌>>◌,
}
use ssh_mountmate.Text.{Text}
use ssh_mountmate.Model.Tags.{distinct}
use ssh_mountmate.Manifest.{
  Crates, PublishedAsset, SignedUpdateManifestV1, UpdateTrustError, verify_release_manifest,
  verify_release_manifest_identity, validate_published_assets,
}
use ssh_mountmate.Manifest.Trust.{
  IsSigned, IsValid, IsOfRelease, verify_release_manifest_identity-IsSigned,
}
use ssh_mountmate.Manifest.Published.{IsListed, validate_published_assets-IsListed}

module _ {K : Type 0} (crates : Crates K) where
  -- What a release must be: the manifest is read from the bytes, a registered key of its identifier
  -- verifies their signature, it is valid, its version and channel are those of the release, and
  -- the published assets are as many as the signed ones, all different, and each listed.
  abbrev pub IsTrusted :
      List ℕ
      → List ℕ
      → List (Text × K)
      → Text
      → Bool
      → List PublishedAsset
      → SignedUpdateManifestV1
      → Type 0
  IsTrusted manifest_bytes signature_bytes keys release_tag prerelease published manifest =
      (crates.from_slice manifest_bytes ≡ ok manifest)
      × IsSigned crates manifest_bytes signature_bytes keys manifest
      × IsValid crates manifest
      × IsOfRelease manifest release_tag prerelease
      × (length published ≡ length manifest.assets)
      × (distinct (map (λ p. p.name) published) ≡ true)
      × All (IsListed crates manifest.assets release_tag) published

  -- If a release is accepted, the manifest is the one in the bytes; a registered key of its
  -- identifier verifies the signature on these bytes; it lists the six canonical assets, each with a
  -- size and a digest, under a canonical version whose channel fits; tag and channel are those of
  -- the release; and the published assets are as many, all different, and agree with the signed
  -- ones in size, digest and address.
  pub verify_release_manifest-IsTrusted :
      (manifest_bytes signature_bytes : List ℕ) (keys : List (Text × K)) (release_tag : Text)
      (prerelease : Bool) (published : List PublishedAsset) (manifest : SignedUpdateManifestV1)
      → verify_release_manifest crates manifest_bytes signature_bytes keys release_tag prerelease
          published
        ≡ ok manifest
      → IsTrusted manifest_bytes signature_bytes keys release_tag prerelease published manifest
  unfolding verify_release_manifest
  verify_release_manifest-IsTrusted manifest_bytes signature_bytes keys release_tag prerelease
        published manifest h =
      let identity =
        verify_release_manifest_identity crates manifest_bytes signature_bytes keys release_tag
          prerelease in
      let checked : SignedUpdateManifestV1 → Result UpdateTrustError SignedUpdateManifestV1 =
        λ m. validate_published_assets crates m release_tag published >> ok m in
      let i = bind-ok identity checked manifest h in
      let p =
        then-ok (validate_published_assets crates i.0 release_tag published) (ok i.0) manifest
          i.2 in
      let t =
        verify_release_manifest_identity-IsSigned crates manifest_bytes signature_bytes keys
          release_tag prerelease i.0 i.1 in
      let l = validate_published_assets-IsListed crates i.0 release_tag published p.0.1 in
      subst (IsTrusted manifest_bytes signature_bytes keys release_tag prerelease published)
        (ok-injective i.0 manifest p.1) (t.0, t.1, t.2, t.3, l.0, l.1, l.2)
