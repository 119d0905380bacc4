-- ===== src/Manifest/Published.antt =====
-- What holds of published assets that are accepted, and of the registry of trusted keys.
use ssh_mountmate.Base.{
  ◌≡◌, refl, ap, ◌∙◌, subst, true, false, not, some, List, [], ◌∷◌, ◌++◌, map, arith, length, ◌==◌,
  Bool-cases, inl, inr, Result, ok, ok_or, ok_or-ok, refuse_if, refuse_if-ok, bind-ok, then-ok,
  ok-injective, unless-ok, ◌>>=◌, ◌>>◌, All,
}
use ssh_mountmate.Text.{Text, codes, text_eq, text_eq_sound, text_eq_comm}
use ssh_mountmate.Dict.{mem, lookup}
use ssh_mountmate.Model.Tags.{distinct}
use ssh_mountmate.Manifest.{
  Crates, ManifestAsset, PublishedAsset, SignedUpdateManifestV1, TrustedUpdateKey, UpdateTrustError,
  find_asset, check_published, validate_published_assets, matches_signed, asset_url_matches,
  decode_key, check_fingerprint, read_key, read_keys, new_key_set, key_id_for, get, valid_key_id,
}

module _ {K : Type 0} (crates : Crates K) where
  -- A published asset that the manifest lists: the same size, the same digest, and the address of
  -- the release.
  abbrev pub IsListed : List ManifestAsset → Text → PublishedAsset → Type 0
  IsListed assets release_tag published =
      (signed : ManifestAsset) × (find_asset assets published.name ≡ some signed)
      × (published.size ≡ signed.size)
      × (published.digest ≡ codes "sha256:" ++ signed.sha256)
      × (asset_url_matches crates published.url release_tag published.name ≡ true)

  matches-IsListed :
      (assets : List ManifestAsset) (release_tag : Text) (published : PublishedAsset)
      (signed : ManifestAsset)
      → find_asset assets published.name ≡ some signed
      → matches_signed crates release_tag published signed ≡ true
      → IsListed assets release_tag published
  matches-IsListed assets release_tag published signed f m = (
    signed,
    f,
    ground arith,
    text_eq_sound published.digest (codes "sha256:" ++ signed.sha256) (ground arith),
    ground arith,
  )

  -- None of the names is one of the list.
  abbrev AreNew : List Text → List PublishedAsset → Type 0
  AreNew names published = All (λ p. mem p.name names ≡ false) published

  later_new :
      (name : Text) (names : List Text) (rest : List PublishedAsset)
      → AreNew (name ∷ names) rest
      → AreNew names rest × (mem name (map (λ p. p.name) rest) ≡ false)
  unfolding mem
  later_new name names [] h = (tt, refl)
  later_new name names (p ∷ rest) h =
      let r = later_new name names rest h.1 in
      ((ground (arith, h.0), r.0), ground (arith, h.0, r.1, text_eq_comm name p.name))

  check_published-ok :
      (assets : List ManifestAsset) (release_tag : Text) (names : List Text)
      (published : List PublishedAsset) (u : Unit)
      → check_published crates assets release_tag names published ≡ ok u
      → All (IsListed assets release_tag) published
        × AreNew names published
        × (distinct (map (λ p. p.name) published) ≡ true)
  unfolding check_published distinct
  check_published-ok assets release_tag names [] u h = (tt, tt, refl)
  check_published-ok assets release_tag names (p ∷ rest) u h =
      let twice = UpdateTrustError.release_asset_mismatch (codes "duplicate asset " ++ p.name) in
      let other = UpdateTrustError.release_asset_mismatch p.name in
      let more = check_published crates assets release_tag (p.name ∷ names) rest in
      let compare : ManifestAsset → Result UpdateTrustError Unit =
        λ signed. refuse_if (not (matches_signed crates release_tag p signed)) other >> more in
      let n =
        then-ok (refuse_if (mem p.name names) twice)
          (ok_or (find_asset assets p.name) other >>= compare) u h in
      let f = bind-ok (ok_or (find_asset assets p.name) other) compare u n.1 in
      let m =
        then-ok (refuse_if (not (matches_signed crates release_tag p f.0)) other) more u f.2 in
      let r = check_published-ok assets release_tag (p.name ∷ names) rest u m.1 in
      let q = refuse_if-ok (not (matches_signed crates release_tag p f.0)) other m.0.0 m.0.1 in
      let l = later_new p.name names rest r.1 in
      (
        (
          matches-IsListed assets release_tag p f.0
              (ok_or-ok (find_asset assets p.name) other f.0 f.1) (ground arith),
          r.0,
        ),
        (refuse_if-ok (mem p.name names) twice n.0.0 n.0.1, l.0),
        rw l.1 r.2,
      )

  -- Published assets that are accepted are as many as the signed ones, no two have the same name,
  -- and each is listed in the manifest with its size, its digest and the address of the release.
  pub validate_published_assets-IsListed :
      (manifest : SignedUpdateManifestV1) (release_tag : Text) (published : List PublishedAsset)
      → validate_published_assets crates manifest release_tag published ≡ ok tt
      → (length published ≡ length manifest.assets)
        × (distinct (map (λ p. p.name) published) ≡ true)
        × All (IsListed manifest.assets release_tag) published
  unfolding validate_published_assets
  validate_published_assets-IsListed manifest release_tag published h =
      elim (Bool-cases (length published == length manifest.assets)) [
        | inl e ↦
            let r =
              check_published-ok manifest.assets release_tag [] published tt (ground (arith, h)) in
            (ground arith, r.2, r.0)
        | inr e ↦ absurd (ground arith)
      ]

  -- An identifier with the key whose fingerprint it is.
  abbrev pub IsFingerprinted : Text × K → Type 0
  IsFingerprinted p = (p.0 ≡ key_id_for crates p.1) × (valid_key_id p.0 ≡ true)

  fingerprint-ok :
      (key : TrustedUpdateKey) (verifying : K) (p : Text × K)
      → valid_key_id key.key_id ≡ true
      → check_fingerprint crates key verifying ≡ ok p
      → IsFingerprinted p
  unfolding check_fingerprint
  fingerprint-ok key verifying p v h =
      let other = not (text_eq key.key_id (key_id_for crates verifying)) in
      let wrong = UpdateTrustError.invalid_key_registry (
        codes "key_id "
        ++ (key.key_id
            ++ (codes " does not match public key fingerprint " ++ key_id_for crates verifying))) in
      let r = unless-ok other wrong (key.key_id, verifying) p h in
      subst IsFingerprinted r.1
        (text_eq_sound key.key_id (key_id_for crates verifying) (ground (arith, r.0)), v)

  read_key-ok :
      (key : TrustedUpdateKey) (ids : List Text) (p : Text × K)
      → read_key crates key ids ≡ ok p
      → IsFingerprinted p
  unfolding read_key
  read_key-ok key ids p h =
      let invalid = UpdateTrustError.invalid_key_registry (codes "invalid key_id " ++ key.key_id) in
      let twice = UpdateTrustError.invalid_key_registry (codes "duplicate key_id " ++ key.key_id) in
      let last = decode_key crates key >>= check_fingerprint crates key in
      let v =
        then-ok (refuse_if (not (valid_key_id key.key_id)) invalid)
          (refuse_if (mem key.key_id ids) twice >> last) p h in
      let t = then-ok (refuse_if (mem key.key_id ids) twice) last p v.1 in
      let d = bind-ok (decode_key crates key) (check_fingerprint crates key) p t.1 in
      let e = refuse_if-ok (not (valid_key_id key.key_id)) invalid v.0.0 v.0.1 in
      fingerprint-ok key d.0 p (ground arith) d.2

  read_keys-ok :
      (records : List TrustedUpdateKey) (ids : List Text) (keys : List (Text × K))
      → read_keys crates records ids ≡ ok keys
      → All IsFingerprinted keys
  unfolding read_keys
  read_keys-ok [] ids keys h = subst (All IsFingerprinted) (ok-injective [] keys h) tt
  read_keys-ok (r ∷ rest) ids keys h =
      let more : Text × K → Result UpdateTrustError (List (Text × K)) =
        λ p. read_keys crates rest (r.key_id ∷ ids) >>= λ ks. ok (p ∷ ks) in
      let p = bind-ok (read_key crates r ids) more keys h in
      let q = bind-ok (read_keys crates rest (r.key_id ∷ ids)) (λ ks. ok (p.0 ∷ ks)) keys p.2 in
      let same : p.0 ∷ q.0 ≡ keys = ok-injective (p.0 ∷ q.0) keys q.2 in
      subst (All IsFingerprinted) same
        (read_key-ok r ids p.0 p.1, read_keys-ok rest (r.key_id ∷ ids) q.0 q.1)

  lookup-All :
      (keys : List (Text × K)) (id : Text) (key : K)
      → All IsFingerprinted keys
      → lookup id keys ≡ some key
      → IsFingerprinted (id, key)
  unfolding lookup
  lookup-All [] id key h g = absurd (cc)
  lookup-All ((i, k) ∷ rest) id key h g = elim (Bool-cases (text_eq i id)) [
    | inl e ↦
        let same : k ≡ key = ground arith in
        subst IsFingerprinted (ap (λ j. (j, k)) (text_eq_sound i id e) ∙ ap (λ x. (id, x)) same) h.0
    | inr e ↦ lookup-All rest id key h.1 (ground arith)
  ]

  -- A key that a registry yields for an identifier has this identifier as its fingerprint, and the
  -- identifier has the canonical form.
  pub get-new_key_set :
      (records : List TrustedUpdateKey) (keys : List (Text × K)) (id : Text) (key : K)
      → new_key_set crates records ≡ ok keys
      → get crates keys id ≡ some key
      → (id ≡ key_id_for crates key) × (valid_key_id id ≡ true)
  unfolding new_key_set get
  get-new_key_set records keys id key h g =
      lookup-All keys id key (read_keys-ok records [] keys h) g
