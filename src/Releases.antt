-- ===== src/Releases.antt =====
-- crates/mountmate-core/src/update.rs: which release is offered.
pub mod Selected
use ssh_mountmate.Base.{
  ℕ, ◌≡◌, refl, ap, subst, Bool, true, false, ◌&&◌, ◌||◌, not, Option, none, some, List, [], ◌∷◌,
  ◌++◌, Result, ok, err, All, all, ForSome, leb, length, if◌then◌else◌, ◌==◌, ok_or, ◌>>=◌,
  refuse_if, bind-ok, ForOk, ForOk-ok, Bool-cases, inl, inr, ◌⊎◌, ◌>>◌,
}
use ssh_mountmate.Manifest.{UpdateTrustError}
use ssh_mountmate.Text.{Text, codes, trim, trim_start_by, split_char, is_empty, is_digit}

pub record ReleaseAsset : Type 0 where
  pub name : Text
  pub url : Text
  pub digest : Text
  pub size : ℕ

pub record GithubRelease : Type 0 where
  pub tag_name : Text
  pub name : Text
  pub html_url : Text
  pub body : Text
  pub draft : Bool
  pub prerelease : Bool
  pub assets : List ReleaseAsset

-- A `UpdateValidationError` is its text.
pub data UpdateError : Type 0 where
  validation request : Text → UpdateError
  missing_release_tag : UpdateError
  invalid_version io : Text → UpdateError
  invalid_redirect_host download_too_large : UpdateError
  size_mismatch : ℕ → ℕ → UpdateError
  digest_mismatch too_many_archive_files expanded_archive_too_large : UpdateError
  unsafe_archive_path archive_symlink archive_special_file : Text → UpdateError
  duplicate_archive_path archive : Text → UpdateError
  trust : UpdateTrustError → UpdateError

-- `semver::Version`: parsing, whether there is a pre-release part, and the order.
pub record Versions (V : Type 0) : Type 0 where
  pub parse : Text → Option V
  pub has_pre : V → Bool
  pub ge : V → V → Bool

-- `find(['-', '+'])` and `split_at`, or the whole text and nothing.
unfoldable pub split_suffix : Text → Text × Text
split_suffix [] = ([], [])
split_suffix (c ∷ s) =
    let rest = split_suffix s in
    if c == b'-' || c == b'+' then ([], c ∷ s) else (c ∷ rest.0, rest.1)

-- Up to three parts of the release, each a number.
abbrev pub normalized : List Text → Text → Option Text
normalized [] suffix = none
normalized (major ∷ []) suffix = some (major ++ (codes ".0.0" ++ suffix))
normalized (major ∷ minor ∷ []) suffix =
    some (major ++ (codes "." ++ (minor ++ (codes ".0" ++ suffix))))
normalized (major ∷ minor ∷ patch ∷ []) suffix =
    some (major ++ (codes "." ++ (minor ++ (codes "." ++ (patch ++ suffix)))))
normalized (major ∷ minor ∷ patch ∷ more ∷ rest) suffix = none

abbrev pub is_number : Text → Bool
is_number part = not (is_empty part) && all is_digit part

module _ {V : Type 0} (versions : Versions V) where
  abbrev pub parse_normalized : Text → Option Text → Result UpdateError V
  parse_normalized value none = err (invalid_version value)
  parse_normalized value (some text) = ok_or (versions.parse text) (invalid_version value)

  -- A version without its second or third number is completed by zeros.
  abbrev pub parse_loosely : Text → Text × Text → Result UpdateError V
  parse_loosely value (release, suffix) = do
    refuse_if (not (all is_number (split_char b'.' release))) (invalid_version value)
    parse_normalized value (normalized (split_char b'.' release) suffix)

  abbrev pub parsed : Text → Option V → Result UpdateError V
  parsed value (some version) = ok version
  parsed value none = parse_loosely value (split_suffix value)

  unfoldable pub parse_version : Text → Result UpdateError V
  unfolding split_suffix split_char trim trim_start_by is_digit
  parse_version text =
      let value = trim_start_by (λ c. c == b'v' || c == b'V') (trim text) in
      parsed value (versions.parse value)

  unfoldable pub current_is_prerelease : Text → Result UpdateError Bool
  unfolding parse_version
  current_is_prerelease current_version = do
    version ← parse_version current_version
    ok (versions.has_pre version)

  abbrev pub offered : Bool → GithubRelease → Result UpdateError V → Option (V × GithubRelease)
  offered include_prereleases release (err e) = none
  offered include_prereleases release (ok version) =
      if include_prereleases || not (release.prerelease || versions.has_pre version)
      then some (version, release)
      else none

  -- The `filter` and the `filter_map` for one release.
  unfoldable pub candidate : Bool → GithubRelease → Option (V × GithubRelease)
  unfolding parse_version
  candidate include_prereleases release =
      if release.draft
      then none
      else offered include_prereleases release (parse_version release.tag_name)

  abbrev pub cons_some :
      Option (V × GithubRelease) → List (V × GithubRelease) → List (V × GithubRelease)
  cons_some none rest = rest
  cons_some (some c) rest = c ∷ rest

  unfoldable pub candidates : Bool → List GithubRelease → List (V × GithubRelease)
  unfolding candidate
  candidates include_prereleases [] = []
  candidates include_prereleases (release ∷ releases) =
      cons_some (candidate include_prereleases release) (candidates include_prereleases releases)

  -- `sort_by` with the later version first, which keeps the order of equal versions.
  abbrev pub insert : V × GithubRelease → List (V × GithubRelease) → List (V × GithubRelease)
  insert c [] = c ∷ []
  insert c (d ∷ rest) =
      let later = insert c rest in if versions.ge c.0 d.0 then c ∷ d ∷ rest else d ∷ later

  abbrev pub sort : List (V × GithubRelease) → List (V × GithubRelease)
  sort [] = []
  sort (c ∷ rest) = insert c (sort rest)

  abbrev pub releases_of : List (V × GithubRelease) → List GithubRelease
  releases_of [] = []
  releases_of (c ∷ rest) = c.1 ∷ releases_of rest

  abbrev pub unless_empty : List (V × GithubRelease) → Result UpdateError (List GithubRelease)
  unless_empty [] = err missing_release_tag
  unless_empty (c ∷ rest) = ok (releases_of (c ∷ rest))

  unfoldable pub release_candidates_for_channel :
      Text → List GithubRelease → Result UpdateError (List GithubRelease)
  unfolding current_is_prerelease candidates
  release_candidates_for_channel current_version releases = do
    include_prereleases ← current_is_prerelease current_version
    unless_empty (sort (candidates include_prereleases releases))

  abbrev pub first_of : List GithubRelease → Result UpdateError GithubRelease
  first_of [] = err missing_release_tag
  first_of (release ∷ rest) = ok release

  unfoldable pub select_release_for_channel :
      Text → List GithubRelease → Result UpdateError GithubRelease
  unfolding release_candidates_for_channel
  select_release_for_channel current_version releases = do
    candidates ← release_candidates_for_channel current_version releases
    first_of candidates
