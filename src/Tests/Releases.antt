-- ===== src/Tests/Releases.antt =====
-- Two releases, of the versions 1.0.0 and 2.0.0.
use ssh_mountmate.Base.{
  ◌≡◌, refl, Bool, true, false, ◌||◌, not, none, some, List, [], ◌∷◌, if◌then◌else◌, ◌⊎◌, inl, inr,
}
use ssh_mountmate.Text.{Text, codes, text_eq, trim_by, trim_end_by, is_whitespace}
use ssh_mountmate.Releases.{GithubRelease, Versions, select_release_for_channel}
use ssh_mountmate.Releases.Selected.{IsLatest, select_release_for_channel-IsLatest}

-- The later version is `true`.
abbrev versions : Versions Bool
versions = record {
  parse = λ t.
      if text_eq t (codes "2.0.0")
      then some true
      else if text_eq t (codes "1.0.0")
      then some false
      else none;
  has_pre = λ v. false;
  ge = λ a b. a || not b;
}

ge_total : (a b : Bool) → ((a || not b) ≡ true) ⊎ ((b || not a) ≡ true)
ge_total true b = inl refl
ge_total false true = inr refl
ge_total false false = inl refl

ge_trans : (a b c : Bool) → (a || not b) ≡ true → (b || not c) ≡ true → (a || not c) ≡ true
ge_trans true b c h k = refl
ge_trans false true c h k = absurd (cc)
ge_trans false false c h k = k

abbrev release : Text → GithubRelease
release tag = record {
  tag_name = tag;
  name = [];
  html_url = [];
  body = [];
  draft = false;
  prerelease = false;
  assets = [];
}

abbrev releases : List GithubRelease
releases = release (codes "v1.0.0") ∷ release (codes "v2.0.0") ∷ release (codes "none") ∷ []

select_release_for_channel-IsLatest_example :
    IsLatest versions ge_total ge_trans
      (λ r. r.draft ≡ false)
      (codes "1.0.0")
      releases
      (release (codes "v2.0.0"))
select_release_for_channel-IsLatest_example =
    select_release_for_channel-IsLatest versions ge_total ge_trans (λ r. r.draft ≡ false)
      (codes "1.0.0") releases (release (codes "v2.0.0")) (refl, (refl, (refl, tt)))
      (unfold select_release_for_channel text_eq trim_by trim_end_by is_whitespace in refl)
