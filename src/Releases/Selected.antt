-- ===== src/Releases/Selected.antt =====
-- The release that is selected is the latest of those that the channel offers.
use ssh_mountmate.Base.{
  ◌≡◌, refl, Bool, true, false, ◌||◌, not, Option, none, some, List, [], ◌∷◌, Result, ok, err, All,
  ForSome, ForOk, ForOk-ok, ◌>>=◌, if◌then◌else◌, Bool-cases, inl, inr, ◌⊎◌,
}
use ssh_mountmate.Text.{Text}
use ssh_mountmate.Releases.{
  GithubRelease, UpdateError, Versions, parse_version, offered, current_is_prerelease, candidate,
  cons_some, candidates, insert, sort, unless_empty, first_of, select_release_for_channel,
}

module _ {V : Type 0} (versions : Versions V)
    (ge_total : (a b : V) → (versions.ge a b ≡ true) ⊎ (versions.ge b a ≡ true))
    (ge_trans : (a b c : V)
      → versions.ge a b ≡ true
      → versions.ge b c ≡ true
      → versions.ge a c ≡ true) where
  abbrev IsAbove : V → V × GithubRelease → Type 0
  IsAbove v c = versions.ge v c.0 ≡ true

  All-insert :
      (P : V × GithubRelease → Type 0) (c : V × GithubRelease) (rest : List (V × GithubRelease))
      → P c
      → All P rest
      → All P (insert versions c rest)
  All-insert P c [] h k = (h, tt)
  All-insert P c (d ∷ rest) h k = go (versions.ge c.0 d.0) (All-insert P c rest h k.1)
    where
      go :
          (b : Bool)
          → All P (insert versions c rest)
          → All P (if b then c ∷ d ∷ rest else d ∷ insert versions c rest)
      go true l = (h, k)
      go false l = (k.0, l)

  All-sort :
      (P : V × GithubRelease → Type 0) (cs : List (V × GithubRelease))
      → All P cs
      → All P (sort versions cs)
  All-sort P [] h = tt
  All-sort P (c ∷ rest) h = All-insert P c (sort versions rest) h.0 (All-sort P rest h.1)

  All-of-insert :
      (P : V × GithubRelease → Type 0) (c : V × GithubRelease) (rest : List (V × GithubRelease))
      → All P (insert versions c rest)
      → P c × All P rest
  All-of-insert P c [] h = h
  All-of-insert P c (d ∷ rest) h = go (versions.ge c.0 d.0) (λ l. All-of-insert P c rest l) h
    where
      go :
          (b : Bool)
          → (All P (insert versions c rest) → P c × All P rest)
          → All P (if b then c ∷ d ∷ rest else d ∷ insert versions c rest)
          → P c × All P (d ∷ rest)
      go true later l = l
      go false later l = let (m, n) = later l.1 in (m, (l.0, n))

  All-of-sort :
      (P : V × GithubRelease → Type 0) (cs : List (V × GithubRelease))
      → All P (sort versions cs)
      → All P cs
  All-of-sort P [] h = tt
  All-of-sort P (c ∷ rest) h =
      let (m, n) = All-of-insert P c (sort versions rest) h in (m, All-of-sort P rest n)

  -- The first is above all.
  abbrev HasTop : List (V × GithubRelease) → Type 0
  HasTop [] = Unit
  HasTop (c ∷ rest) = All (IsAbove c.0) rest

  All-IsAbove :
      (v w : V) (cs : List (V × GithubRelease))
      → versions.ge v w ≡ true
      → All (IsAbove w) cs
      → All (IsAbove v) cs
  All-IsAbove v w [] h k = tt
  All-IsAbove v w (c ∷ cs) h k = (ge_trans v w c.0 h k.0, All-IsAbove v w cs h k.1)

  insert-HasTop :
      (c : V × GithubRelease) (cs : List (V × GithubRelease))
      → HasTop cs
      → HasTop (insert versions c cs)
  insert-HasTop c [] h = tt
  insert-HasTop c (d ∷ rest) h = elim (Bool-cases (versions.ge c.0 d.0)) [
    | inl t ↦ rw t (t, All-IsAbove c.0 d.0 rest t h)
    | inr f ↦ rw f (All-insert (IsAbove d.0) c rest (below f (ge_total c.0 d.0)) h)
  ]
    where
      below :
          versions.ge c.0 d.0 ≡ false
          → (versions.ge c.0 d.0 ≡ true) ⊎ (versions.ge d.0 c.0 ≡ true)
          → versions.ge d.0 c.0 ≡ true
      below f (inl t) = absurd (cc)
      below f (inr t) = t

  sort-HasTop : (cs : List (V × GithubRelease)) → HasTop (sort versions cs)
  sort-HasTop [] = tt
  sort-HasTop (c ∷ rest) = insert-HasTop c (sort versions rest) (sort-HasTop rest)

  -- What makes a release one that the channel offers.
  abbrev IsOffered : Bool → GithubRelease → V × GithubRelease → Type 0
  IsOffered include_prereleases release c =
      (c.1 ≡ release)
      × (release.draft ≡ false)
      × (parse_version versions release.tag_name ≡ ok c.0)
      × (include_prereleases ≡ false
          → (release.prerelease ≡ false) × (versions.has_pre c.0 ≡ false))

  candidate_lem :
      (include_prereleases : Bool) (release : GithubRelease)
      → ForSome
          (IsOffered include_prereleases release)
          (candidate versions include_prereleases release)
  unfolding candidate
  candidate_lem include_prereleases release = undrafted release.draft refl
    where
      read :
          release.draft ≡ false
          → (r : Result UpdateError V) → parse_version versions release.tag_name ≡ r
          → ForSome
              (IsOffered include_prereleases release)
              (offered versions include_prereleases release r)
      read f (err e) h = tt
      read f (ok version) h =
          admitted include_prereleases release.prerelease (versions.has_pre version) refl refl refl
        where
          admitted :
              (b p q : Bool)
              → include_prereleases ≡ b
              → release.prerelease ≡ p
              → versions.has_pre version ≡ q
              → ForSome
                  (IsOffered include_prereleases release)
                  (if b || not (p || q) then some (version, release) else none)
          admitted true p q a e g = (refl, f, h, λ k. absurd (cc))
          admitted false true q a e g = tt
          admitted false false true a e g = tt
          admitted false false false a e g = (refl, f, h, λ k. (e, g))

      undrafted :
          (b : Bool)
          → release.draft ≡ b
          → ForSome (IsOffered include_prereleases release) (
              if b
              then none
              else offered versions include_prereleases release
                  (parse_version versions release.tag_name))
      undrafted true f = tt
      undrafted false f = read f (parse_version versions release.tag_name) refl

  candidates_lem :
      (P : V × GithubRelease → Type 0) (include_prereleases : Bool) (releases : List GithubRelease)
      → All (λ release. ForSome P (candidate versions include_prereleases release)) releases
      → All P (candidates versions include_prereleases releases)
  unfolding candidates
  candidates_lem P include_prereleases [] h = tt
  candidates_lem P include_prereleases (release ∷ releases) h =
      go (candidate versions include_prereleases release) h.0
        (candidates_lem P include_prereleases releases h.1)
    where
      go :
          (o : Option (V × GithubRelease))
          → ForSome P o
          → All P (candidates versions include_prereleases releases)
          → All P (cons_some versions o (candidates versions include_prereleases releases))
      go none k l = l
      go (some c) k l = (k, l)

  All-of-candidates :
      (P : V × GithubRelease → Type 0) (include_prereleases : Bool) (releases : List GithubRelease)
      → All P (candidates versions include_prereleases releases)
      → All (λ release. ForSome P (candidate versions include_prereleases release)) releases
  unfolding candidates
  All-of-candidates P include_prereleases [] h = tt
  All-of-candidates P include_prereleases (release ∷ releases) h =
      go (candidate versions include_prereleases release)
        (λ l. All-of-candidates P include_prereleases releases l) h
    where
      go :
          (o : Option (V × GithubRelease))
          → (All P (candidates versions include_prereleases releases)
              → All (λ r. ForSome P (candidate versions include_prereleases r)) releases)
          → All P (cons_some versions o (candidates versions include_prereleases releases))
          → ForSome P o × All (λ r. ForSome P (candidate versions include_prereleases r)) releases
      go none later k = (tt, later k)
      go (some c) later k = (k.0, later k.1)

  each :
      (P : GithubRelease → Type 0) (include_prereleases : Bool) (releases : List GithubRelease)
      → All P releases
      → All
          (λ release.
            ForSome
              (λ c. P c.1 × IsOffered include_prereleases c.1 c)
              (candidate versions include_prereleases release))
          releases
  each P include_prereleases [] h = tt
  each P include_prereleases (release ∷ releases) h = (
    go (candidate versions include_prereleases release) (candidate_lem include_prereleases release),
    each P include_prereleases releases h.1,
  )
    where
      go :
          (o : Option (V × GithubRelease))
          → ForSome (IsOffered include_prereleases release) o
          → ForSome (λ c. P c.1 × IsOffered include_prereleases c.1 c) o
      go none k = tt
      go (some c) k = rw k.0 (h.0, (refl, k.1, k.2, k.3))

  -- The release is offered, has every property that all releases have, and none that is offered has
  -- a later version.
  abbrev pub IsLatest :
      (GithubRelease → Type 0) → Text → List GithubRelease → GithubRelease → Type 0
  IsLatest P current_version releases release =
      (include_prereleases : Bool) × (version : V) × (current_is_prerelease versions current_version
        ≡ ok include_prereleases)
      × P release
      × IsOffered include_prereleases release (version, release)
      × All (λ other. ForSome (IsAbove version) (candidate versions include_prereleases other))
          releases

  latest_lem :
      (P : GithubRelease → Type 0) (current_version : Text) (releases : List GithubRelease)
      (include_prereleases : Bool)
      → All P releases
      → current_is_prerelease versions current_version ≡ ok include_prereleases
      → ForOk (IsLatest P current_version releases) (
          unless_empty versions (sort versions (candidates versions include_prereleases releases))
          >>= first_of versions)
  latest_lem P current_version releases include_prereleases h e =
      go (sort versions (candidates versions include_prereleases releases))
        (All-sort (λ c. P c.1 × IsOffered include_prereleases c.1 c)
          (candidates versions include_prereleases releases)
          (candidates_lem (λ c. P c.1 × IsOffered include_prereleases c.1 c) include_prereleases
            releases (each P include_prereleases releases h)))
        (sort-HasTop (candidates versions include_prereleases releases))
        (λ v a.
          All-of-candidates (IsAbove v) include_prereleases releases
            (All-of-sort (IsAbove v) (candidates versions include_prereleases releases) a))
    where
      itself : (v : V) → versions.ge v v ≡ true
      itself v = either (ge_total v v)
        where
          either : (versions.ge v v ≡ true) ⊎ (versions.ge v v ≡ true) → versions.ge v v ≡ true
          either (inl t) = t
          either (inr t) = t

      go :
          (cs : List (V × GithubRelease))
          → All (λ c. P c.1 × IsOffered include_prereleases c.1 c) cs
          → HasTop cs
          → ((v : V)
              → All (IsAbove v) cs
              → All
                  (λ other. ForSome (IsAbove v) (candidate versions include_prereleases other))
                  releases)
          → ForOk
              (IsLatest P current_version releases)
              (unless_empty versions cs >>= first_of versions)
      go [] k top back = tt
      go (c ∷ cs) k top back =
          (include_prereleases, c.0, e, k.0.0, k.0.1, back c.0 (itself c.0, top))

  -- The release that is selected is one of the releases (it has every property that all of them
  -- have), it is no draft, it is no pre-release unless the current version is one, and no release
  -- that is offered has a later version. It is assumed that the order of versions is total and
  -- transitive.
  pub select_release_for_channel-IsLatest :
      (P : GithubRelease → Type 0) (current_version : Text) (releases : List GithubRelease)
      (release : GithubRelease)
      → All P releases
      → select_release_for_channel versions current_version releases ≡ ok release
      → IsLatest P current_version releases release
  unfolding select_release_for_channel
  select_release_for_channel-IsLatest P current_version releases release h e =
      go (current_is_prerelease versions current_version) refl e
    where
      go :
          (r : Result UpdateError Bool)
          → current_is_prerelease versions current_version ≡ r
          → ((r >>= λ b. unless_empty versions (sort versions (candidates versions b releases)))
              >>= first_of versions)
            ≡ ok release
          → IsLatest P current_version releases release
      go (err error) k l = absurd (cc)
      go (ok b) k l =
          ForOk-ok (IsLatest P current_version releases) _
            (latest_lem P current_version releases b h k) l
