-- ===== src/Ssh/Pinned.antt =====
-- What `pin_first_seen_with` writes, and when.
use ssh_mountmate.Base.{
  ◌≡◌, refl, ap, ◌∙◌, Bool, true, false, not, ◌&&◌, Option, none, some, List, [], ◌∷◌, ◌++◌, arith,
  if◌then◌else◌, Result, ok, err, refuse_if, refuse_if-ok, ForOk, ForOk-ok, ForSome, ◌>>=◌, ◌>>◌,
  append-nil, subst, bind-ok, then-ok, ==_refl,
}
use ssh_mountmate.Text.{Text, codes, is_empty, starts_with, ends_with}
use ssh_mountmate.Ssh.{
  HostKeys, PinWorld, FileRead, SshError, pin_first_seen_with, pin_unless, pin_scanned, pin_locked,
  content_binds, managed_file_contains, known_hosts_marker, validate_host_alias, is_valid_host,
  validate_port, append_lines, end_line,
}

pub starts_with-append : (s t : Text) → starts_with (s ++ t) s ≡ true
unfolding starts_with
starts_with-append [] t = refl
starts_with-append (c ∷ s) t = rw ==_refl (starts_with-append s t)

starts_with-longer : (s t p : Text) → starts_with s p ≡ true → starts_with (s ++ t) p ≡ true
unfolding starts_with
starts_with-longer [] t [] h = ground arith
starts_with-longer [] t (d ∷ p) h = absurd (cc)
starts_with-longer (c ∷ s) t [] h = refl
starts_with-longer (c ∷ s) t (d ∷ p) h = ground (arith, starts_with-longer s t p)

module _ (keys : HostKeys) where
  kept_prefix :
      (old content : Text) (scanned : List Text)
      → starts_with content old ≡ true
      → starts_with (append_lines keys content scanned) old ≡ true
  kept_prefix old content [] h = h
  kept_prefix old content (line ∷ rest) h =
      kept_prefix old (content ++ (line ++ codes "\n")) rest
        (starts_with-longer content (line ++ codes "\n") old h)

  -- The old text, of which no line binds the marker, is the front of the new text.
  abbrev pub Extends : FileRead → Text → Text → Type 0
  Extends (FileRead.found content) marker written =
      (content_binds keys content marker ≡ false) × (starts_with written content ≡ true)
  Extends FileRead.not_found marker written = Unit
  Extends (FileRead.failed e) marker written = ⊥

  append-Extends :
      (content marker : Text) (scanned : List Text)
      → content_binds keys content marker ≡ false
      → Extends (FileRead.found content) marker (append_lines keys (end_line keys content) scanned)
  append-Extends content marker scanned h = (
    h,
    kept_prefix content (end_line keys content) scanned
        (go (not (is_empty content) && not (ends_with content (codes "\n")))),
  )
    where
      go : (b : Bool) → starts_with (if b then content ++ codes "\n" else content) content ≡ true
      go true = starts_with-append content (codes "\n")
      go false =
          subst (λ t. starts_with t content ≡ true) (append-nil content)
            (starts_with-append content [])

  abbrev pub Written : FileRead → Text → Option Text → Type 0
  Written locked marker o = ForSome (Extends locked marker) o

  pin_locked-Written :
      (locked : FileRead) (write : Result SshError Unit) (marker : Text) (scanned : List Text)
      → ForOk (Written locked marker) (pin_locked keys locked write marker scanned)
  unfolding pin_locked
  pin_locked-Written (FileRead.failed e) write marker scanned = tt
  pin_locked-Written FileRead.not_found (ok u) marker scanned = tt
  pin_locked-Written FileRead.not_found (err e) marker scanned = tt
  pin_locked-Written (FileRead.found content) write marker scanned =
      go (content_binds keys content marker) refl write
    where
      go :
          (b : Bool)
          → content_binds keys content marker ≡ b
          → (w : Result SshError Unit)
          → ForOk (Written (FileRead.found content) marker) (
              if b
              then ok none
              else (w >> ok (some (append_lines keys (end_line keys content) scanned))))
      go true h w = tt
      go false h (err e) = tt
      go false h (ok u) = append-Extends content marker scanned h

  -- What a run that writes has met.
  abbrev pub IsPinned : PinWorld → Text → Text → Text → Type 0
  IsPinned world host port written =
      (number : Text) × (scanned : List Text) × (is_valid_host host ≡ true)
      × (validate_port port ≡ ok number)
      × (managed_file_contains keys world.before (known_hosts_marker host number) ≡ ok false)
      × (world.scan ≡ ok scanned)
      × (is_empty scanned ≡ false)
      × Extends world.locked (known_hosts_marker host number) written

  unless-Extends :
      (world : PinWorld) (marker written : Text) (present : Bool)
      → pin_unless keys world marker present ≡ ok (some written)
      → (present ≡ false)
        × (scanned : List Text) × (world.scan ≡ ok scanned)
        × (is_empty scanned ≡ false)
        × Extends world.locked marker written
  unfolding pin_unless pin_scanned
  unless-Extends world marker written true h = absurd (cc)
  unless-Extends world marker written false h =
      let s =
        bind-ok world.scan (λ scanned. pin_scanned keys world marker scanned) (some written) h in
      let no_keys = SshError.command (codes "ssh-keyscan returned no usable host keys") in
      let locked = pin_locked keys world.locked world.write marker s.0 in
      let r =
        then-ok (refuse_if (is_empty s.0) no_keys) (world.lock >> locked) (some written) s.2 in
      let l = then-ok world.lock locked (some written) r.1 in
      (
        refl,
        s.0,
        s.1,
        refuse_if-ok (is_empty s.0) no_keys r.0.0 r.0.1,
        ForOk-ok (Written world.locked marker) locked
            (pin_locked-Written world.locked world.write marker s.0) l.1,
      )

  -- A text is written only for a valid host and a valid port, if the file held no binding of the
  -- host's marker before the scan and the scan yielded a key; the text then begins with what the
  -- file holds once it is locked, if it is there, and no line of that binds the marker either.
  pub pin_first_seen_with-IsPinned :
      (world : PinWorld) (host port written : Text)
      → pin_first_seen_with keys world host port ≡ ok (some written)
      → IsPinned world host port written
  unfolding pin_first_seen_with validate_host_alias
  pin_first_seen_with-IsPinned world host port written h =
      let next : Text → Bool → Result SshError (Option Text) =
        λ number present. pin_unless keys world (known_hosts_marker host number) present in
      let read : Text → Result SshError (Option Text) = λ number.
        managed_file_contains keys world.before (known_hosts_marker host number) >>= next number in
      let v = then-ok (validate_host_alias host) (validate_port port >>= read) (some written) h in
      let p = bind-ok (validate_port port) read (some written) v.1 in
      let marker = known_hosts_marker host p.0 in
      let m =
        bind-ok (managed_file_contains keys world.before marker) (next p.0) (some written) p.2 in
      let u = unless-Extends world marker written m.0 m.2 in
      (p.0, u.1, ground (arith, v.0.1), p.1, m.1 ∙ ap (λ b. ok b) u.0, u.2, u.3, u.4)

  -- Where the file already binds the marker of a valid host and a valid port, nothing is written,
  -- whatever a scan, the lock or a write would give.
  pub pin_first_seen_with-known :
      (world : PinWorld) (host port number content : Text)
      → is_valid_host host ≡ true
      → validate_port port ≡ ok number
      → world.before ≡ FileRead.found content
      → content_binds keys content (known_hosts_marker host number) ≡ true
      → pin_first_seen_with keys world host port ≡ ok none
  unfolding pin_first_seen_with validate_host_alias managed_file_contains pin_unless
  pin_first_seen_with-known world host port number content h p b c = rw h (rw p (rw b (rw c refl)))
