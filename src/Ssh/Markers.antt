-- ===== src/Ssh/Markers.antt =====
-- The two spellings of a host on the default port.
use ssh_mountmate.Base.{
  ℕ, ◌≡◌, refl, sym, subst, Bool, true, false, Option, none, some, List, [], ◌∷◌, ◌++◌, arith,
  if◌then◌else◌,
}
use ssh_mountmate.Text.{
  Text, codes, text_eq, text_eq_sound, is_empty, starts_with, strip_suffix, strip_prefix, contains,
}
use ssh_mountmate.Text.Affixes.{strip_suffix-append}
use ssh_mountmate.Ssh.{known_hosts_marker_matches, is_plain, bracketed, after_bracket}

no_bracket :
    (s p : Text) → starts_with s (codes "[") ≡ false → after_bracket (strip_suffix s p) ≡ none
unfolding strip_suffix starts_with strip_prefix
no_bracket [] p h = go (is_empty p)
  where
    go : (b : Bool) → after_bracket (if b then some [] else none) ≡ none
    go true = refl
    go false = refl
no_bracket (c ∷ s) p h = go (text_eq (c ∷ s) p) (strip_suffix s p)
  where
    go :
        (b : Bool) (o : Option Text)
        → after_bracket (if b then some [] else elim o [ none ↦ none | some r ↦ some (c ∷ r) ])
          ≡ none
    go true o = refl
    go false none = refl
    go false (some r) = ground arith

bracketed_host :
    (host : Text) → after_bracket (strip_suffix (bracketed host) (codes "]:22")) ≡ some host
bracketed_host host =
    rw (strip_suffix-append (codes "[" ++ host) (codes "]:22")) (unfold strip_prefix in refl)

module _ (decode_base64 : Text → Option (List ℕ))
    (verify_hmac : List ℕ → Text → List ℕ → Bool) where
  -- For a host that starts with neither `[` nor `|1|` and has no colon, the markers `host` and
  -- `[host]:22` match the same patterns, hashed or not.
  pub default_port_markers :
      (host value : Text)
      → starts_with host (codes "[") ≡ false
      → contains host (codes ":") ≡ false
      → starts_with host (codes "|1|") ≡ false
      → known_hosts_marker_matches decode_base64 verify_hmac value host
        ≡ known_hosts_marker_matches decode_base64 verify_hmac value (bracketed host)
  unfolding known_hosts_marker_matches is_plain
  default_port_markers host value b c d =
      let other : is_plain decode_base64 verify_hmac (bracketed host) ≡ false =
        unfold starts_with in refl in
      let plain : is_plain decode_base64 verify_hmac host ≡ true = rw b (rw c refl) in
      let hashed : Text → Type 0 = λ t. starts_with t (codes "|1|") ≡ false in
      let at_host : text_eq value host ≡ true → hashed value =
        λ e. subst hashed (sym (text_eq_sound value host e)) d in
      let at_bracketed : text_eq value (bracketed host) ≡ true → hashed value = λ e.
        subst hashed (sym (text_eq_sound value (bracketed host) e)) (unfold starts_with in refl) in
      rw (no_bracket host (codes "]:22") b)
        (rw (bracketed_host host) (rw other (rw plain (ground (arith, at_host, at_bracketed)))))
