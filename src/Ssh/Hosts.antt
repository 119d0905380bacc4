-- ===== src/Ssh/Hosts.antt =====
-- `known_hosts_marker` and the matching of markers with the host patterns of a line.
use ssh_mountmate.Base.{
  ℕ, Bool, true, false, not, ◌&&◌, ◌||◌, Option, none, some, List, [], ◌∷◌, ◌++◌, any, ◌==◌,
  if◌then◌else◌,
}
use ssh_mountmate.Text.{
  Text, codes, text_eq, is_empty, trim, starts_with, strip_prefix, strip_suffix, contains,
  split_char, split_whitespace,
}

unfoldable pub known_hosts_marker : Text → Text → Text
known_hosts_marker host port =
    if is_empty (trim port) || text_eq port (codes "22")
    then host
    else codes "[" ++ (host ++ (codes "]:" ++ port))

-- `[host]:22`
abbrev pub bracketed : Text → Text
bracketed host = codes "[" ++ (host ++ codes "]:22")

abbrev pub prepend : ℕ → Option (Text × Text) → Option (Text × Text)
prepend c none = none
prepend c (some (s, t)) = some (c ∷ s, t)

-- `split_once` with a test on characters.
unfoldable pub split_once : (ℕ → Bool) → Text → Option (Text × Text)
split_once p [] = none
split_once p (c ∷ s) = let rest = split_once p s in if p c then some ([], s) else prepend c rest

-- The host behind `[` of a marker that ends in `]:22`.
abbrev pub after_bracket : Option Text → Option Text
after_bracket none = none
after_bracket (some s) = strip_prefix s (codes "[")

module _ (decode_base64 : Text → Option (List ℕ))
    (verify_hmac : List ℕ → Text → List ℕ → Bool) where
  abbrev pub verify_tag : Text → Option (List ℕ) → Option (List ℕ) → Bool
  verify_tag marker (some salt) (some tag) = verify_hmac salt marker tag
  verify_tag marker _ _ = false

  abbrev pub hashed_parts : Text → Option (Text × Text) → Bool
  hashed_parts marker none = false
  hashed_parts marker (some (salt, tag)) =
      verify_tag marker (decode_base64 salt) (decode_base64 tag)

  abbrev pub hashed_value : Text → Option Text → Bool
  hashed_value marker none = false
  hashed_value marker (some value) = hashed_parts marker (split_once (λ c. c == b'|') value)

  unfoldable pub hashed_host_matches : Text → Text → Bool
  unfolding split_once
  hashed_host_matches value marker = hashed_value marker (strip_prefix value (codes "|1|"))

  abbrev pub hashed_some : Text → Option Text → Bool
  hashed_some value none = false
  hashed_some value (some host) = hashed_host_matches value host

  -- The marker names a host with no bracket and no colon.
  unfoldable pub is_plain : Text → Bool
  is_plain marker = not (starts_with marker (codes "[")) && not (contains marker (codes ":"))

  unfoldable pub known_hosts_marker_matches : Text → Text → Bool
  unfolding hashed_host_matches is_plain
  known_hosts_marker_matches value marker =
      let host = after_bracket (strip_suffix marker (codes "]:22")) in
      if text_eq value marker
      then true
      else if starts_with value (codes "|1|")
      then hashed_host_matches value marker
        || (if is_plain marker
            then hashed_host_matches value (bracketed marker)
            else hashed_some value host)
      else elim host [
        | some h ↦ text_eq value h
        | none ↦ is_plain marker && text_eq value (bracketed marker)
      ]

  abbrev pub any_host : Text → List Text → Bool
  any_host marker hosts = any (λ host. known_hosts_marker_matches host marker) hosts

  -- The patterns of a line stand behind its `@` mark, where it has one.
  abbrev pub line_hosts : List Text → Option Text
  line_hosts [] = none
  line_hosts (first ∷ []) = if starts_with first (codes "@") then none else some first
  line_hosts (first ∷ second ∷ _) = some (if starts_with first (codes "@") then second else first)

  abbrev pub matches_hosts : Text → Option Text → Bool
  matches_hosts marker none = false
  matches_hosts marker (some hosts) = any_host marker (split_char b',' hosts)

  unfoldable pub known_hosts_line_matches : Text → Text → Bool
  unfolding known_hosts_marker_matches
  known_hosts_line_matches line marker = matches_hosts marker (line_hosts (split_whitespace line))
