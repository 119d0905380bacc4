-- ===== src/Ssh/Pin.antt =====
-- `KnownHostsManager::pin_first_seen_with`: the first keys that a host shows are written to the
-- managed known_hosts file. Other processes may change the file until the lock is held.
use ssh_mountmate.Base.{
  ℕ, Bool, true, false, not, ◌&&◌, Option, none, some, List, [], ◌∷◌, ◌++◌, any, if◌then◌else◌,
  Result, ok, err, refuse_if, ◌>>=◌, ◌>>◌,
}
use ssh_mountmate.Text.{Text, codes, is_empty, starts_with, ends_with, lines, split_whitespace}
use ssh_mountmate.Ssh.Hosts.{known_hosts_marker, known_hosts_marker_matches}
use ssh_mountmate.Ssh.Config.{SshError, validate_host_alias, validate_port}

-- `HostPatterns` of the crate ssh-key.
pub data HostPatterns : Type 0 where
  patterns : List Text → HostPatterns
  hashed_name : HostPatterns

-- `fs::read_to_string`: the text, no file, or another failure.
pub data FileRead : Type 0 where
  found : Text → FileRead
  not_found : FileRead
  failed : SshError → FileRead

-- What the crates compute: Base64, HMAC, public keys of a known algorithm, and host patterns.
pub record HostKeys : Type 0 where
  pub decode_base64 : Text → Option (List ℕ)
  pub verify_hmac : List ℕ → Text → List ℕ → Bool
  pub valid_public_key : Text → Text → Bool
  pub parse_patterns : Text → Option HostPatterns

-- The state of the machine that one run of `pin_first_seen_with` meets.
pub record PinWorld : Type 0 where
  pub before : FileRead
  pub scan : Result SshError (List Text)
  pub lock : Result SshError Unit
  pub locked : FileRead
  pub write : Result SshError Unit

module _ (keys : HostKeys) where
  abbrev pub patterns_match : Text → Option HostPatterns → Bool
  patterns_match marker none = false
  patterns_match marker (some HostPatterns.hashed_name) = false
  patterns_match marker (some (HostPatterns.patterns hosts)) =
      any (λ host. known_hosts_marker_matches keys.decode_base64 keys.verify_hmac host marker) hosts

  -- A line of three words at least, with no `@` mark and a valid key, binds its hosts.
  abbrev pub binding : List Text → Option HostPatterns
  binding (hosts ∷ key_type ∷ key_data ∷ _) =
      if not (starts_with hosts (codes "@")) && keys.valid_public_key key_type key_data
      then keys.parse_patterns hosts
      else none
  binding _ = none

  unfoldable pub line_has_key_binding : Text → Text → Bool
  line_has_key_binding line marker = patterns_match marker (binding (split_whitespace line))

  unfoldable pub content_binds : Text → Text → Bool
  unfolding line_has_key_binding
  content_binds content marker = any (λ line. line_has_key_binding line marker) (lines content)

  unfoldable pub managed_file_contains : FileRead → Text → Result SshError Bool
  unfolding content_binds
  managed_file_contains (FileRead.found content) marker = ok (content_binds content marker)
  managed_file_contains FileRead.not_found marker = ok false
  managed_file_contains (FileRead.failed e) marker = err e

  -- `push_str` and `push('\n')` for each line.
  abbrev pub append_lines : Text → List Text → Text
  append_lines content [] = content
  append_lines content (line ∷ rest) = append_lines (content ++ (line ++ codes "\n")) rest

  abbrev pub end_line : Text → Text
  end_line content =
      if not (is_empty content) && not (ends_with content (codes "\n"))
      then content ++ codes "\n"
      else content

  -- The part under the lock. The result is the text that the file is replaced by, if it is.
  unfoldable pub pin_locked :
      FileRead → Result SshError Unit → Text → List Text → Result SshError (Option Text)
  unfolding content_binds
  pin_locked (FileRead.failed e) write marker scanned = err e
  pin_locked FileRead.not_found write marker scanned = do write; ok (some (append_lines [] scanned))
  pin_locked (FileRead.found content) write marker scanned =
      if content_binds content marker
      then ok none
      else do write; ok (some (append_lines (end_line content) scanned))

  -- The keys have been scanned.
  unfoldable pub pin_scanned : PinWorld → Text → List Text → Result SshError (Option Text)
  unfolding pin_locked
  pin_scanned world marker scanned = do
    refuse_if (is_empty scanned)
        (SshError.command (codes "ssh-keyscan returned no usable host keys"))
    world.lock
    pin_locked world.locked world.write marker scanned

  -- The file has been read for the first time.
  unfoldable pub pin_unless : PinWorld → Text → Bool → Result SshError (Option Text)
  unfolding pin_scanned
  pin_unless world marker true = ok none
  pin_unless world marker false = do scanned ← world.scan; pin_scanned world marker scanned

  unfoldable pub pin_first_seen_with : PinWorld → Text → Text → Result SshError (Option Text)
  unfolding pin_unless managed_file_contains
  pin_first_seen_with world host port = do
    validate_host_alias host
    number ← validate_port port
    let marker = known_hosts_marker host number
    present ← managed_file_contains world.before marker
    pin_unless world marker present
