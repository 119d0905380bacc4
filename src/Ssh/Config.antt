-- ===== src/Ssh/Config.antt =====
-- `ResolvedSshConfig`, the choice of the transport, and the validation of hosts, values and ports.
use ssh_mountmate.Base.{
  ℕ, Bool, not, ◌&&◌, ◌||◌, Option, none, some, List, [], ◌∷◌, ◌++◌, any, all, ◌==◌, ltb,
  if◌then◌else◌, u16_max, Result, ok, err,
}
use ssh_mountmate.Text.{
  Text, codes, text_eq, is_empty, is_whitespace, is_control, is_ascii_alphanumeric, trim,
  starts_with, lines, to_ascii_lowercase,
}
use ssh_mountmate.Text.Decimal.{parse_uint, decimal}
use ssh_mountmate.Dict.{Dict, lookup, insert}
use ssh_mountmate.Ssh.Hosts.{split_once}

pub data SshError : Type 0 where
  io : Text → SshError
  include_pattern : Text → Text → SshError
  command : Text → SshError
  invalid_host : Text → SshError
  invalid_port : Text → SshError
  storage : Text → SshError
  permissions : Text → Text → SshError
  invalid_private_key : Text → SshError

pub record ResolvedSshConfig : Type 0 where
  pub values : Dict (List Text)

abbrev pub or_no_values : Option (List Text) → List Text
or_no_values none = []
or_no_values (some vs) = vs

-- `entry(key).or_default().push(value)`
unfoldable pub push_value : Text → Text → Dict (List Text) → Dict (List Text)
push_value key value m = insert key (or_no_values (lookup key m) ++ value ∷ []) m

abbrev pub push_pair : Option (Text × Text) → Dict (List Text) → Dict (List Text)
push_pair none m = m
push_pair (some (key, value)) m = push_value (to_ascii_lowercase key) (trim value) m

unfoldable pub parse_lines : List Text → Dict (List Text) → Dict (List Text)
unfolding push_value
parse_lines [] m = m
parse_lines (raw ∷ rest) m =
    let line = trim raw in
    parse_lines rest (
      if is_empty line || starts_with line (codes "#")
      then m
      else push_pair (split_once is_whitespace line) m)

unfoldable pub parse_config : Text → ResolvedSshConfig
unfolding parse_lines
parse_config output = record { values = parse_lines (lines output) [] }

unfoldable pub all_values : ResolvedSshConfig → Text → List Text
all_values config key = or_no_values (lookup (to_ascii_lowercase key) config.values)

abbrev pub first_or : Text → List Text → Text
first_or d [] = d
first_or d (v ∷ vs) = v

unfoldable pub first_value : ResolvedSshConfig → Text → Text → Text
unfolding all_values
first_value config key d = first_or d (all_values config key)

-- Not empty and not `none`.
abbrev pub is_set : Text → Bool
is_set value = let v = to_ascii_lowercase value in not (text_eq v [] || text_eq v (codes "none"))

unfoldable pub needs_openssh_transport : ResolvedSshConfig → Bool
unfolding first_value
needs_openssh_transport config =
    is_set (first_value config (codes "proxyjump") (codes "none"))
    || is_set (first_value config (codes "proxycommand") (codes "none"))

pub data RequestedTransport : Type 0 where
  auto native openssh : RequestedTransport

pub data SshTransport : Type 0 where
  native openssh : SshTransport

unfoldable pub choose_transport : RequestedTransport → ResolvedSshConfig → Bool → SshTransport
unfolding needs_openssh_transport
choose_transport RequestedTransport.native config windows = SshTransport.native
choose_transport RequestedTransport.openssh config windows = SshTransport.openssh
choose_transport RequestedTransport.auto config windows =
    if windows && not (needs_openssh_transport config)
    then SshTransport.native
    else SshTransport.openssh

unfoldable pub is_valid_host : Text → Bool
is_valid_host host =
    not (is_empty host)
    && not (starts_with host (codes "-"))
    && all (λ c. is_ascii_alphanumeric c || c == b'.' || c == b'_' || c == b'-' || c == b':') host

unfoldable pub validate_host_alias : Text → Result SshError Unit
unfolding is_valid_host
validate_host_alias host = if is_valid_host host then ok tt else err (SshError.invalid_host host)

unfoldable pub validate_config_scalar : Text → Text → Result SshError Unit
validate_config_scalar text field =
    let value = trim text in
    if is_empty value
      || starts_with value (codes "-")
      || any (λ c. is_whitespace c || is_control c) value
    then err (SshError.command (codes "invalid " ++ field))
    else ok tt

-- `normalize_port` of ssh.rs: a blank port is the default one.
abbrev pub default_port : Text → Text
default_port port = if is_empty (trim port) then codes "22" else port

abbrev pub port_number : Text → Option ℕ → Result SshError Text
port_number port none = err (SshError.invalid_port port)
port_number port (some value) =
    if ltb 0 value then ok (decimal value) else err (SshError.invalid_port port)

unfoldable pub validate_port : Text → Result SshError Text
validate_port text = let port = default_port text in port_number port (parse_uint u16_max port)
