-- ===== src/Tests/Ssh.antt =====
-- Runs of the SSH configuration and of the pinning of host keys.
use ssh_mountmate.Base.{◌≡◌, refl, true, false, none, some, [], ◌∷◌, ok, err}
use ssh_mountmate.Text.{
  Text, codes, text_eq, is_whitespace, is_digit, is_ascii_alphanumeric, is_ascii_alphabetic, trim,
  trim_start, trim_by, trim_start_by, trim_end_by, starts_with, strip_prefix, ends_with, lines,
  lines_from, split_whitespace, split_words, replace_char, eq_ignore_ascii_case, to_ascii_lowercase,
  ascii_lower,
}
use ssh_mountmate.Text.Decimal.{parse_uint, parse_digits, scan_digits, decimal, emit_digits}
use ssh_mountmate.Ssh.{
  quote_ssh_value, split_ssh_words, scan_words, step_char, step_quote, finish_words,
  known_hosts_marker, known_hosts_marker_matches, HostKeys, HostPatterns, FileRead, PinWorld,
  SshError, pin_first_seen_with, pin_unless, pin_scanned, pin_locked, content_binds,
  line_has_key_binding, managed_file_contains, validate_host_alias, is_valid_host, validate_port,
  is_managed_include, updated_config, parse_ssh_directive, split_keyword,
}
use ssh_mountmate.Ssh.Quoting.{is_quotable, split_ssh_words-quote_ssh_value}
use ssh_mountmate.Ssh.Included.{updated_config_idem}
use ssh_mountmate.Ssh.Pinned.{IsPinned, pin_first_seen_with-IsPinned}

-- A value that is quoted for its space and its quotation mark.
abbrev spaced : Text
spaced = codes "my \"key\" file"

split_ssh_words-quote_ssh_value_example : split_ssh_words (quote_ssh_value spaced) ≡ spaced ∷ []
split_ssh_words-quote_ssh_value_example =
    split_ssh_words-quote_ssh_value spaced refl
      (unfold is_quotable is_whitespace starts_with in refl)

-- The quotation marks of an empty value are read back as no word.
empty_is_lost : split_ssh_words (quote_ssh_value []) ≡ []
unfolding split_ssh_words quote_ssh_value scan_words step_char step_quote finish_words is_whitespace
    replace_char
empty_is_lost = refl

-- A backslash is doubled when it is written, and is not halved when it is read.
backslash_doubled : split_ssh_words (quote_ssh_value (codes "C:\\key")) ≡ codes "C:\\\\key" ∷ []
unfolding split_ssh_words quote_ssh_value scan_words step_char step_quote finish_words is_whitespace
    replace_char
backslash_doubled = refl

old_include : is_managed_include (codes "  Include ~/.ssh/ssh-mountmate.d/*.conf") ≡ true
unfolding is_managed_include parse_ssh_directive split_keyword split_ssh_words scan_words step_char
    step_quote finish_words is_whitespace trim_start trim_start_by starts_with strip_prefix
    eq_ignore_ascii_case to_ascii_lowercase ascii_lower text_eq
old_include = refl

-- No hash verifies and no text is Base64; every key is valid, and the patterns are one host.
abbrev plain_keys : HostKeys
plain_keys = record {
  decode_base64 = λ t. none;
  verify_hmac = λ salt marker tag. false;
  valid_public_key = λ kind key. true;
  parse_patterns = λ t. some (HostPatterns.patterns (t ∷ []));
}

abbrev known_line : Text
known_line = codes "web ssh-ed25519 AAAA"

abbrev known_world : PinWorld
known_world = record {
  before = FileRead.found known_line;
  scan = err (SshError.command []);
  lock = ok tt;
  locked = FileRead.found known_line;
  write = ok tt;
}

port_22 : validate_port (codes "22") ≡ ok (codes "22")
unfolding validate_port trim trim_by trim_start_by trim_end_by is_whitespace parse_uint parse_digits
    scan_digits is_digit decimal emit_digits
port_22 = refl

abbrev new_world : PinWorld
new_world = record {
  before = FileRead.not_found;
  scan = ok (known_line ∷ []);
  lock = ok tt;
  locked = FileRead.found (codes "x");
  write = ok tt;
}

new_pinned :
    pin_first_seen_with plain_keys new_world (codes "web") (codes "22")
    ≡ ok (some (codes "x\nweb ssh-ed25519 AAAA\n"))
unfolding pin_first_seen_with pin_unless pin_scanned pin_locked managed_file_contains content_binds
    line_has_key_binding lines lines_from split_whitespace split_words is_whitespace starts_with
    ends_with text_eq known_hosts_marker trim trim_by trim_start_by trim_end_by validate_host_alias
    is_valid_host is_ascii_alphanumeric is_ascii_alphabetic is_digit validate_port parse_uint
    parse_digits scan_digits decimal emit_digits
new_pinned = refl

pin_first_seen_with-IsPinned_example :
    IsPinned plain_keys new_world (codes "web") (codes "22") (codes "x\nweb ssh-ed25519 AAAA\n")
pin_first_seen_with-IsPinned_example =
    pin_first_seen_with-IsPinned plain_keys new_world (codes "web") (codes "22")
      (codes "x\nweb ssh-ed25519 AAAA\n") new_pinned

-- The host is known already: nothing is scanned and nothing is written.
known_pinned : pin_first_seen_with plain_keys known_world (codes "web") (codes "22") ≡ ok none
unfolding pin_first_seen_with pin_unless pin_scanned pin_locked managed_file_contains content_binds
    line_has_key_binding lines lines_from split_whitespace split_words is_whitespace starts_with
    ends_with text_eq known_hosts_marker trim trim_by trim_start_by trim_end_by validate_host_alias
    is_valid_host is_ascii_alphanumeric is_ascii_alphabetic is_digit validate_port parse_uint
    parse_digits scan_digits decimal emit_digits known_hosts_marker_matches
known_pinned = refl

updated_config_idem_example :
    updated_config (updated_config (codes "Host web\n")) ≡ updated_config (codes "Host web\n")
updated_config_idem_example = updated_config_idem (codes "Host web\n")
