-- ===== src/Model/Server.antt =====
-- The methods of `ServerConfig` and the normal forms of its fields.
use ssh_mountmate.Base.{
  ℕ, Bool, true, false, not, ◌&&◌, ◌||◌, Option, none, some, List, [], ◌∷◌, ◌++◌, map, all, ltb,
  ◌==◌, if◌then◌else◌, u16_max,
}
use ssh_mountmate.Text.{Text, codes, text_eq, is_empty, trim, trim_by, map_text}
use ssh_mountmate.Text.Decimal.{parse_uint, decimal}
use ssh_mountmate.Dict.{mem}
use ssh_mountmate.Model.Types.{
  MountMapping, ServerConfig, Settings, ConnectionMethod, key, native, interactive,
}

abbrev pub max_connection_tags : ℕ
max_connection_tags = 8

abbrev pub max_tag_chars : ℕ
max_tag_chars = 24

unfoldable pub tag_update_only_preserves_existing : List Text → List Text → Bool
tag_update_only_preserves_existing candidate existing = all (λ tag. mem tag existing) candidate

-- `ServerConfig::default()`
abbrev pub default_server : ServerConfig
default_server = record {
  primary_mount = true;
  mounts = [];
  connection_id = [];
  id = [];
  name = [];
  folder = [];
  tags = [];
  mode = codes "manual";
  source = codes "manual";
  host_alias = [];
  host = [];
  user = [];
  port = codes "22";
  auth = key;
  key_file = [];
  password_obscured = [];
  key_pass_obscured = [];
  password_credential = [];
  key_pass_credential = [];
  connection_method = native;
  remote_path = [];
  mountpoint = [];
  auto_mount_at_login = false;
  cache_mode = [];
  network_mode = false;
  ssh_config_managed = false;
  copy_key_to_ssh_dir = false;
  managed_ssh_config_path = [];
  ssh_config_path = [];
}

-- `trim().is_empty()`
unfoldable pub is_blank : Text → Bool
is_blank s = is_empty (trim s)

unfoldable pub connection_id : ServerConfig → Text
connection_id s = if is_empty s.connection_id then s.id else s.connection_id

unfoldable pub mapping_id : ServerConfig → MountMapping → Text
mapping_id s mapping = s.id ++ (codes "--mount-" ++ mapping.id)

-- The first of the texts that is not blank.
abbrev pub first_not_blank : List Text → Text → Text
first_not_blank [] d = d
first_not_blank (t ∷ ts) d = let rest = first_not_blank ts d in if is_blank t then rest else t

unfoldable pub display_name : ServerConfig → Text
unfolding is_blank
display_name s = first_not_blank (s.name ∷ s.host_alias ∷ s.host ∷ s.id ∷ []) (codes "Server")

-- The clone on which all targets rest.
abbrev pub primary_target : ServerConfig → ServerConfig
primary_target s = record s { mounts = []; connection_id = connection_id s; primary_mount = true }

unfoldable pub mapping_target : ServerConfig → MountMapping → ServerConfig
unfolding mapping_id
mapping_target s mapping = record (primary_target s) {
  id = mapping_id s mapping;
  remote_path = mapping.remote_path;
  mountpoint = mapping.mountpoint;
  name =
      display_name s
      ++ (codes " · " ++ (if is_empty mapping.remote_path then codes "~" else mapping.remote_path));
}

unfoldable pub mount_targets : ServerConfig → List ServerConfig
unfolding mapping_target
mount_targets s =
    (if s.primary_mount then primary_target s ∷ [] else []) ++ map (mapping_target s) s.mounts

abbrev pub is_interactive : ConnectionMethod → Bool
is_interactive interactive = true
is_interactive _ = false

unfoldable pub remote_name : ServerConfig → Text
remote_name s =
    if (is_empty s.connection_id || text_eq s.connection_id s.id)
      && not (is_interactive s.connection_method)
      && text_eq s.mode (codes "ssh_config")
      && not (is_empty s.host_alias)
    then s.host_alias
    else s.id

unfoldable pub remote_spec : ServerConfig → Text
unfolding remote_name
remote_spec s =
    if is_empty s.remote_path
    then remote_name s ++ codes ":"
    else remote_name s ++ (codes ":" ++ s.remote_path)

unfoldable pub effective_cache_mode : ServerConfig → Settings → Text
effective_cache_mode s settings =
    if is_empty s.cache_mode then settings.vfs_cache_mode else s.cache_mode

-- The loop of `normalize_tags`, with the tags that it has kept.
unfoldable pub collect_tags : List Text → List Text → List Text
collect_tags kept [] = kept
collect_tags kept (tag ∷ tags) =
    let t = trim tag in
    collect_tags (if not (is_empty t) && not (mem t kept) then kept ++ t ∷ [] else kept) tags

unfoldable pub normalize_tags : List Text → Text → List Text
unfolding collect_tags
normalize_tags tags legacy_folder =
    let normalized = collect_tags [] tags in
    let legacy = trim legacy_folder in
    if is_empty normalized then (if not (is_empty legacy) then legacy ∷ [] else []) else normalized

abbrev pub port_text : Option ℕ → Option Text
port_text none = none
port_text (some port) = if ltb 0 port then some (decimal port) else none

unfoldable pub normalize_port : Text → Option Text
normalize_port value = port_text (parse_uint u16_max (trim value))

-- The characters that a sanitized identifier may have beside alphanumeric ones, but not at its ends.
abbrev pub is_joiner : ℕ → Bool
is_joiner c = c == b'.' || c == b'_' || c == b'-'

abbrev pub head_or_empty : List Text → Text
head_or_empty [] = []
head_or_empty (t ∷ ts) = t

-- `unwrap_or_else(|| "22".into())`
abbrev pub or_22 : Option Text → Text
or_22 none = codes "22"
or_22 (some port) = port

module _ (is_alphanumeric : ℕ → Bool) where
  abbrev pub safe_char : ℕ → ℕ
  safe_char c = if is_alphanumeric c || is_joiner c then c else b'_'

  -- `nonce`: eight hexadecimal digits of a random UUID.
  unfoldable pub sanitize_id : Text → Text → Text
  sanitize_id nonce value =
      let cleaned = trim_by is_joiner (map_text safe_char (trim value)) in
      if is_empty cleaned then codes "server-" ++ nonce else cleaned

  unfoldable pub normalize : Text → ServerConfig → ServerConfig
  unfolding sanitize_id
  normalize nonce s =
      let display = display_name s in
      let id_source =
        if is_blank s.id then first_not_blank (s.name ∷ s.host_alias ∷ s.host ∷ []) [] else s.id in
      let tags = normalize_tags s.tags s.folder in
      record s {
        id = sanitize_id nonce id_source;
        name = if is_blank s.name then display else s.name;
        port = or_22 (normalize_port s.port);
        tags = tags;
        folder = head_or_empty tags;
      }
