-- ===== src/Storage/Preferences.antt =====
-- `update_server_preferences_batch` and `update_server_preferences`.
use ssh_mountmate.Base.{
  Bool, not, ◌&&◌, Option, none, some, List, [], ◌∷◌, ◌++◌, any, map, length, ltb, if◌then◌else◌,
  Result, ok, err, refuse_if, ◌>>=◌, ◌>>◌,
}
use ssh_mountmate.Text.{Text, codes, text_eq, is_control, trim}
use ssh_mountmate.Text.Decimal.{decimal}
use ssh_mountmate.Model.{
  ServerConfig, normalize_tags, tag_update_only_preserves_existing, max_connection_tags,
  max_tag_chars, head_or_empty,
}
use ssh_mountmate.Storage.Edits.{StorageError, Edit, check_ids}

pub record ServerPreferenceUpdate : Type 0 where
  pub id : Text
  pub tags : Option (List Text)
  pub auto_mount_at_login : Option Bool

abbrev pub has_control : List Text → Bool
has_control tags = any (λ tag. any is_control tag) tags

-- The limits on new tags, from which a list of old tags only is exempt.
unfoldable pub check_tags :
    ServerPreferenceUpdate → ServerConfig → Option (List Text) → Result StorageError Unit
check_tags update server none = ok tt
check_tags update server (some tags) =
    let normalized = normalize_tags tags [] in
    let existing = normalize_tags server.tags server.folder in
    let preserves = tag_update_only_preserves_existing normalized existing in
    do
      refuse_if (has_control tags) (
          StorageError.invalid_preference_update (
            codes "tags for connection "
            ++ (update.id ++ codes " must not contain control characters")))
      refuse_if (ltb max_connection_tags (length normalized) && not preserves) (
          StorageError.invalid_preference_update (
            codes "connection "
            ++ (update.id
                ++ (codes " may have at most " ++ (decimal max_connection_tags ++ codes " tags")))))
      refuse_if (any (λ tag. ltb max_tag_chars (length tag)) normalized && not preserves) (
          StorageError.invalid_preference_update (
            codes "tags for connection "
            ++ (update.id
                ++ (codes " must be at most "
                    ++ (decimal max_tag_chars ++ codes " Unicode characters each")))))

abbrev pub set_tags : Option (List Text) → ServerConfig → ServerConfig
set_tags none server = server
set_tags (some tags) server =
    let normalized = normalize_tags tags [] in
    record server { tags = normalized; folder = head_or_empty normalized }

abbrev pub set_auto : Option Bool → ServerConfig → ServerConfig
set_auto none server = server
set_auto (some auto) server = record server { auto_mount_at_login = auto }

unfoldable pub apply_update : ServerPreferenceUpdate → ServerConfig → ServerConfig
apply_update update server = set_auto update.auto_mount_at_login (set_tags update.tags server)

-- `iter_mut().find(…)` and what is done with the server that is found, the first with the
-- identifier. A batch has checked before that there is one, where the source says `expect`.
unfoldable pub edit_first :
    (ServerConfig → Result StorageError ServerConfig)
    → Text
    → List ServerConfig
    → Result StorageError (List ServerConfig)
edit_first f id [] = err (StorageError.missing_connection id)
edit_first f id (server ∷ rest) =
    let more = edit_first f id rest in
    if text_eq server.id id
    then f server >>= (λ edited. ok (edited ∷ rest))
    else more >>= (λ others. ok (server ∷ others))

unfoldable pub update_one : ServerPreferenceUpdate → ServerConfig → Result StorageError ServerConfig
unfolding check_tags apply_update
update_one update server = do check_tags update server update.tags; ok (apply_update update server)

unfoldable pub update_all : List ServerPreferenceUpdate → Edit
unfolding edit_first update_one
update_all [] servers = ok servers
update_all (update ∷ rest) servers = do
  updated ← edit_first (update_one update) update.id servers
  update_all rest updated

unfoldable pub update_server_preferences_batch : List ServerPreferenceUpdate → Edit
unfolding update_all
update_server_preferences_batch updates servers = do
  check_ids servers [] (map (λ update. update.id) updates)
  update_all updates servers

-- One triple of `update_server_preferences`.
unfoldable pub set_folder : Text → Bool → ServerConfig → ServerConfig
set_folder text auto server =
    let folder = trim text in
    let tags = normalize_tags [] folder in
    let moved : ServerConfig =
      if text_eq folder server.folder
      then server
      else record server { tags = tags; folder = head_or_empty tags } in
    record moved { auto_mount_at_login = auto }

unfoldable pub update_server_preferences : List (Text × Text × Bool) → Edit
unfolding set_folder edit_first
update_server_preferences [] servers = ok servers
update_server_preferences ((id, folder, auto) ∷ rest) servers = do
  refuse_if (any is_control folder) (
      StorageError.invalid_preference_update
        (codes "folder for connection " ++ (id ++ codes " must not contain control characters")))
  updated ← edit_first (λ server. ok (set_folder folder auto server)) id servers
  update_server_preferences rest updated
