-- ===== src/Tests/Storage.antt =====
-- Runs of the operations on saved connections.
use ssh_mountmate.Base.{◌≡◌, refl, true, not, ◌&&◌, some, [], ◌∷◌, map, length, All, ok}
use ssh_mountmate.Text.{
  codes, text_eq, trim, trim_by, trim_start_by, trim_end_by, is_whitespace, is_control,
}
use ssh_mountmate.Dict.{mem, lookup, insert}
use ssh_mountmate.Model.{
  ServerConfig, default_server, normalize_tags, collect_tags, tag_update_only_preserves_existing,
}
use ssh_mountmate.Model.Tags.{distinct}
use ssh_mountmate.Storage.{
  ServerPreferenceUpdate, has_id, check_ids, remove_servers, by_id, pick, reorder_servers,
  check_tags, apply_update, edit_first, update_one, update_all, update_server_preferences_batch,
}
use ssh_mountmate.Storage.Order.{IsIn, reorder_servers-IsIn, remove_servers-has_id}
use ssh_mountmate.Storage.Fields.{other_fields, update_server_preferences_batch-SameOthers}

abbrev web : ServerConfig
web = record default_server { id = codes "web" }

abbrev mail : ServerConfig
mail = record default_server { id = codes "mail"; tags = codes "old" ∷ []; folder = codes "old" }

reordered :
    reorder_servers (codes "mail" ∷ codes "web" ∷ []) (web ∷ mail ∷ []) ≡ ok (mail ∷ web ∷ [])
unfolding reorder_servers pick by_id lookup insert mem text_eq
reordered = refl

reorder_servers-IsIn_example :
    (map (λ s. s.id) (mail ∷ web ∷ []) ≡ codes "mail" ∷ codes "web" ∷ [])
    × (distinct (codes "mail" ∷ codes "web" ∷ []) ≡ true)
    × (length (codes "mail" ∷ codes "web" ∷ []) ≡ length (web ∷ mail ∷ []))
    × All (IsIn (web ∷ mail ∷ [])) (mail ∷ web ∷ [])
reorder_servers-IsIn_example =
    reorder_servers-IsIn (codes "mail" ∷ codes "web" ∷ []) (web ∷ mail ∷ []) (mail ∷ web ∷ [])
      reordered

remove_servers-has_id_example :
    (distinct (codes "mail" ∷ []) ≡ true)
    × All (λ id. has_id id (web ∷ mail ∷ []) ≡ true) (codes "mail" ∷ [])
    × (has_id (codes "web") (web ∷ [])
        ≡ (has_id (codes "web") (web ∷ mail ∷ []) && not (mem (codes "web") (codes "mail" ∷ []))))
remove_servers-has_id_example =
    remove_servers-has_id (codes "mail" ∷ []) (web ∷ mail ∷ []) (web ∷ []) (codes "web")
      (unfold remove_servers check_ids has_id mem text_eq in refl)

abbrev retag : ServerPreferenceUpdate
retag = record {
  id = codes "mail";
  tags = some (codes " new " ∷ []);
  auto_mount_at_login = some true;
}

abbrev retagged : ServerConfig
retagged = record mail { tags = codes "new" ∷ []; folder = codes "new"; auto_mount_at_login = true }

update_server_preferences_batch-SameOthers_example :
    map other_fields (web ∷ retagged ∷ []) ≡ map other_fields (web ∷ mail ∷ [])
update_server_preferences_batch-SameOthers_example =
    update_server_preferences_batch-SameOthers (retag ∷ []) (web ∷ mail ∷ []) (web ∷ retagged ∷ [])
      (unfold update_server_preferences_batch check_ids has_id update_all edit_first update_one
          check_tags apply_update normalize_tags collect_tags tag_update_only_preserves_existing mem
          text_eq trim trim_by trim_start_by trim_end_by is_whitespace is_control in
        refl)
