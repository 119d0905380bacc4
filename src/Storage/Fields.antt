-- ===== src/Storage/Fields.antt =====
-- Which fields the updates of preferences leave alone.
use ssh_mountmate.Base.{
  ◌≡◌, refl, ap, ◌∙◌, Bool, false, Option, none, some, List, [], ◌∷◌, map, Result, ok, err, ForOk,
  ForOk-ok, ForOk-bind, ForOk-then, ForOk-if, ◌>>=◌,
}
use ssh_mountmate.Text.{Text, text_eq}
use ssh_mountmate.Model.{ServerConfig}
use ssh_mountmate.Storage.{
  StorageError, ServerPreferenceUpdate, check_ids, check_tags, set_tags, set_auto, apply_update,
  edit_first, update_one, update_all, update_server_preferences_batch,
}

-- The server without what the preferences are about.
abbrev pub other_fields : ServerConfig → ServerConfig
other_fields server = record server { tags = []; folder = []; auto_mount_at_login = false }

-- The same servers in the same order, but for their preferences.
abbrev pub SameOthers : List ServerConfig → List ServerConfig → Type 0
SameOthers servers edited = map other_fields edited ≡ map other_fields servers

edit_first-SameOthers :
    (f : ServerConfig → Result StorageError ServerConfig) (id : Text) (servers : List ServerConfig)
    → ((s : ServerConfig) → ForOk (λ e. other_fields e ≡ other_fields s) (f s))
    → ForOk (SameOthers servers) (edit_first f id servers)
unfolding edit_first
edit_first-SameOthers f id [] k = tt
edit_first-SameOthers f id (s ∷ rest) k =
    ForOk-if (SameOthers (s ∷ rest)) (text_eq s.id id) (f s >>= (λ edited. ok (edited ∷ rest)))
      (edit_first f id rest >>= (λ others. ok (s ∷ others)))
      (λ h.
        ForOk-bind (SameOthers (s ∷ rest)) (f s) (λ edited. ok (edited ∷ rest))
          (λ e q.
            ap (λ t. t ∷ map other_fields rest)
              (ForOk-ok (λ e. other_fields e ≡ other_fields s) (f s) (k s) q)))
      (λ h.
        ForOk-bind (SameOthers (s ∷ rest)) (edit_first f id rest) (λ others. ok (s ∷ others))
          (λ o q.
            ap (λ t. other_fields s ∷ t)
              (ForOk-ok (SameOthers rest) (edit_first f id rest) (edit_first-SameOthers f id rest k)
                q)))

apply_update-others :
    (update : ServerPreferenceUpdate) (s : ServerConfig)
    → other_fields (apply_update update s) ≡ other_fields s
unfolding apply_update
apply_update-others update s = go update.tags update.auto_mount_at_login
  where
    go :
        (tags : Option (List Text)) (auto : Option Bool)
        → other_fields (set_auto auto (set_tags tags s)) ≡ other_fields s
    go none none = refl
    go none (some a) = refl
    go (some t) none = refl
    go (some t) (some a) = refl

update_all-SameOthers :
    (updates : List ServerPreferenceUpdate) (servers : List ServerConfig)
    → ForOk (SameOthers servers) (update_all updates servers)
unfolding update_all
update_all-SameOthers [] servers = refl
update_all-SameOthers (u ∷ rest) servers =
    ForOk-bind (SameOthers servers) (edit_first (update_one u) u.id servers)
      (λ s. update_all rest s)
      (λ updated q.
        chain updated
          (ForOk-ok (SameOthers servers) (edit_first (update_one u) u.id servers)
            (edit_first-SameOthers (update_one u) u.id servers one) q)
          (update_all rest updated) (update_all-SameOthers rest updated))
  where
    one : (s : ServerConfig) → ForOk (λ e. other_fields e ≡ other_fields s) (update_one u s)
    one s =
        unfold update_one in
        ForOk-then (λ e. other_fields e ≡ other_fields s) (check_tags u s u.tags)
          (ok (apply_update u s)) (λ h. apply_update-others u s)

    chain :
        (updated : List ServerConfig)
        → SameOthers servers updated
        → (r : Result StorageError (List ServerConfig)) → ForOk (SameOthers updated) r
        → ForOk (SameOthers servers) r
    chain updated h (ok o) k = k ∙ h
    chain updated h (err e) k = tt

-- A batch of preferences that is accepted changes tags, folders and the start at login only: the
-- same connections stand in the same order, and all their other fields are as they were.
pub update_server_preferences_batch-SameOthers :
    (updates : List ServerPreferenceUpdate) (servers edited : List ServerConfig)
    → update_server_preferences_batch updates servers ≡ ok edited
    → map other_fields edited ≡ map other_fields servers
unfolding update_server_preferences_batch
update_server_preferences_batch-SameOthers updates servers edited h =
    ForOk-ok (SameOthers servers) (update_server_preferences_batch updates servers)
      (ForOk-then (SameOthers servers) (check_ids servers [] (map (λ u. u.id) updates))
        (update_all updates servers) (λ e. update_all-SameOthers updates servers))
      h
