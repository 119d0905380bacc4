-- ===== src/Storage/Edits.antt =====
-- `remove_server`, `remove_servers` and `reorder_servers`.
use ssh_mountmate.Base.{
  Bool, not, List, [], ◌∷◌, ◌++◌, any, keep_if, length, ◌==◌, Result, ok, ok_or, refuse_if, ◌>>=◌,
  ◌>>◌,
}
use ssh_mountmate.Text.{Text, codes, text_eq}
use ssh_mountmate.Dict.{Dict, mem, lookup, insert}
use ssh_mountmate.Model.{ServerConfig}

pub data StorageError : Type 0 where
  io : Text → StorageError
  json : Text → StorageError
  lock_timeout : Text → StorageError
  duplicate_connection : Text → StorageError
  missing_connection : Text → StorageError
  invalid_preference_update : Text → StorageError

-- The lock, the list that is loaded under it, and the outcome of the atomic write.
pub record StorageWorld : Type 0 where
  pub lock : Result StorageError Unit
  pub loaded : Result StorageError (List ServerConfig)
  pub write : Result StorageError Unit

abbrev pub Edit : Type 0
Edit = List ServerConfig → Result StorageError (List ServerConfig)

-- What all operations have around them. The result is the list that has been written.
unfoldable pub transact : StorageWorld → Edit → Result StorageError (List ServerConfig)
transact world edit = do
  world.lock
  servers ← world.loaded
  edited ← edit servers
  world.write
  ok edited

unfoldable pub has_id : Text → List ServerConfig → Bool
has_id id servers = any (λ server. text_eq server.id id) servers

unfoldable pub remove_server : Text → Edit
remove_server server_id servers = ok (keep_if (λ server. not (text_eq server.id server_id)) servers)

-- The loop that all batches begin with: every identifier once, and all of them known.
unfoldable pub check_ids : List ServerConfig → List Text → List Text → Result StorageError Unit
unfolding has_id
check_ids servers selected [] = ok tt
check_ids servers selected (id ∷ rest) = do
  refuse_if (mem id selected)
      (StorageError.invalid_preference_update (codes "duplicate connection ID: " ++ id))
  refuse_if (not (has_id id servers)) (StorageError.missing_connection id)
  check_ids servers (id ∷ selected) rest

unfoldable pub remove_servers : List Text → Edit
unfolding check_ids
remove_servers server_ids servers = do
  check_ids servers [] server_ids
  ok (keep_if (λ server. not (mem server.id server_ids)) servers)

-- `iter().map(|server| (id, server)).collect::<HashMap<_, _>>()`
unfoldable pub by_id : Dict ServerConfig → List ServerConfig → Dict ServerConfig
by_id m [] = m
by_id m (server ∷ rest) = by_id (insert server.id server m) rest

-- The loop of `reorder_servers`, with the identifiers that it has seen.
unfoldable pub pick :
    Dict ServerConfig → List Text → List Text → Result StorageError (List ServerConfig)
pick m seen [] = ok []
pick m seen (id ∷ rest) = do
  refuse_if (mem id seen)
      (StorageError.invalid_preference_update (codes "duplicate connection ID: " ++ id))
  server ← ok_or (lookup id m) (StorageError.missing_connection id)
  more ← pick m (id ∷ seen) rest
  ok (server ∷ more)

unfoldable pub reorder_servers : List Text → Edit
unfolding by_id pick
reorder_servers ordered_ids servers = do
  refuse_if (not (length ordered_ids == length servers)) (
      StorageError.invalid_preference_update
        (codes "reorder must include every connection exactly once"))
  pick (by_id [] servers) [] ordered_ids
