-- ===== src/WebdavFs/Moves.antt =====
-- MOVE and COPY: Rename of internal/service/webdavfs/fs.go and internal/service/webdavfs/copy.go.
use tgwebdav.Base.{
  ℕ, zero, suc, ◌+◌, ◌-◌, Bool, not, ◌||◌, Option, some, List, [], ◌∷◌, ◌++◌, ltb, ◌==◌, bytes_eq,
  if◌then◌else◌, length, keep, sum_by,
}
use tgwebdav.Base.Int.{pos, ◌+ℤ◌}
use tgwebdav.Model.{Uuid, Instant, Bytes, Node, NodeState, writing, buffered, stored, Extent, User}
use tgwebdav.Repository.Blobs.{Deltas, add_refcounts}
use tgwebdav.Repository.Extents.{list_by_node, copy_for_node}
use tgwebdav.Repository.Nodes.{
  create_node, update_node, get_by_path, list_subtree, list_children, sum_size_by_user,
}
use tgwebdav.Repository.WalChunks.{append_chunk, read_range}
use tgwebdav.Store.{
  exist, permission, invalid, quota_exceeded, storage, Result, ok, err, Exec, pure, raise, fail_if,
  ◌>>=◌, ◌>>◌, attempt, with_tx, new_id, get_now,
}
use tgwebdav.WebdavFs.Env.{Env}
use tgwebdav.WebdavFs.Paths.{normalize, base, is_within, trim_prefix, path_has_prefix}
use tgwebdav.WebdavFs.Tree.{
  acting, root_path, is_not_found, to_fs_err, parent_of, ensure_root, remove_within, no_deltas,
}

module _ (env : Env) where
  -- "Overwrite destination if present."
  abbrev pub clear : Uuid → Result Node → Exec (Unit {0})
  clear user (ok existing) = remove_within env user existing
  clear user (err e) = if is_not_found e then pure tt else raise e

  -- a child of a moved directory, and the directory itself
  abbrev pub moved : Bytes → Bytes → Node → Node → Instant → Node → Node
  moved src dst node parent now child =
      let there = record child { path = dst ++ trim_prefix child.path src; modified_at = now } in
      if child.id == node.id
      then record there { name = base dst; parent_id = some parent.id }
      else there

  unfoldable pub move_all : (Node → Node) → List Node → Exec (Unit {0})
  move_all f [] = pure tt
  move_all f (n ∷ ns) = update_node (f n) >> move_all f ns

  unfoldable pub move_node : Uuid → Bytes → Bytes → Exec (Unit {0})
  unfolding move_all
  move_node user src dst = do
    node ← attempt (get_by_path user src) to_fs_err
    parent ← parent_of env user dst
    attempt (get_by_path user dst) (clear user)
    now ← get_now
    if node.is_dir
        then (list_subtree user src >>= move_all (moved src dst node parent now))
        else (update_node (record node {
          name = base dst;
          path = dst;
          parent_id = some parent.id;
          modified_at = now;
        }))

  -- Rename
  unfoldable pub rename : Option User → Bytes → Bytes → Exec (Unit {0})
  unfolding move_node
  rename ctx old_name new_name = acting ctx (λ user.
      let src = normalize env old_name in
      let dst = normalize env new_name in
      do
        fail_if (bytes_eq src root_path || bytes_eq dst root_path) permission
        if bytes_eq src dst
            then pure tt
            else (fail_if (is_within dst src) invalid >> with_tx (move_node user.id src dst)))

  -- subtreeSize
  unfoldable pub subtree_size : Uuid → Bytes → Exec ℕ
  subtree_size user p = list_subtree user p >>= λ nodes.
      pure (sum_by (λ (n : Node). n.size) (keep (λ (n : Node). not n.is_dir) nodes))

  -- the node that a copy creates
  abbrev pub copy_of : Uuid → Uuid → Option Uuid → Bytes → NodeState → Instant → Node → Node
  copy_of id user parent dst state now src = record src {
    id = id;
    user_id = user;
    parent_id = parent;
    name = base dst;
    path = dst;
    state = state;
    created_at = now;
    modified_at = now;
  }

  -- `deltas[e.BlobID]++`
  abbrev pub one_more : Deltas → Uuid → Deltas
  one_more deltas blob k = if k == blob then deltas k +ℤ pos 1 else deltas k

  unfoldable pub bump_deltas : Deltas → List Extent → Deltas
  bump_deltas deltas [] = deltas
  bump_deltas deltas (e ∷ es) = bump_deltas (one_more deltas e.blob_id) es

  abbrev pub bump : List Extent → Exec (Unit {0})
  bump [] = pure tt
  bump (e ∷ es) = add_refcounts (bump_deltas (no_deltas env) (e ∷ es))

  -- the extents of a stored file, once its copy's node is there
  unfoldable pub share_extents : Uuid → Uuid → Exec (Unit {0})
  share_extents src dst = do es ← list_by_node src; copy_for_node env.fresh src dst; bump es

  -- the block of the WAL loop, `1 << 20`: the size of a chunk
  abbrev pub block_at : ℕ → ℕ → ℕ
  block_at size off = if ltb size (off + env.chunk_size) then size - off else env.chunk_size

  abbrev pub after_read : Uuid → ℕ → ℕ → (ℕ → ℕ → Exec (Unit {0})) → Bytes → Exec (Unit {0})
  after_read dst off seq again [] = pure tt
  after_read dst off seq again (b ∷ bs) = do
    id ← new_id env.uuids
    now ← get_now
    append_chunk (record { id = id; node_id = dst; seq = seq; bytes = b ∷ bs; created_at = now })
    again (off + length (b ∷ bs)) (suc seq)

  -- The WAL loop. A round reads at least a byte, so the size is fuel enough.
  unfoldable pub copy_wal : ℕ → Uuid → Uuid → ℕ → ℕ → ℕ → Exec (Unit {0})
  copy_wal zero src dst size off seq = pure tt
  copy_wal (suc fuel) src dst size off seq =
      let again = copy_wal fuel src dst size in
      if ltb off size
      then (read_range env.chunk_size src off (block_at size off) >>= after_read dst off seq again)
      else pure tt

  abbrev pub each : (Node → Exec (Unit {0})) → List Node → Exec (Unit {0})
  each f [] = pure tt
  each f (n ∷ ns) = f n >> each f ns

  abbrev pub copy_content : NodeState → Node → Uuid → Exec (Unit {0})
  copy_content stored src id = share_extents src.id id
  copy_content writing src id = copy_wal src.size src.id id src.size 0 0
  copy_content buffered src id = copy_wal src.size src.id id src.size 0 0

  abbrev pub copied_state : NodeState → NodeState
  copied_state stored = stored
  copied_state writing = buffered
  copied_state buffered = buffered

  -- the file branches of copyNode
  unfoldable pub copy_file : Uuid → Node → Bytes → Option Uuid → Exec (Unit {0})
  unfolding share_extents copy_wal
  copy_file user src dst parent = do
    now ← get_now
    id ← new_id env.uuids
    attempt (create_node (copy_of id user parent dst (copied_state src.state) now src)) to_fs_err
    copy_content src.state src id

  -- copyNode. `depth` bounds how deep the directories may nest.
  unfoldable pub copy_node : ℕ → Uuid → Node → Bytes → Option Uuid → Bool → Exec (Unit {0})
  unfolding copy_file
  copy_node zero user src dst parent recursive = raise storage
  copy_node (suc depth) user src dst parent recursive =
      let deeper = λ (id : Uuid) (child : Node).
        copy_node depth user child (dst ++ b'/' ∷ child.name) (some id) recursive in
      if src.is_dir
      then (do
        now ← get_now
        id ← new_id env.uuids
        attempt (create_node (copy_of id user parent dst stored now src)) to_fs_err
        if recursive then (list_children user src.id >>= each (deeper id)) else pure tt)
      else copy_file user src dst parent

  abbrev pub freed_by : Uuid → Result Node → Exec ℕ
  freed_by user (ok existing) = subtree_size user existing.path
  freed_by user (err e) = if is_not_found e then pure 0 else raise e

  -- The quota of `Copy`: `used + add - freed > quota`, without the negative numbers.
  unfoldable pub copy_quota : User → Bytes → Bytes → Exec (Unit {0})
  unfolding subtree_size
  copy_quota user s d = if user.quota_bytes == 0 then pure tt else (do
    used ← sum_size_by_user user.id
    add ← subtree_size user.id s
    freed ← attempt (get_by_path user.id d) (freed_by user.id)
    fail_if (ltb (user.quota_bytes + freed) (used + add)) quota_exceeded)

  abbrev pub replace : Uuid → Bool → Result Node → Exec (Unit {0})
  replace user overwrite (ok existing) =
      if overwrite then remove_within env user existing else raise exist
  replace user overwrite (err e) = if is_not_found e then pure tt else raise e

  unfoldable pub copy_body : ℕ → User → Bytes → Bytes → Bool → Bool → Exec (Unit {0})
  unfolding copy_quota copy_node
  copy_body depth user s d recursive overwrite = do
    src ← attempt (get_by_path user.id s) to_fs_err
    parent ← parent_of env user.id d
    copy_quota user s d
    attempt (get_by_path user.id d) (replace user.id overwrite)
    copy_node depth user.id src d (some parent.id) recursive

  -- Copy
  unfoldable pub copy : ℕ → Option User → Bytes → Bytes → Bool → Bool → Exec (Unit {0})
  unfolding copy_body
  copy depth ctx src dst recursive overwrite = acting ctx (λ user.
      let s = normalize env src in
      let d = normalize env dst in
      do
        fail_if (bytes_eq s root_path || bytes_eq d root_path) permission
        if bytes_eq s d then pure tt else (do
          fail_if (path_has_prefix d s) invalid
          ensure_root env user.id
          with_tx (copy_body depth user s d recursive overwrite)))
