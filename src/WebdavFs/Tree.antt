-- ===== src/WebdavFs/Tree.antt =====
-- FileSystem of internal/service/webdavfs/fs.go: the operations on nodes.
--
-- The acting user is an argument, `none` where the context carries no principal. `new_node` is the
-- composite literal `&model.Node{…}` with Go's zero values.
use tgwebdav.Base.{
  ℕ, ◌+◌, ◌-◌, Bool, true, false, not, ◌&&◌, ◌||◌, Option, none, some, List, [], ◌∷◌, ltb, ◌==◌,
  bytes_eq, if◌then◌else◌,
}
use tgwebdav.Base.Int.{pos, ◌-ℤ◌}
use tgwebdav.Model.{Uuid, Instant, Bytes, Node, NodeState, writing, stored, Extent, User}
use tgwebdav.Repository.Blobs.{Deltas, add_refcounts}
use tgwebdav.Repository.Extents.{list_by_node, delete_by_node}
use tgwebdav.Repository.Nodes.{
  create_node, update_node, delete_node, get_by_id, get_by_path, list_subtree, sum_size_by_user,
}
use tgwebdav.Repository.WalChunks.{delete_chunks}
use tgwebdav.Store.{
  Error, not_found, already_exists, not_exist, exist, permission, invalid, quota_exceeded, Result,
  ok, err, Exec, pure, raise, fail_if, ◌>>=◌, ◌>>◌, attempt, with_tx, new_id, get_now, is_ready,
  mark_ready,
}
use tgwebdav.WebdavFs.Env.{Env, unix_directory}
use tgwebdav.WebdavFs.Paths.{normalize, dir, base}
use tgwebdav.WebdavFs.Writer.{Writer}

abbrev pub root_path : Bytes
root_path = b'/' ∷ []

-- acting
abbrev pub acting : {A : Type 0} → Option User → (User → Exec A) → Exec A
acting none f = raise permission
acting (some user) f = f user

-- errors.Is(err, repository.ErrNotFound), …ErrAlreadyExists
unfoldable pub is_not_found : Error → Bool
is_not_found not_found = true
is_not_found _ = false

unfoldable pub is_already_exists : Error → Bool
is_already_exists already_exists = true
is_already_exists _ = false

-- toFSErr
unfoldable pub fs_error : Error → Error
fs_error not_found = not_exist
fs_error already_exists = exist
fs_error e = e

unfoldable pub to_fs_err : {A : Type 0} → Result A → Exec A
unfolding fs_error
to_fs_err (ok a) = pure a
to_fs_err (err e) = raise (fs_error e)

abbrev pub new_node :
    Uuid → Uuid → Option Uuid → Bytes → Bytes → Bool → NodeState → ℕ → Instant → Node
new_node id user_id parent_id name path is_dir state content_type now = record {
  id = id;
  user_id = user_id;
  parent_id = parent_id;
  name = name;
  path = path;
  is_dir = is_dir;
  size = 0;
  content_hash = 0;
  etag = 0;
  content_type = content_type;
  state = state;
  created_at = now;
  modified_at = now;
}

module _ (env : Env) where
  abbrev pub after_root : Uuid → Node → Result (Unit {0}) → Exec Node
  after_root user root (ok _) = mark_ready user >> pure root
  after_root user root (err e) =
      if is_already_exists e then (mark_ready user >> get_by_path user root_path) else raise e

  unfoldable pub make_root : Uuid → Exec Node
  make_root user = do
    now ← get_now
    id ← new_id env.uuids
    let root = new_node id user none [] root_path true stored unix_directory now
    attempt (create_node root) (after_root user root)

  abbrev pub root_or : Uuid → Result Node → Exec Node
  root_or user (ok root) = mark_ready user >> pure root
  root_or user (err e) = if is_not_found e then make_root user else raise e

  -- ensureRoot
  unfoldable pub ensure_root : Uuid → Exec Node
  ensure_root user = attempt (get_by_path user root_path) (root_or user)

  -- ensureRootExists
  unfoldable pub ensure_root_exists : Uuid → Exec (Unit {0})
  ensure_root_exists user =
      is_ready user >>= λ ready. if ready then pure tt else (ensure_root user >>= λ _. pure tt)

  abbrev pub stat_or : Uuid → Bytes → Result Node → Exec Node
  stat_or user p (ok node) = pure node
  stat_or user p (err e) =
      if is_not_found e && bytes_eq p root_path then ensure_root user else raise (fs_error e)

  -- Stat, and the node that `openRead` opens
  unfoldable pub stat : Option User → Bytes → Exec Node
  stat ctx name =
      acting ctx
        (λ user. let p = normalize env name in attempt (get_by_path user.id p) (stat_or user.id p))

  -- "os.ErrExist if there is one, and any error but ErrNotFound"
  abbrev pub absent : Result Node → Exec (Unit {0})
  absent (ok _) = raise exist
  absent (err e) = if is_not_found e then pure tt else raise e

  -- the directory that holds a path
  unfoldable pub parent_of : Uuid → Bytes → Exec Node
  parent_of user p = do
    parent ← attempt (get_by_path user (dir p)) to_fs_err
    fail_if (not parent.is_dir) not_exist
    pure parent

  -- Mkdir
  unfoldable pub mkdir : Option User → Bytes → Exec (Unit {0})
  unfolding parent_of
  mkdir ctx name = acting ctx (λ user.
      let p = normalize env name in
      do
        fail_if (bytes_eq p root_path) exist
        ensure_root_exists user.id
        attempt (get_by_path user.id p) absent
        parent ← parent_of user.id p
        now ← get_now
        id ← new_id env.uuids
        attempt
            (create_node
              (new_node id user.id (some parent.id) (base p) p true stored unix_directory now))
            to_fs_err)

  -- `deltas[e.BlobID]--`
  abbrev pub less_one : Deltas → Uuid → Deltas
  less_one deltas blob k = if k == blob then deltas k -ℤ pos 1 else deltas k

  unfoldable pub release_deltas : Deltas → List Extent → Deltas
  release_deltas deltas [] = deltas
  release_deltas deltas (e ∷ es) = release_deltas (less_one deltas e.blob_id) es

  abbrev pub no_deltas : Deltas
  no_deltas k = pos 0

  abbrev pub release : List Extent → Exec (Unit {0})
  release [] = pure tt
  release (e ∷ es) = add_refcounts (release_deltas no_deltas (e ∷ es))

  -- releaseExtents
  unfoldable pub release_extents : Uuid → Exec (Unit {0})
  release_extents node_id = list_by_node node_id >>= release

  abbrev pub emptied : Instant → Node → Node
  emptied now n = record n {
    state = writing;
    size = 0;
    content_hash = 0;
    etag = 0;
    modified_at = now;
  }

  -- truncateNode
  unfoldable pub truncate_body : Node → Exec (Unit {0})
  unfolding release_extents
  truncate_body node = do
    release_extents node.id
    delete_by_node node.id
    delete_chunks node.id
    fresh ← get_by_id node.id
    now ← get_now
    update_node (emptied now fresh)

  unfoldable pub truncate_node : Node → Exec (Unit {0})
  truncate_node node = with_tx (truncate_body node)

  -- newWriter
  abbrev pub new_writer : User → Node → Writer
  new_writer user node = record {
    node = node;
    user = user;
    hasher = [];
    buf = [];
    seq = 0;
    size = 0;
    is_closed = false;
  }

  abbrev pub open_or_create : User → Node → Bytes → Bool → Result Node → Exec Writer
  open_or_create user parent p excl (ok existing) = do
    fail_if existing.is_dir invalid
    fail_if excl exist
    truncate_node existing
    pure (new_writer user existing)
  open_or_create user parent p excl (err e) =
      if is_not_found e
      then (do
        now ← get_now
        id ← new_id env.uuids
        let node = new_node id user.id (some parent.id) (base p) p false writing 0 now
        attempt (create_node node) to_fs_err
        pure (new_writer user node))
      else raise e

  -- openWrite, after `OpenFile` with a writable flag; `excl` is whether O_EXCL is set
  unfoldable pub open_write : Option User → Bytes → Bool → Exec Writer
  open_write ctx name excl = acting ctx (λ user.
      let p = normalize env name in
      do
        ensure_root_exists user.id
        fail_if (bytes_eq p root_path) invalid
        parent ← parent_of user.id p
        attempt (get_by_path user.id p) (open_or_create user parent p excl))

  unfoldable pub release_files : List Node → Exec (Unit {0})
  release_files [] = pure tt
  release_files (n ∷ ns) =
      let rest = release_files ns in if n.is_dir then rest else (release_extents n.id >> rest)

  abbrev pub subtree_or : Node → List Node → List Node
  subtree_or node [] = node ∷ []
  subtree_or node (n ∷ ns) = n ∷ ns

  -- the transaction of `RemoveAll`: a node and what ListSubtree finds at a path
  unfoldable pub remove_subtree : Uuid → Bytes → Node → Exec (Unit {0})
  unfolding release_files
  remove_subtree user p node = do
    subtree ← list_subtree user p
    release_files (subtree_or node subtree)
    delete_node node.id

  -- removeWithin
  unfoldable pub remove_within : Uuid → Node → Exec (Unit {0})
  unfolding remove_subtree
  remove_within user node = remove_subtree user node.path node

  -- RemoveAll
  unfoldable pub remove_all : Option User → Bytes → Exec (Unit {0})
  remove_all ctx name = acting ctx (λ user.
      let p = normalize env name in
      do
        fail_if (bytes_eq p root_path) permission
        node ← attempt (get_by_path user.id p) to_fs_err
        with_tx (remove_subtree user.id p node))

  abbrev pub overwritten : ℕ → Result Node → Exec ℕ
  overwritten used (ok existing) =
      if existing.is_dir then pure used else pure (used - existing.size)
  overwritten used (err e) = if is_not_found e then pure used else raise e

  -- CheckQuota. `used` counts the file that is discounted, so it does not fall below zero.
  unfoldable pub check_quota : Option User → Bytes → ℕ → Exec (Unit {0})
  check_quota ctx p additional = acting ctx (λ user.
      if user.quota_bytes == 0 || additional == 0 then pure tt else (do
        used ← sum_size_by_user user.id
        rest ← attempt (get_by_path user.id (normalize env p)) (overwritten used)
        fail_if (ltb user.quota_bytes (rest + additional)) quota_exceeded))
