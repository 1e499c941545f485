-- ===== src/Tests/Trees.antt =====
-- Paths, an overwritten file and a copied one.
use tgwebdav.Base.{ℕ, ◌+◌, ◌*◌, ◌≡◌, refl, none, List, [], ◌∷◌, ◌++◌, All}
use tgwebdav.Base.Int.{pos, ◌+ℤ◌, ◌-ℤ◌}
use tgwebdav.Model.{Bytes, Node, stored, Extent, Blob, stored_blob}
use tgwebdav.Repository.Blobs.{add_delta, add_refcounts}
use tgwebdav.Repository.Extents.{
  list_by_node, extents_of, delete_by_node, without_extents_of, copied, copy_extents, copy_for_node,
}
use tgwebdav.Repository.WalChunks.{delete_chunks}
use tgwebdav.Repository.Nodes.{
  get_by_id, find_by_id, update_node, update_in, create_node, insert_node, clashes, has_parent,
  row_for, is_at,
}
use tgwebdav.Repository.Order.{order_by}
use tgwebdav.Store.{ok, World, ◌>>=◌, attempt, query, with_tx, new_id, get_now}
use tgwebdav.WebdavFs.Balance.{IsBalanced}
use tgwebdav.WebdavFs.Moves.{bump_deltas, share_extents, copy_file}
use tgwebdav.WebdavFs.Paths.{
  elements, push, resolve, clean, normalize, split_file, dir, base, rooted,
}
use tgwebdav.WebdavFs.Paths.Normal.{IsName, normalize-IsName, dir-base}
use tgwebdav.WebdavFs.Sharing.{IsCopy, IsShared, copy_file-IsShared}
use tgwebdav.WebdavFs.Tree.{
  release_deltas, release_extents, truncate_body, truncate_node, to_fs_err,
}
use tgwebdav.WebdavFs.Truncate.{IsEmptied, truncate_node-IsBalanced, truncate_node-IsEmptied}
use tgwebdav.Tests.Files.{env, file, world, tables}

-- "a/./b//../c"
abbrev messy : Bytes
messy = b'a' ∷ b'/' ∷ b'.' ∷ b'/' ∷ b'b' ∷ b'/' ∷ b'/' ∷ b'.' ∷ b'.' ∷ b'/' ∷ b'c' ∷ []

tidied : normalize env messy ≡ b'/' ∷ b'a' ∷ b'/' ∷ b'c' ∷ []
unfolding normalize clean resolve push elements
tidied = refl

normalize-IsName_example :
    (es : List Bytes) × (normalize env messy ≡ rooted es)
    × All IsName es
    × (es ≡ resolve [] (elements (env.nfc messy)))
    × (clean (normalize env messy) ≡ normalize env messy)
normalize-IsName_example = normalize-IsName env messy

dir-base_example :
    (dir (rooted ((b'c' ∷ []) ∷ (b'a' ∷ []) ∷ [])) ≡ rooted ((b'a' ∷ []) ∷ []))
    × (base (rooted ((b'c' ∷ []) ∷ (b'a' ∷ []) ∷ [])) ≡ b'c' ∷ [])
dir-base_example =
    dir-base (b'c' ∷ []) ((b'a' ∷ []) ∷ [])
      ((refl, refl, refl, refl), ((refl, refl, refl, refl), tt))

abbrev packed : Node
packed = record file { state = stored; size = 5 }

abbrev pub blob : ℕ → ℕ → Blob
blob id count = record {
  id = id;
  channel_id = 1;
  message_id = id;
  message_seq = id;
  size = 100;
  content_hash = [];
  state = stored_blob;
  refcount = pos count;
  created_at = 0;
  sealed_at = none;
}

abbrev pub extent : ℕ → ℕ → ℕ → Extent
extent node seq blob = record {
  id = node * 10 + seq;
  node_id = node;
  seq = seq;
  file_offset = 2 * seq;
  length = 2;
  blob_id = blob;
  blob_offset = 0;
}

abbrev shared : World
shared = record world {
  db = record tables {
    nodes = record { node = packed; lease_owner = 0; lease_until = none } ∷ [];
    extents = extent 7 1 31 ∷ extent 8 0 31 ∷ extent 7 0 31 ∷ extent 7 2 32 ∷ [];
    blobs = blob 31 3 ∷ blob 32 1 ∷ [];
  };
}

program : Unit {0}
unfolding truncate_node truncate_body release_extents list_by_node extents_of order_by add_refcounts
    add_delta release_deltas ◌+ℤ◌ ◌-ℤ◌ ◌>>=◌ attempt query with_tx new_id get_now delete_by_node
    without_extents_of share_extents copy_file copy_for_node copy_extents copied bump_deltas
    create_node insert_node clashes has_parent is_at to_fs_err split_file base delete_chunks
    get_by_id find_by_id update_node update_in
program = tt

truncate_node-IsBalanced_example : IsBalanced (truncate_node env packed shared).1.db
truncate_node-IsBalanced_example =
    truncate_node-IsBalanced env packed shared refl (refl, (refl, tt))

truncated : (truncate_node env packed shared).0 ≡ ok tt
unfolding program
truncated = refl

truncate_node-IsEmptied_example : IsEmptied 7 (truncate_node env packed shared).1.db
truncate_node-IsEmptied_example =
    truncate_node-IsEmptied env packed shared (refl, (refl, tt)) truncated

abbrev target : Bytes
target = b'/' ∷ b'z' ∷ []

copied_to : (copy_file env 1 packed target none shared).0 ≡ ok tt
unfolding program
copied_to = refl

copy_file-IsShared_example :
    (copy : Node) × IsCopy env shared.db.extents shared.db.nodes 1 packed target none copy
    × IsShared env shared.db.extents 7 copy.id (copy_file env 1 packed target none shared).1.db
    × ((copy_file env 1 packed target none shared).1.db.nodes
        ≡ shared.db.nodes ++ row_for copy ∷ [])
copy_file-IsShared_example =
    copy_file-IsShared env 1 packed target none shared refl (refl, (refl, tt)) copied_to
