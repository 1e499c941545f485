-- ===== src/Tests/Files.antt =====
-- A PUT of ten bytes in chunks of four, and the queries behind it.
use tgwebdav.Base.{
  ℕ, ◌+◌, ◌*◌, ◌≡◌, refl, false, none, List, [], ◌∷◌, ◌++◌, arith, length, take, drop,
}
use tgwebdav.Model.{Bytes, Node, writing, User, WalChunk}
use tgwebdav.Repository.Nodes.{
  update_in, update_found, replace_node, update_row, has_parent, path_taken, is_at, find_by_id,
  get_by_id, update_node, sum_size_by_user, size_by_user,
}
use tgwebdav.Repository.Nodes.Like.{escape_like, like, has_prefix, like-escape_like}
use tgwebdav.Repository.Order.{order_by, insert_by}
use tgwebdav.Repository.WalChunks.{
  append_chunk, insert_chunk, is_taken, has_node, chunks_in, assemble, window, range_of,
}
use tgwebdav.Store.{
  Result, ok, err, Db, World, ◌>>=◌, attempt, query, with_tx, fail_if, new_id, get_now,
}
use tgwebdav.Wal.Windows.{ordered_rows, range_of-slice}
use tgwebdav.WebdavFs.Env.{Env, path_ext, ext_from, content_type_for}
use tgwebdav.WebdavFs.Writer.{
  Writer, flush_chunk, flush_full, write, check_quota_for, finalize_node, finish, close,
}
use tgwebdav.WebdavFs.Writer.Finish.{IsWhole, IsDescribed, close-IsWhole}
use tgwebdav.WebdavFs.Writer.Layout.{IsBuffered}
use tgwebdav.WebdavFs.Writer.Put.{Written, write-IsBuffered}
use tgwebdav.WebdavFs.Writer.RoundTrip.{put, body, put-range_of}

abbrev pub env : Env
env = record {
  uuids = λ n. 100 + n;
  fresh = λ id. id + 1000;
  digest = length;
  quoted = λ n. n;
  type_by_extension = length;
  nfc = λ name. name;
  chunk_size = 4;
}

abbrev pub file : Node
file = record {
  id = 7;
  user_id = 1;
  parent_id = none;
  name = b'a' ∷ b'.' ∷ b't' ∷ [];
  path = b'/' ∷ b'a' ∷ b'.' ∷ b't' ∷ [];
  is_dir = false;
  size = 0;
  content_hash = 0;
  etag = 0;
  content_type = 0;
  state = writing;
  created_at = 1;
  modified_at = 1;
}

abbrev pub owner : User
owner = record {
  id = 1;
  login = b'u' ∷ [];
  password_hash = [];
  is_admin = false;
  quota_bytes = 100;
  bandwidth_bps = 0;
  rate_per_min = 0;
  created_at = 0;
}

abbrev opened : Writer
opened = record {
  node = file;
  user = owner;
  hasher = [];
  buf = [];
  seq = 0;
  size = 0;
  is_closed = false;
}

abbrev pub tables : Db
tables = record {
  users = owner ∷ [];
  api_tokens = [];
  channels = [];
  bots = [];
  bot_channels = [];
  blob_bot_files = [];
  events = [];
  nodes = record { node = file; lease_owner = 0; lease_until = none } ∷ [];
  extents = [];
  wal_chunks = [];
  blobs = [];
}

abbrev pub world : World
world = record {
  db = tables;
  faults = [];
  in_tx = false;
  tx_aborted = false;
  drawn = 0;
  now = 5;
  root_ready = [];
  cache = record {
    max_bytes = 100;
    idle_ttl = 10;
    lru = [];
    total = 0;
    disk = λ _. none;
    next_ref = 0;
  };
  verified = [];
  bot_rr = 0;
  channel_rr = 0;
  replies = [];
  calls = [];
}

program : Unit {0}
unfolding put write close finish finalize_node check_quota_for flush_full flush_chunk ◌>>=◌ attempt
    query with_tx fail_if new_id get_now append_chunk insert_chunk is_taken has_node assemble
    chunks_in window range_of get_by_id find_by_id update_node update_in update_found replace_node
    update_row has_parent path_taken is_at sum_size_by_user content_type_for path_ext ext_from
    size_by_user order_by
program = tt

abbrev slices : List Bytes
slices = (1 ∷ 2 ∷ 3 ∷ []) ∷ (4 ∷ 5 ∷ 6 ∷ 7 ∷ []) ∷ (8 ∷ 9 ∷ 10 ∷ []) ∷ []

abbrev no_writer : Result (Writer × Result (Unit {0})) → Writer × Result (Unit {0})
no_writer (ok x) = x
no_writer (err e) = (opened, err e)

abbrev after : Writer × Result (Unit {0})
after = no_writer (put env slices opened world).0

put_done : (put env slices opened world).0 ≡ ok after
unfolding program
put_done = refl

-- Two full chunks and a short one; a read that starts in one chunk and ends in the next.
put_read : range_of 4 7 3 4 (put env slices opened world).1.db.wal_chunks ≡ 4 ∷ 5 ∷ 6 ∷ 7 ∷ []
unfolding program
put_read = refl

opened-IsBuffered : IsBuffered env opened world.db
unfolding assemble
opened-IsBuffered = record { full = tt; counted = refl; spelled = refl; sized = refl }

write-IsBuffered_example :
    (x : Writer × Result ℕ) × ((write env opened (1 ∷ 2 ∷ 3 ∷ 4 ∷ 5 ∷ []) world).0 ≡ ok x)
    × Written env opened
        (1 ∷ 2 ∷ 3 ∷ 4 ∷ 5 ∷ [])
        x
        (write env opened (1 ∷ 2 ∷ 3 ∷ 4 ∷ 5 ∷ []) world).1.db
write-IsBuffered_example =
    write-IsBuffered env (omega arith) opened (1 ∷ 2 ∷ 3 ∷ 4 ∷ 5 ∷ []) world refl opened-IsBuffered

put-range_of_example :
    (range_of 4 7 3 4 (put env slices opened world).1.db.wal_chunks ≡ take 4 (drop 3 (body slices)))
    × IsDescribed env after.0 (put env slices opened world).1.db
    × (after.0.hasher ≡ body slices)
unfolding program
put-range_of_example =
    put-range_of env slices opened world after 3 4 (omega arith) refl (refl, refl) opened-IsBuffered
      refl refl

-- a writer that holds three bytes
abbrev filled : Writer
filled = record opened { hasher = 1 ∷ 2 ∷ 3 ∷ []; buf = 1 ∷ 2 ∷ 3 ∷ []; size = 3 }

filled-IsBuffered : IsBuffered env filled world.db
unfolding assemble
filled-IsBuffered = record { full = tt; counted = refl; spelled = refl; sized = refl }

abbrev closed_one : Writer × Result (Unit {0})
closed_one = no_writer (close env filled world).0

close-IsWhole_example :
    (closed_one.0.hasher ≡ filled.hasher)
    × IsWhole env closed_one.0 (close env filled world).1.db
    × IsDescribed env closed_one.0 (close env filled world).1.db
unfolding program
close-IsWhole_example =
    close-IsWhole env filled world closed_one (omega arith) refl (omega arith) filled-IsBuffered
      refl refl

abbrev pub chunk : ℕ → ℕ → Bytes → WalChunk
chunk node seq bytes = record {
  id = node * 10 + seq;
  node_id = node;
  seq = seq;
  bytes = bytes;
  created_at = 0;
}

-- The chunks of two files, out of order.
abbrev chunks : List WalChunk
chunks =
    chunk 7 2 (5 ∷ [])
    ∷ chunk 8 0 (9 ∷ 9 ∷ [])
    ∷ chunk 7 0 (1 ∷ 2 ∷ [])
    ∷ chunk 7 1 (3 ∷ 4 ∷ [])
    ∷ []

range_of-slice_example :
    range_of 2 7 1 3 chunks ≡ take 3 (drop 1 (assemble (ordered_rows 7 chunks)))
unfolding order_by insert_by
range_of-slice_example =
    range_of-slice 2 (omega arith) 7 1 3 chunks
      (refl, refl, (refl, refl, (refl, (omega arith, omega arith), tt)))

like-escape_like_example :
    like
      (escape_like (b'/' ∷ b'a' ∷ b'_' ∷ []) ++ b'/' ∷ b'%' ∷ [])
      (b'/' ∷ b'a' ∷ b'x' ∷ b'/' ∷ [])
    ≡ has_prefix (b'/' ∷ b'a' ∷ b'x' ∷ b'/' ∷ []) ((b'/' ∷ b'a' ∷ b'_' ∷ []) ++ b'/' ∷ [])
like-escape_like_example =
    like-escape_like (b'/' ∷ b'a' ∷ b'_' ∷ []) (b'/' ∷ b'a' ∷ b'x' ∷ b'/' ∷ [])
