-- ===== src/WebdavFs/Writer.antt =====
-- writeFile of internal/service/webdavfs/file.go: a PUT buffered into the WAL, chunk by chunk.
--
-- A call returns the file object as it leaves it, beside Go's result and error.
pub mod Layout
pub mod Put
pub mod Finish
pub mod RoundTrip
use tgwebdav.Base.{
  ℕ, zero, suc, ◌+◌, ◌-◌, ◌<◌, Bool, true, false, List, [], ◌∷◌, ◌++◌, ltb, leb, ◌==◌,
  if◌then◌else◌, length, take, drop,
}
use tgwebdav.Model.{Uuid, Bytes, Node, NodeState, buffered, User, WalChunk}
use tgwebdav.Repository.Nodes.{get_by_id, update_node, delete_node, sum_size_by_user}
use tgwebdav.Repository.WalChunks.{append_chunk, delete_chunks}
use tgwebdav.Store.{
  Result, ok, err, closed, quota_exceeded, Exec, pure, fail_if, ◌>>=◌, ◌>>◌, attempt, with_tx,
  new_id, get_now,
}
use tgwebdav.WebdavFs.Env.{Env, content_type_for}

pub record Writer : Type 0 where
  pub node : Node
  pub user : User
  -- what the hash has been fed
  pub hasher : Bytes
  pub buf : Bytes
  pub seq : ℕ
  pub size : ℕ
  pub is_closed : Bool

abbrev pub chunk_of : Writer → Uuid → ℕ → Bytes → WalChunk
chunk_of w id now bytes = record {
  id = id;
  node_id = w.node.id;
  seq = w.seq;
  bytes = bytes;
  created_at = now;
}

-- flushChunk
unfoldable pub flush_chunk : Env → Writer → Bytes → Exec Writer
flush_chunk env w bytes = do
  id ← new_id env.uuids
  now ← get_now
  append_chunk (chunk_of w id now bytes)
  pure (record w { seq = suc w.seq })

-- The loop of `Write`. Each round takes `chunk_size` bytes away, so the length of the buffer is fuel
-- enough where the chunk size is not zero.
abbrev pub after_flush :
    Env
    → (Writer → Exec (Writer × Result (Unit {0})))
    → Writer
    → Result Writer
    → Exec (Writer × Result (Unit {0}))
after_flush env again w (ok w') = again (record w' { buf = drop env.chunk_size w'.buf })
after_flush env again w (err e) = pure (w, err e)

unfoldable pub flush_full : Env → ℕ → Writer → Exec (Writer × Result (Unit {0}))
flush_full env zero w = pure (w, ok tt)
flush_full env (suc fuel) w =
    if leb env.chunk_size (length w.buf)
    then attempt (flush_chunk env w (take env.chunk_size w.buf))
        (after_flush env (flush_full env fuel) w)
    else pure (w, ok tt)

abbrev pub count_of : ℕ → Result (Unit {0}) → Result ℕ
count_of n (ok _) = ok n
count_of n (err e) = err e

abbrev pub take_in : Writer → Bytes → Writer
take_in w p = record w { hasher = w.hasher ++ p; size = w.size + length p; buf = w.buf ++ p }

-- Write
unfoldable pub write : Env → Writer → Bytes → Exec (Writer × Result ℕ)
unfolding flush_full
write env w p =
    if w.is_closed
    then pure (w, err closed)
    else flush_full env (length (w.buf ++ p)) (take_in w p) >>= λ r.
        pure (r.0, count_of (length p) r.1)

-- "logical size of all other file nodes + this file's new size", where there is a quota
unfoldable pub check_quota_for : Writer → Exec (Unit {0})
check_quota_for w =
    if ltb 0 w.user.quota_bytes
    then (sum_size_by_user w.user.id >>= λ used.
        fail_if (ltb w.user.quota_bytes (used + w.size)) quota_exceeded)
    else pure tt

abbrev pub finished : Env → Writer → ℕ → Node → Node
finished env w now n = record n {
  size = w.size;
  content_hash = env.digest w.hasher;
  etag = env.quoted (env.digest w.hasher);
  content_type = content_type_for env n.name;
  state = buffered;
  modified_at = now;
}

-- the transaction of `Close`
unfoldable pub finalize_node : Env → Writer → Exec (Unit {0})
unfolding check_quota_for
finalize_node env w = do
  now ← get_now
  check_quota_for w
  n ← get_by_id w.node.id
  update_node (finished env w now n)

-- what `Close` does when that fails: "a failed PUT leaves no ghost"
unfoldable pub discard_node : Writer → Exec (Unit {0})
discard_node w = with_tx (attempt (delete_chunks w.node.id) (λ _. delete_node w.node.id))

abbrev pub after_finalize : Writer → Result (Unit {0}) → Exec (Writer × Result (Unit {0}))
after_finalize w (ok _) = pure (w, ok tt)
after_finalize w (err e) = attempt (discard_node w) (λ _. pure (w, err e))

unfoldable pub finish : Env → Writer → Exec (Writer × Result (Unit {0}))
finish env w = attempt (with_tx (finalize_node env w)) (after_finalize w)

abbrev pub after_last : Env → Writer → Result Writer → Exec (Writer × Result (Unit {0}))
after_last env w (ok w') = finish env (record w' { buf = [] })
after_last env w (err e) = pure (w, err e)

abbrev pub flush_last : Env → Writer → Bytes → Exec (Writer × Result (Unit {0}))
flush_last env w [] = finish env w
flush_last env w (b ∷ bs) = attempt (flush_chunk env w (b ∷ bs)) (after_last env w)

-- Close
unfoldable pub close : Env → Writer → Exec (Writer × Result (Unit {0}))
unfolding finish
close env w =
    if w.is_closed then pure (w, ok tt) else flush_last env (record w { is_closed = true }) w.buf
