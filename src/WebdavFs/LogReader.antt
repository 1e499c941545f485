-- ===== src/WebdavFs/LogReader.antt =====
-- walReader of internal/service/webdavfs/file.go: the bytes of a file that is not packed yet, block by
-- block from its chunks. The reader with its new state is returned beside the bytes that it puts into a
-- slice of `room` bytes.
use tgwebdav.Base.{
  ℕ, zero, suc, ◌≡◌, ◌⊎◌, ◌≤◌, ◌<◌, ◌+◌, ◌-◌, refl, sym, ap, ◌∙◌, subst, true, false, Option, none,
  some, [], ◌∷◌, ◌++◌, ◌==◌, ltb, leb, leb→le, length, take, drop, drop-drop, take-append-drop,
  length-append, length-take, length-drop, drop_of_length-le, inl, inr, if◌then◌else◌, arith, min,
}
use mathlib.Core.List.{append_assoc}
use tgwebdav.Model.{Uuid, Instant, Bytes}
use tgwebdav.Repository.WalChunks.{assemble, range_of, read_range}
use tgwebdav.Store.Reads.{
  Reads, Reads-pure, Reads-raise, Reads-if, Reads-query, Reads-bind, Reads-attempt, Reads-fail,
}
use tgwebdav.Store.{
  Error, eof, storage, Result, ok, err, Db, World, Exec, pure, raise, ◌>>=◌, attempt,
}
use tgwebdav.Wal.Windows.{IsChunked, rows_of, range_of_in_order}

pub record WalReader : Type 0 where
  pub node_id : Uuid
  pub pos : ℕ
  pub size : ℕ
  pub buf : Bytes

-- walReadBlock
abbrev pub wal_read_block : ℕ
wal_read_block = 262144

-- how many bytes to ask for
abbrev pub block_of : WalReader → ℕ
block_of r = if ltb r.size (r.pos + wal_read_block) then r.size - r.pos else wal_read_block

-- `copy(p, w.buf)`, and the rest of the buffer
abbrev pub give_log : ℕ → WalReader → WalReader × Bytes
give_log room r = (record r { buf = drop room r.buf }, take room r.buf)

module _ (chunk_size : ℕ) where
  abbrev pub refilled : WalReader → Bytes → Exec WalReader
  refilled r bytes =
      if length bytes == 0
      then raise eof
      else pure (record r { buf = bytes; pos = r.pos + length bytes })

  -- the block at the position, when the buffer is empty
  unfoldable pub refill : WalReader → Exec WalReader
  refill r =
      if leb r.size r.pos
      then raise eof
      else (read_range chunk_size r.node_id r.pos (block_of r) >>= refilled r)

  -- Read
  unfoldable pub read_log : WalReader → ℕ → Exec (WalReader × Bytes)
  unfolding refill
  read_log r room =
      if length r.buf == 0
      then (refill r >>= λ r'. pure (give_log room r'))
      else pure (give_log room r)

  abbrev pub joined : Bytes → Option Bytes → Option Bytes
  joined bytes none = none
  joined bytes (some more) = some (bytes ++ more)

  abbrev pub log_next :
      (WalReader → Exec (Option Bytes)) → Result (WalReader × Bytes) → Exec (Option Bytes)
  log_next rest (ok (r, bytes)) = rest r >>= λ more. pure (joined bytes more)
  log_next rest (err eof) = pure (some [])
  log_next rest (err e) = raise e

  -- Reads through a slice of `room` bytes until `io.EOF`, as `io.Copy` does; `none` without fuel.
  unfoldable pub drain_log : ℕ → ℕ → WalReader → Exec (Option Bytes)
  unfolding read_log
  drain_log room zero r = pure none
  drain_log room (suc fuel) r = attempt (read_log r room) (log_next (drain_log room fuel))

take-drop_length : (n : ℕ) (xs : Bytes) → take n xs ++ drop (length (take n xs)) xs ≡ xs
take-drop_length zero xs = refl
take-drop_length (suc n) [] = refl
take-drop_length (suc n) (x ∷ xs) = ap (λ (ys : Bytes). x ∷ ys) (take-drop_length n xs)

module _ (chunk_size : ℕ) (positive : 0 < chunk_size) (d : Db) (n : Instant) (node_id : Uuid)
    (chunked : IsChunked chunk_size 0 (rows_of chunk_size node_id d.wal_chunks)) where
  abbrev content : Bytes
  content = assemble (rows_of chunk_size node_id d.wal_chunks)

  abbrev IsOn : WalReader → Type 0
  IsOn r = (r.node_id ≡ node_id) × (r.size ≡ length content)

  -- the bytes that the reader is still to give
  abbrev left : WalReader → Bytes
  left r = r.buf ++ drop r.pos content

  -- an error is the end of the file or a call that fails
  abbrev IsEnd : WalReader → Error → Type 0
  IsEnd r e = ((e ≡ eof) × (left r ≡ [])) ⊎ (e ≡ storage)

  abbrev IsStep : WalReader → WalReader × Bytes → Type 0
  IsStep r (r', bytes) = IsOn r' × (0 < length bytes) × (bytes ++ left r' ≡ left r)

  give_log-IsStep :
      (r : WalReader) (room : ℕ)
      → IsOn r
      → 0 < room
      → (length r.buf == 0) ≡ false
      → IsStep r (give_log room r)
  give_log-IsStep r room on some_room some_bytes = (
    on,
    nonempty (length-take room r.buf) (ground arith),
    sym (append_assoc (take room r.buf) (drop room r.buf) (drop r.pos content))
        ∙ ap (λ (bs : Bytes). bs ++ drop r.pos content) (take-append-drop room r.buf),
  )
    where
      nonempty :
          length (take room r.buf) ≡ min room (length r.buf)
          → 0 < length r.buf
          → 0 < length (take room r.buf)
      nonempty e h = omega arith

  abbrev IsFilled : WalReader → WalReader → Type 0
  IsFilled r r' = IsOn r' × ((length r'.buf == 0) ≡ false) × (left r' ≡ left r)

  block_of-pos : (r : WalReader) → r.pos < r.size → 0 < block_of r
  block_of-pos r h = ground arith

  -- What the block holds.
  abbrev block : WalReader → Bytes
  block r = take (block_of r) (drop r.pos content)

  block-pos : (r : WalReader) → IsOn r → r.pos < r.size → (length (block r) == 0) ≡ false
  block-pos r on h = apart (length (block r)) (
      some_left (length-take (block_of r) (drop r.pos content)) (length-drop r.pos content) on.1
        (block_of-pos r h) h)
    where
      apart : (k : ℕ) → 0 < k → (k == 0) ≡ false
      apart k h = ground arith

      some_left :
          {a b l : ℕ}
          → length (block r) ≡ min a b
          → b ≡ l - r.pos
          → r.size ≡ l
          → 0 < a
          → r.pos < r.size
          → 0 < length (block r)
      some_left e f g h k = omega arith

  Reads-read_range :
      (r : WalReader)
      → IsOn r
      → r.pos < r.size
      → Reads d n
          (read_range chunk_size r.node_id r.pos (block_of r))
          (λ bs. bs ≡ block r)
          (λ e. e ≡ storage)
  unfolding read_range
  Reads-read_range r on below =
      Reads-if (block_of r == 0) _ _ (λ t. none_asked (block_of-pos r below) t)
        (λ f.
          Reads-query (λ x. ok (range_of chunk_size r.node_id r.pos (block_of r) x.wal_chunks)) refl
            (λ bs e.
              let given : range_of chunk_size r.node_id r.pos (block_of r) d.wal_chunks ≡ bs =
                cc e in
              sym given
              ∙ ap (λ k. range_of chunk_size k r.pos (block_of r) d.wal_chunks) on.0
              ∙ range_of_in_order chunk_size positive node_id r.pos (block_of r) d.wal_chunks
                  chunked)
            (λ x e. cc e))
    where
      none_asked :
          {k : ℕ}
          → 0 < k
          → (k == 0) ≡ true
          → Reads d n (pure []) (λ bs. bs ≡ block r) (λ e. e ≡ storage)
      none_asked h t = absurd (clash h t)
        where
          clash : {k : ℕ} → 0 < k → (k == 0) ≡ true → ⊥
          clash h t = ground arith

  Reads-refill :
      (r : WalReader) → IsOn r → r.buf ≡ [] → Reads d n (refill chunk_size r) (IsFilled r) (IsEnd r)
  unfolding refill
  Reads-refill r on empty =
      Reads-if (leb r.size r.pos) _ _
        (λ t. Reads-raise eof (inl (refl, done (leb→le r.size r.pos t))))
        (λ f.
          let below : r.pos < r.size = before f in
          Reads-bind (λ bs. bs ≡ block r) _ _
            (Reads-fail (λ e h. inr h) (Reads-read_range r on below))
            (λ bs e.
              Reads-if (length bs == 0) _ _
                (λ t.
                  let some_bytes : (length bs == 0) ≡ false = rw e (block-pos r on below) in
                  cc (t, some_bytes))
                (λ some_bytes. Reads-pure _ (on, some_bytes, filled bs e))))
    where
      before : leb r.size r.pos ≡ false → r.pos < r.size
      before f = ground arith

      done : r.size ≤ r.pos → left r ≡ []
      done le = rw empty (drop_of_length-le r.pos content (omega (arith, on.1)))

      filled : (bs : Bytes) → bs ≡ block r → bs ++ drop (r.pos + length bs) content ≡ left r
      filled bs e =
          ap (λ (xs : Bytes). bs ++ xs) (sym (drop-drop (length bs) r.pos content))
          ∙ ap (λ (xs : Bytes). xs ++ drop (length xs) (drop r.pos content)) e
          ∙ take-drop_length (block_of r) (drop r.pos content)
          ∙ ap (λ (xs : Bytes). xs ++ drop r.pos content) (sym empty)

  -- One Read gives the next bytes, at least one of them, or tells the end.
  Reads-read_log :
      (r : WalReader) (room : ℕ)
      → IsOn r
      → 0 < room
      → Reads d n (read_log chunk_size r room) (IsStep r) (IsEnd r)
  unfolding read_log
  Reads-read_log r room on some_room =
      Reads-if (length r.buf == 0) _ _
        (λ t.
          Reads-bind (IsFilled r) _ _ (Reads-refill r on (empty r.buf t))
            (λ r' (on', some_bytes, same).
              let (on'', more, whole) = give_log-IsStep r' room on' some_room some_bytes in
              Reads-pure _ (on'', more, whole ∙ same)))
        (λ f. Reads-pure _ (give_log-IsStep r room on some_room f))
    where
      empty : (bs : Bytes) → (length bs == 0) ≡ true → bs ≡ []
      empty [] t = refl
      empty (b ∷ bs) t = absurd (ground arith)

  Reads-drain_log :
      (room fuel : ℕ) (r : WalReader)
      → IsOn r
      → 0 < room
      → length (left r) < fuel
      → Reads d n (drain_log chunk_size room fuel r) (λ o. o ≡ some (left r)) (λ e. e ≡ storage)
  unfolding drain_log
  Reads-drain_log room zero r on some_room enough = absurd (omega arith)
  Reads-drain_log room (suc fuel) r on some_room enough =
      Reads-attempt (IsStep r) (IsEnd r) _ _ (Reads-read_log r room on some_room)
        (λ (r', bytes) (on', more, whole).
          Reads-bind (λ o. o ≡ some (left r')) _ _
            (Reads-drain_log room fuel r' on' some_room
              (shorter bytes (left r') (ap length whole ∙ refl) more))
            (λ o e. Reads-pure _ (ap (joined chunk_size bytes) e ∙ ap some whole)))
        (λ e h. ended e h)
    where
      shorter :
          (bytes rest : Bytes)
          → length (bytes ++ rest) ≡ length (left r)
          → 0 < length bytes
          → length rest < fuel
      shorter bytes rest e h = omega (arith, length-append bytes rest)

      Then : Error → Type 0
      Then e =
          Reads d n (log_next chunk_size (drain_log chunk_size room fuel) (err e))
            (λ o. o ≡ some (left r)) (λ x. x ≡ storage)

      ended : (e : Error) → IsEnd r e → Then e
      ended e (inl (same, nothing)) =
          subst Then (sym same) (Reads-pure (some []) (ap some (sym nothing)))
      ended e (inr same) = subst Then (sym same) (Reads-raise storage refl)

-- the content that the chunks spell out
abbrev pub logged : ℕ → Uuid → World → Bytes
logged chunk_size node_id w = assemble (rows_of chunk_size node_id w.db.wal_chunks)

-- newContentReader for a node that is not stored
abbrev pub reader_at : Uuid → ℕ → ℕ → WalReader
reader_at node_id size start = record { node_id = node_id; pos = start; size = size; buf = [] }

module _ (chunk_size : ℕ) (positive : 0 < chunk_size) (w : World) (node_id : Uuid)
    (chunked : IsChunked chunk_size 0 (rows_of chunk_size node_id w.db.wal_chunks)) where
  abbrev bytes : Bytes
  bytes = logged chunk_size node_id w

  -- For a chunk size that is not zero and a file whose chunks in the table are in order: reading
  -- it by walReader from any position through a slice of any positive size, in one round more than
  -- it has bytes, changes no table and either gives exactly the content that the chunks spell out,
  -- from there to the end, or reports the failure of a call.
  pub drain_log-content :
      (start room fuel : ℕ)
      → 0 < room
      → length bytes < fuel
      → (((drain_log chunk_size room fuel (reader_at node_id (length bytes) start) w).0
            ≡ ok (some (drop start bytes)))
          ⊎ ((drain_log chunk_size room fuel (reader_at node_id (length bytes) start) w).0
              ≡ err storage))
        × ((drain_log chunk_size room fuel (reader_at node_id (length bytes) start) w).1.db ≡ w.db)
  drain_log-content start room fuel some_room enough =
      let (same, time, good, bad) =
        (Reads-drain_log chunk_size positive w.db w.now node_id chunked room fuel
            (reader_at node_id (length bytes) start) (refl, refl) some_room
            (fits (length-drop start bytes))).at
          w refl refl in
      (either _ good bad, same)
    where
      either :
          (r : Result (Option Bytes))
          → ((o : Option Bytes) → r ≡ ok o → o ≡ some (drop start bytes))
          → ((e : Error) → r ≡ err e → e ≡ storage)
          → (r ≡ ok (some (drop start bytes))) ⊎ (r ≡ err storage)
      either (ok o) good bad = inl (ap ok (good o refl))
      either (err e) good bad = inr (ap err (bad e refl))

      fits : length (drop start bytes) ≡ length bytes - start → length (drop start bytes) < fuel
      fits e = omega arith
