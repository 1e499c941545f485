-- ===== src/WebdavFs/Writer/Layout.antt =====
-- What a writer leaves in the WAL: full chunks, numbered from 0, that with the buffer spell out
-- exactly the bytes written.
use mathlib.Core.List.{append_assoc, append-nil}
use tgwebdav.Base.{
  ℕ, zero, suc, ◌+◌, ◌≤◌, ◌<◌, ◌≡◌, refl, ap, sym, ◌∙◌, Bool, true, false, List, [], ◌∷◌, ◌++◌,
  arith, leb, leb→le, ◌==◌, ==_refl, if◌then◌else◌, length, take, drop, length-append, length-take,
  length-drop, take-append-drop, keep-append,
}
use tgwebdav.Model.{Bytes, WalChunk}
use tgwebdav.Repository.WalChunks.{
  append_chunk, is_taken, has_node, insert_chunk_if, insert_chunk, assemble,
}
use tgwebdav.Store.{Result, ok, err, Db, pure, attempt}
use tgwebdav.Store.Rules.{
  Gives, Gives-pure, Gives-if, Gives-attempt_Ends, Ends, Ends-query, Ends-bind, Ends-pure,
  Ends-new_id, Ends-get_now,
}
use tgwebdav.Wal.Windows.{rows_of, IsChunked}
use tgwebdav.WebdavFs.Env.{Env}
use tgwebdav.WebdavFs.Writer.{Writer, chunk_of, flush_chunk, after_flush, flush_full}

module _ (chunk_size : ℕ) where
  abbrev pub AllFull : ℕ → List WalChunk → Type 0
  AllFull seq [] = Unit
  AllFull seq (c ∷ cs) = (c.seq ≡ seq) × (length c.bytes ≡ chunk_size) × AllFull (suc seq) cs

  pub AllFull-append :
      (seq : ℕ) (cs : List WalChunk) (c : WalChunk)
      → AllFull seq cs
      → c.seq ≡ seq + length cs
      → length c.bytes ≡ chunk_size
      → AllFull seq (cs ++ c ∷ [])
  AllFull-append seq [] c h e l = (omega arith, l, tt)
  AllFull-append seq (x ∷ xs) c h e l =
      (h.0, h.1, AllFull-append (suc seq) xs c h.2 (omega arith) l)

  pub AllFull-IsChunked :
      (seq : ℕ) (cs : List WalChunk) → 0 < chunk_size → AllFull seq cs → IsChunked chunk_size seq cs
  AllFull-IsChunked seq [] p h = tt
  AllFull-IsChunked seq (x ∷ []) p h = (h.0, (omega (arith, h.1), omega (arith, h.1)), tt)
  AllFull-IsChunked seq (x ∷ y ∷ ys) p h = (h.0, h.1, AllFull-IsChunked (suc seq) (y ∷ ys) p h.2)

  -- A last chunk that need not be full.
  pub AllFull-last :
      (seq : ℕ) (cs : List WalChunk) (c : WalChunk)
      → AllFull seq cs
      → c.seq ≡ seq + length cs
      → (0 < length c.bytes) × (length c.bytes ≤ chunk_size)
      → IsChunked chunk_size seq (cs ++ c ∷ [])
  AllFull-last seq [] c h e l = (omega arith, l, tt)
  AllFull-last seq (x ∷ []) c h e l = (h.0, h.1, (omega (arith, h.0), l, tt))
  AllFull-last seq (x ∷ y ∷ ys) c h e l =
      (h.0, h.1, AllFull-last (suc seq) (y ∷ ys) c h.2 (omega arith) l)

pub assemble-append : (xs ys : List WalChunk) → assemble (xs ++ ys) ≡ assemble xs ++ assemble ys
unfolding assemble
assemble-append [] ys = refl
assemble-append (x ∷ xs) ys =
    ap (λ r. x.bytes ++ r) (assemble-append xs ys)
    ∙ sym (append_assoc x.bytes (assemble xs) (assemble ys))

pub assemble_snoc :
    (xs : List WalChunk) (c : WalChunk) → assemble (xs ++ c ∷ []) ≡ assemble xs ++ c.bytes
unfolding assemble
assemble_snoc xs c = assemble-append xs (c ∷ []) ∙ ap (λ r. assemble xs ++ r) (append-nil c.bytes)

-- The writer's chunks in the table.
abbrev pub chunks_of : Env → Writer → Db → List WalChunk
chunks_of env w d = rows_of env.chunk_size w.node.id d.wal_chunks

pub record IsBuffered (env : Env) (w : Writer) (d : Db) : Type 0 where
  pub full : AllFull env.chunk_size 0 (chunks_of env w d)
  pub counted : length (chunks_of env w d) ≡ w.seq
  pub spelled : assemble (chunks_of env w d) ++ w.buf ≡ w.hasher
  pub sized : w.size ≡ length w.hasher

-- One more row of the node, with the given bytes.
abbrev pub Appended : Env → Writer → Bytes → List WalChunk → Result Writer → Db → Type 0
Appended env w bytes before (ok w') d =
    (w' ≡ record w { seq = suc w.seq })
    × (c : WalChunk) × (chunks_of env w d ≡ before ++ c ∷ [])
    × (c.bytes ≡ bytes)
    × (c.seq ≡ w.seq)
Appended env w bytes before (err e) d = chunks_of env w d ≡ before

rows_of-append :
    (k id : ℕ) (rows : List WalChunk) (c : WalChunk)
    → c.node_id ≡ id
    → rows_of k id (rows ++ c ∷ []) ≡ rows_of k id rows ++ c ∷ []
rows_of-append k id rows c e =
    let own : (c.node_id == id) ≡ true = rw e (==_refl id) in
    keep-append (λ (r : WalChunk). r.node_id == id) rows (c ∷ [])
    ∙ ap (λ t. rows_of k id rows ++ (if t then c ∷ [] else [])) own

module _ (env : Env) (w : Writer) (bytes : Bytes) (before : List WalChunk) where
  abbrev Inserted : WalChunk → Result (Unit {0}) → Db → Type 0
  Inserted c (ok _) d = chunks_of env w d ≡ before ++ c ∷ []
  Inserted c (err e) d = chunks_of env w d ≡ before

  insert_chunk-Inserted :
      (c : WalChunk) (d : Db)
      → c.node_id ≡ w.node.id
      → chunks_of env w d ≡ before
      → Inserted c (insert_chunk c d).0 (insert_chunk c d).1
  unfolding insert_chunk
  insert_chunk-Inserted c d own h = go (is_taken c d.wal_chunks) (has_node c.node_id d.nodes)
    where
      go :
          (taken known : Bool)
          → Inserted c (insert_chunk_if taken known c d).0 (insert_chunk_if taken known c d).1
      go true known = h
      go false true =
          rows_of-append env.chunk_size w.node.id d.wal_chunks c own ∙ ap (λ r. r ++ c ∷ []) h
      go false false = h

  -- A flush adds one chunk with the next number, or fails and adds none.
  pub flush_chunk-Appended :
      Ends (λ d. chunks_of env w d ≡ before) (flush_chunk env w bytes) (Appended env w bytes before)
  unfolding flush_chunk append_chunk
  flush_chunk-Appended =
      Ends-bind (λ _ d. chunks_of env w d ≡ before) _ _ (Ends-new_id env.uuids)
        (λ id.
          Ends-bind (λ _ d. chunks_of env w d ≡ before) _ _ Ends-get_now
            (λ now.
              let c = chunk_of w id now bytes in
              Ends-bind (Inserted c) _ _
                (Ends-query _ (λ d h. insert_chunk-Inserted c d refl h) (λ d h. h))
                (λ _. Ends-pure _ (λ d h. (refl, c, h, refl, refl))) (λ e d h. h))
            (λ e d h. h))
        (λ e d h. h)

module _ (env : Env) where
  -- What a call of `Write` leaves alone.
  abbrev pub Same : Writer → Writer → Type 0
  Same w w' =
      (w'.node ≡ w.node)
      × (w'.user ≡ w.user)
      × (w'.hasher ≡ w.hasher)
      × (w'.size ≡ w.size)
      × (w'.is_closed ≡ w.is_closed)

  abbrev pub Flushed : Writer → Writer × Result (Unit {0}) → Db → Type 0
  Flushed w x d =
      IsBuffered env x.0 d × Same w x.0 × (x.1 ≡ ok tt → length x.0.buf < env.chunk_size)

  -- One round of the loop.
  round-IsBuffered :
      (w : Writer) (d d' : Db) (w' : Writer)
      → IsBuffered env w d
      → env.chunk_size ≤ length w.buf
      → Appended env w (take env.chunk_size w.buf) (chunks_of env w d) (ok w') d'
      → IsBuffered env (record w' { buf = drop env.chunk_size w'.buf }) d'
  round-IsBuffered w d d' w' b long (same, c, rows, bytes, number) = rw same (record {
    full = rw rows (
        AllFull-append env.chunk_size 0 (chunks_of env w d) c b.full
          (omega (arith, number, b.counted))
          (omega (arith, ap (length {A = ℕ}) bytes, length-take env.chunk_size w.buf)));
    counted = rw rows (omega (arith, length-append (chunks_of env w d) (c ∷ []), b.counted));
    spelled =
        ap (λ r. assemble r ++ drop env.chunk_size w.buf) rows
        ∙ ap (λ r. r ++ drop env.chunk_size w.buf)
            (assemble_snoc (chunks_of env w d) c
              ∙ ap (λ r. assemble (chunks_of env w d) ++ r) bytes)
        ∙ append_assoc (assemble (chunks_of env w d)) _ _
        ∙ ap (λ r. assemble (chunks_of env w d) ++ r) (take-append-drop env.chunk_size w.buf)
        ∙ b.spelled;
    sized = b.sized;
  })

  -- A failed flush changes nothing that the invariant speaks of.
  failed-IsBuffered :
      (w : Writer) (d d' : Db)
      → IsBuffered env w d
      → chunks_of env w d' ≡ chunks_of env w d
      → IsBuffered env w d'
  failed-IsBuffered w d d' b e = record {
    full = rw e b.full;
    counted = rw e b.counted;
    spelled = rw e b.spelled;
    sized = b.sized;
  }

  -- The loop, from any tables in which the writer is in order, ends with the writer in order, failing
  -- or not; if it does not fail, less than a chunk is left in the buffer.
  pub flush_full-Flushed :
      0 < env.chunk_size
      → (fuel : ℕ) (w : Writer) → length w.buf ≤ fuel
      → (d₀ : Db) → IsBuffered env w d₀
      → Gives (λ d. chunks_of env w d ≡ chunks_of env w d₀) (flush_full env fuel w) (Flushed w)
  unfolding flush_full
  flush_full-Flushed positive zero w short d₀ b =
      Gives-pure _
        (λ d e. (failed-IsBuffered w d₀ d b e, (refl, refl, refl, refl, refl), λ _. omega arith))
  flush_full-Flushed positive (suc fuel) w short d₀ b =
      Gives-if (leb env.chunk_size (length w.buf))
        (attempt (flush_chunk env w (take env.chunk_size w.buf))
          (after_flush env (flush_full env fuel) w))
        (pure (w, ok tt))
        (λ long.
          Gives-attempt_Ends (Appended env w (take env.chunk_size w.buf) (chunks_of env w d₀))
            (flush_chunk env w (take env.chunk_size w.buf))
            (after_flush env (flush_full env fuel) w)
            (flush_chunk-Appended env w (take env.chunk_size w.buf) (chunks_of env w d₀))
            (after (leb→le _ _ long) (flush_full-Flushed positive fuel)))
        (λ enough. Gives-pure _ (λ d e. (
          failed-IsBuffered w d₀ d b e,
          (refl, refl, refl, refl, refl),
          λ _. ground (arith, enough),
        )))
    where
      after :
          env.chunk_size ≤ length w.buf
          → ((v : Writer)
              → length v.buf ≤ fuel
              → (d : Db) → IsBuffered env v d
              → Gives
                  (λ d'. chunks_of env v d' ≡ chunks_of env v d)
                  (flush_full env fuel v)
                  (Flushed v))
          → (r : Result Writer)
          → Gives
              (Appended env w (take env.chunk_size w.buf) (chunks_of env w d₀) r)
              (after_flush env (flush_full env fuel) w r)
              (Flushed w)
      after long again (err e) =
          Gives-pure _
            (λ d h. (failed-IsBuffered w d₀ d b h, (refl, refl, refl, refl, refl), λ bad. cc))
      after long again (ok w') = record {
        at = λ v x p e.
            let w'' : Writer = record w' { buf = drop env.chunk_size w'.buf } in
            let kept : w'.buf ≡ w.buf = ap (λ (u : Writer). u.buf) p.0 in
            let left : length w''.buf ≤ fuel =
              omega (arith, length-drop env.chunk_size w'.buf, ap (length {A = ℕ}) kept) in
            let done =
              (again w'' left v.db (round-IsBuffered w d₀ v.db w' b long p)).at v x refl e in
            (
              done.0,
              (
                done.1.0 ∙ ap (λ (u : Writer). u.node) p.0,
                done.1.1 ∙ ap (λ (u : Writer). u.user) p.0,
                done.1.2 ∙ ap (λ (u : Writer). u.hasher) p.0,
                done.1.3 ∙ ap (λ (u : Writer). u.size) p.0,
                done.1.4 ∙ ap (λ (u : Writer). u.is_closed) p.0,
              ),
              done.2,
            );
      }
