-- ===== src/WebdavFs/Writer/Finish.antt =====
-- Closing a PUT: the last chunk, and the node that the file becomes.
use mathlib.Core.List.{append-nil}
use tgwebdav.Base.{
  ℕ, ◌+◌, ◌≤◌, ◌<◌, ◌≡◌, refl, ap, sym, ◌∙◌, if_false, true, false, [], ◌∷◌, ◌++◌, arith, ltb,
  length,
}
use tgwebdav.Model.{Bytes, Node, buffered}
use tgwebdav.Repository.Nodes.{
  found, find_by_id, get_by_id, update_node, update_in, update_row, sum_size_by_user,
}
use tgwebdav.Repository.Nodes.Lookup.{find_by_id-id, row_of-replace_node, update_in-ok}
use tgwebdav.Repository.WalChunks.{assemble}
use tgwebdav.Store.{Result, ok, err, quota_exceeded, Db, World, Exec, NodeRow, pure, fail_if, ◌>>=◌}
use tgwebdav.Store.Rules.{
  Gives-attempt, Gives, Gives-pre, Gives-pure, Gives-if, Gives-bind, Gives-query, Gives-with_tx,
  Gives-attempt_ok, Gives-attempt_Ends, Gives-get_now, Gives-fail_if, Gives-weaken,
}
use tgwebdav.Wal.Windows.{IsChunked}
use tgwebdav.WebdavFs.Env.{Env}
use tgwebdav.WebdavFs.Writer.{
  Writer, check_quota_for, finished, finalize_node, finish, after_last, flush_last, close,
}
use tgwebdav.WebdavFs.Writer.Layout.{
  IsBuffered, chunks_of, Appended, AllFull-IsChunked, AllFull-last, assemble_snoc,
  flush_chunk-Appended,
}

module _ (env : Env) where
  -- The writer's chunks spell out everything it has taken in.
  pub record IsWhole (w : Writer) (d : Db) : Type 0 where
    pub chunked : IsChunked env.chunk_size 0 (chunks_of env w d)
    pub spelled : assemble (chunks_of env w d) ≡ w.hasher
    pub sized : w.size ≡ length w.hasher

  -- The node of the writer describes that content and waits to be packed.
  abbrev pub IsDescribed : Writer → Db → Type 0
  IsDescribed w d =
      (n : Node) × (find_by_id w.node.id d.nodes ≡ ok n)
      × (n.size ≡ length w.hasher)
      × (n.content_hash ≡ env.digest w.hasher)
      × (n.state ≡ buffered)

  check_quota_for-Gives : {P : Db → Type 0} (w : Writer) → Gives P (check_quota_for w) (λ _. P)
  unfolding check_quota_for sum_size_by_user
  check_quota_for-Gives {P} w =
      let over = λ (used : ℕ). ltb w.user.quota_bytes (used + w.size) in
      Gives-if (ltb 0 w.user.quota_bytes)
        (sum_size_by_user w.user.id >>= λ used. fail_if (over used) quota_exceeded) (pure tt)
        (λ _.
          Gives-bind (λ _. P) _ _ (Gives-query _ (λ d a p e. p))
            (λ used. Gives-weaken (λ _ d p. p.0) (Gives-fail_if (over used) quota_exceeded)))
        (λ _. Gives-pure tt (λ d p. p))

  find-update :
      (w : Writer) (n : Node) (d : Db)
      → n.id ≡ w.node.id
      → (update_in n d).0 ≡ ok tt
      → (r : NodeRow) × (find_by_id w.node.id (update_in n d).1.nodes ≡ ok (update_row n r).node)
  unfolding find_by_id
  find-update w n d e h =
      let (r, old, new) = update_in-ok n d h in
      (r, rw (new, ← e) (ap found (row_of-replace_node n d.nodes r old)))

  finalize_node-Gives :
      (w : Writer) → Gives (IsWhole w) (finalize_node env w) (λ _ d. IsWhole w d × IsDescribed w d)
  unfolding finalize_node get_by_id update_node update_row
  finalize_node-Gives w =
      Gives-bind (λ _. IsWhole w) _ _ Gives-get_now
        (λ now.
          Gives-bind (λ _. IsWhole w) _ _ (check_quota_for-Gives w)
            (λ _.
              Gives-bind (λ n d. IsWhole w d × (n.id ≡ w.node.id)) _ _
                (Gives-query _ (λ d n p e. (p, find_by_id-id w.node.id d.nodes n e)))
                (λ n. Gives-query _ (λ d u p e. stored now n d p.0 p.1 e))))
    where
      stored :
          (now : ℕ) (n : Node) (d : Db)
          → IsWhole w d
          → n.id ≡ w.node.id
          → (update_in (finished env w now n) d).0 ≡ ok tt
          → IsWhole w (update_in (finished env w now n) d).1
            × IsDescribed w (update_in (finished env w now n) d).1
      stored now n d p own e =
          let (old, found', new) = update_in-ok (finished env w now n) d e in
          let (r, there) = find-update w (finished env w now n) d own e in
          (
            rw new (record { chunked = p.chunked; spelled = p.spelled; sized = p.sized }),
            ((update_row (finished env w now n) r).node, there, p.sized, refl, refl),
          )

  -- What `Close` answers.
  abbrev Closed : Bytes → Writer × Result (Unit {0}) → Db → Type 0
  Closed content x d = x.1 ≡ ok tt → (x.0.hasher ≡ content) × IsWhole x.0 d × IsDescribed x.0 d

  finish-Gives : (w : Writer) → Gives (IsWhole w) (finish env w) (Closed w.hasher)
  unfolding finish
  finish-Gives w =
      Gives-attempt_ok (λ _ d. IsWhole w d × IsDescribed w d) _ _
        (Gives-with_tx _ (finalize_node-Gives w)) (λ _. Gives-pure _ (λ d p done. (refl, p.0, p.1)))
        (λ e.
          Gives-attempt (λ _ _. Unit {0}) _ _ (λ v p. tt)
            (λ r. Gives-pure (w, err e) (λ d p done. cc)))

  emptied-IsWhole :
      (w : Writer) (d : Db) → 0 < env.chunk_size → w.buf ≡ [] → IsBuffered env w d → IsWhole w d
  emptied-IsWhole w d positive e b = record {
    chunked = AllFull-IsChunked env.chunk_size 0 (chunks_of env w d) positive b.full;
    spelled =
        sym (append-nil (assemble (chunks_of env w d)))
        ∙ ap (λ r. assemble (chunks_of env w d) ++ r) (sym e)
        ∙ b.spelled;
    sized = b.sized;
  }

  flushed-IsWhole :
      (w w' : Writer) (d₀ d : Db)
      → (0 < length w.buf) × (length w.buf ≤ env.chunk_size)
      → IsBuffered env w d₀
      → Appended env w w.buf (chunks_of env w d₀) (ok w') d
      → IsWhole (record w' { buf = [] }) d × (w'.hasher ≡ w.hasher)
  flushed-IsWhole w w' d₀ d size b (same, c, rows, bytes, number) = rw same (
    record {
      chunked = rw rows (
          AllFull-last env.chunk_size 0 (chunks_of env w d₀) c b.full
            (omega (arith, number, b.counted)) (omega (arith, ap (length {A = ℕ}) bytes)));
      spelled =
          ap assemble rows
          ∙ assemble_snoc (chunks_of env w d₀) c
          ∙ ap (λ r. assemble (chunks_of env w d₀) ++ r) bytes
          ∙ b.spelled;
      sized = b.sized;
    },
    refl,
  )

  flush_last-Gives :
      (w : Writer) (bytes : Bytes)
      → 0 < env.chunk_size
      → w.buf ≡ bytes
      → length w.buf ≤ env.chunk_size
      → Gives (IsBuffered env w) (flush_last env w bytes) (Closed w.hasher)
  flush_last-Gives w [] positive e short =
      Gives-pre (λ d b. emptied-IsWhole w d positive e b) (finish-Gives w)
  flush_last-Gives w (b ∷ bs) positive e short = record {
    at = λ v x p done.
        (Gives-attempt_Ends (Appended env w (b ∷ bs) (chunks_of env w v.db)) _ _
            (flush_chunk-Appended env w (b ∷ bs) (chunks_of env w v.db)) (after v.db p)).at
          v x refl done;
  }
    where
      long : 0 < length w.buf
      long = omega (arith, ap (length {A = ℕ}) e)

      after :
          (d₀ : Db)
          → IsBuffered env w d₀
          → (r : Result Writer)
          → Gives
              (Appended env w (b ∷ bs) (chunks_of env w d₀) r)
              (after_last env w r)
              (Closed w.hasher)
      after d₀ p (err x) = Gives-pure (w, err x) (λ d q done. cc)
      after d₀ p (ok w') = record {
        at = λ v x q done ok'.
            let q' : Appended env w w.buf (chunks_of env w d₀) (ok w') v.db =
              (q.0, q.1, q.2, q.3 ∙ sym e, q.4) in
            let whole = flushed-IsWhole w w' d₀ v.db (long, short) p q' in
            let r = (finish-Gives (record w' { buf = [] })).at v x whole.0 done ok' in
            (r.0 ∙ whole.1, r.1, r.2);
      }

  -- `Close` of an open writer in order with at most a chunk in its buffer, when it reports no error:
  -- the node's chunks follow the layout of model.WALChunkSize and spell out all that was written, the
  -- node has its length and hash and waits to be packed.
  pub close-IsWhole :
      (w : Writer) (v : World) (x : Writer × Result (Unit {0}))
      → 0 < env.chunk_size
      → w.is_closed ≡ false
      → length w.buf ≤ env.chunk_size
      → IsBuffered env w v.db
      → (close env w v).0 ≡ ok x
      → x.1 ≡ ok tt
      → (x.0.hasher ≡ w.hasher)
        × IsWhole x.0 (close env w v).1.db
        × IsDescribed x.0 (close env w v).1.db
  unfolding close
  close-IsWhole w v x positive opened short b e done =
      let w' : Writer = record w { is_closed = true } in
      let went : close env w v ≡ flush_last env w' w.buf v =
        ap (λ (m : Exec (Writer × Result (Unit {0}))). m v)
          (if_false w.is_closed (pure (w, ok tt)) (flush_last env w' w.buf) opened) in
      let b' : IsBuffered env w' v.db = record {
        full = b.full;
        counted = b.counted;
        spelled = b.spelled;
        sized = b.sized;
      } in
      let e' : (flush_last env w' w.buf v).0 ≡ ok x = rw (← went) e in
      rw went ((flush_last-Gives w' w.buf positive refl short).at v x b' e' done)
