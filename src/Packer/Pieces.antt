-- ===== src/Packer/Pieces.antt =====
-- The pieces into which splitLarge cuts a file, and what is read from them.
use mathlib.Core.List.{append_assoc, append-nil}
use tgwebdav.Base.{
  ℕ, zero, suc, ◌+◌, ◌-◌, ◌≤◌, ◌<◌, ◌≡◌, refl, ap, sym, ◌∙◌, subst, true, false, not, Option, some,
  List, [], ◌∷◌, ◌++◌, arith, ltb, ◌==◌, length, take, drop, min, All, length-take, length-drop,
  drop-drop, take_of_length-le,
}
use tgwebdav.Model.{Uuid, Bytes, Node, Extent}
use tgwebdav.Packer.{
  Track, BlobJob, fail_track, piece_extent, planned_piece, Split, after_piece, split_loop,
}
use tgwebdav.Repository.WalChunks.{assemble, range_of, read_range}
use tgwebdav.Store.{ok, Db, World, Exec, pure, ◌>>=◌, attempt, query}
use tgwebdav.Store.Rules.{
  Gives, Gives-pure, Gives-if, Gives-bind, Gives-query, Gives-new_id, Gives-attempt_ok,
}
use tgwebdav.Wal.Windows.{rows_of, IsChunked, range_of_in_order}
use tgwebdav.WebdavFs.Env.{Env}
use tgwebdav.WebdavFs.Reader.{ExtentReader}
use tgwebdav.WebdavFs.Reader.Drain.{drain, drain-content}
use tgwebdav.WebdavFs.Reader.Tiles.{Tiles}

-- a fresh reader of a file
abbrev pub reader_at : List Extent → ℕ → ℕ → ExtentReader
reader_at extents size pos = record {
  extents = extents;
  pos = pos;
  size = size;
  cur_blob = 0;
  cur_bytes = [];
  have_blob = false;
}

-- every job's bytes can be read as a blob
abbrev pub AreReadable : (Uuid → Option Bytes) → List BlobJob → Type 0
AreReadable read_blob jobs = All (λ (j : BlobJob). read_blob j.blob_id ≡ some j.bytes) jobs

module _ (env : Env) (owner : ℕ) (channel : Uuid) (node : Uuid) (content : Bytes) where
  -- The node's chunks are in order and spell out the content.
  abbrev pub IsLogged : Db → Type 0
  IsLogged d =
      IsChunked env.chunk_size 0 (rows_of env.chunk_size node d.wal_chunks)
      × (assemble (rows_of env.chunk_size node d.wal_chunks) ≡ content)

  -- What the loop makes of the file from an offset on.
  pub record IsCut (blob_max off : ℕ) (t : Track) (s : Split env owner) : Type 0 where
    pub pieces : List Extent
    pub added : s.0.extents ≡ t.extents ++ pieces
    pub small : All (λ (j : BlobJob). length j.bytes ≤ blob_max) s.1
    pub counted : s.0.remaining ≡ t.remaining + length s.1
    pub tiled :
        (read_blob : Uuid → Option Bytes)
        → AreReadable read_blob s.1
        → Tiles read_blob off pieces (drop off content)

  -- It got to the end, or a call failed and the track with it.
  abbrev pub Ends : ℕ → ℕ → Track → Split env owner → Type 0
  Ends blob_max off t s = (s.2 ≡ true → IsCut blob_max off t s) × (s.2 ≡ false → s.0.failed ≡ true)

  finished-Ends :
      (blob_max off : ℕ) (t : Track) → length content ≤ off → Ends blob_max off t (t, [], true)
  finished-Ends blob_max off t h = (
    λ _. record {
      pieces = [];
      added = sym (append-nil t.extents);
      small = tt;
      counted = omega arith;
      tiled = λ rb r. omega (arith, length-drop off content);
    },
    λ e. cc e,
  )

  failed-Gives :
      (blob_max off : ℕ) (t : Track)
      → Gives
          (λ _. Unit {0})
          (fail_track env owner t >>= λ t'. pure (t', [], false))
          (λ s _. Ends blob_max off t s)
  unfolding fail_track
  failed-Gives blob_max off t =
      Gives-bind (λ t' _. t'.failed ≡ true) _ _
        (Gives-bind (λ _ _. Unit {0}) _ _ (anything _) (λ _. Gives-pure _ (λ d p. refl)))
        (λ t'. Gives-pure _ (λ d p. (λ e. cc e, λ _. p)))
    where
      anything : (m : Exec (Unit {0})) → Gives (λ _. Unit {0}) m (λ _ _. Unit {0})
      anything m = record { at = λ w a p e. tt }

  read-Gives :
      (off n : ℕ)
      → 0 < env.chunk_size
      → 0 < n
      → Gives IsLogged
          (read_range env.chunk_size node off n)
          (λ bytes d. IsLogged d × (bytes ≡ take n (drop off content)))
  unfolding read_range
  read-Gives off n positive some' =
      Gives-if (n == 0) (pure [])
        (query (λ d. (ok (range_of env.chunk_size node off n d.wal_chunks), d)))
        (λ z. absurd (ground (arith, z)))
        (λ _. Gives-query _ (λ d bytes p e.
          let same : range_of env.chunk_size node off n d.wal_chunks ≡ bytes = cc e in
          (
            p,
            sym same
                ∙ range_of_in_order env.chunk_size positive node off n d.wal_chunks p.0
                ∙ ap (λ c. take n (drop off c)) p.1,
          )))

  -- One piece in front of the pieces that follow.
  piece-IsCut :
      (blob_max off seq blob_id id : ℕ) (t : Track) (bytes : Bytes) (s : Split env owner)
      → 0 < length bytes
      → length bytes ≤ blob_max
      → bytes ≡ take (length bytes) (drop off content)
      → IsCut blob_max
          (off + length bytes)
          (planned_piece env owner t (piece_extent env owner t id blob_id seq off bytes))
          s
      → (j : BlobJob) → j.bytes ≡ bytes
      → j.blob_id ≡ blob_id
      → IsCut blob_max off t (s.0, j ∷ s.1, s.2)
  piece-IsCut blob_max off seq blob_id id t bytes s some' fits stands cut j jb ji = record {
    pieces = piece_extent env owner t id blob_id seq off bytes ∷ cut.pieces;
    added = cut.added ∙ append_assoc t.extents _ cut.pieces;
    small = (omega (arith, ap (length {A = ℕ}) jb), cut.small);
    counted = omega (arith, cut.counted);
    tiled = λ rb r.
        let readable : rb blob_id ≡ some bytes = ap rb (sym ji) ∙ r.0 ∙ ap some jb in
        (
          refl,
          some',
          omega (arith, ap (length {A = ℕ}) stands, length-take (length bytes) (drop off content)),
          (
            bytes,
            readable,
            omega arith,
            take_of_length-le (length bytes) bytes (omega arith) ∙ stands,
          ),
          subst (Tiles rb (off + length bytes) cut.pieces)
              (sym (drop-drop (length bytes) off content)) (cut.tiled rb r.1),
        );
  }

  piece-Gives :
      (blob_max off seq n : ℕ) (t : Track) (bytes : Bytes)
      → 0 < n
      → n ≤ blob_max
      → off + n ≤ length content
      → (again : Track → ℕ → ℕ → Exec (Split env owner))
      → ((t' : Track)
          → t'.node ≡ t.node
          → 0 < length bytes
          → Gives IsLogged
              (again t' (off + length bytes) (suc seq))
              (λ s _. Ends blob_max (off + length bytes) t' s))
      → Gives
          (λ d. IsLogged d × (bytes ≡ take n (drop off content)))
          (after_piece env owner channel t off seq again (ok bytes))
          (λ s _. Ends blob_max off t s)
  piece-Gives blob_max off seq n t bytes some' fits inside again rest =
      Gives-bind Found _ _ (Gives-new_id env.uuids) (λ blob_id.
        Gives-bind Found _ _ (Gives-new_id env.uuids) (λ id. record {
          at = λ w s p e.
              let t' =
                planned_piece env owner t (piece_extent env owner t id blob_id seq off bytes) in
              let count : length bytes ≡ n = omega (
                arith,
                ap (length {A = ℕ}) p.1,
                length-take n (drop off content),
                length-drop off content,
              ) in
              let stands = p.1 ∙ ap (λ k. take k (drop off content)) (sym count) in
              let more : 0 < length bytes = omega (arith, count) in
              (Gives-bind {P = IsLogged} {Q = λ x _. Ends blob_max off t x}
                  (λ r _. Ends blob_max (off + length bytes) t' r) _ _ (rest t' refl more)
                  (λ r. Gives-pure _ (λ d ends. (
                    λ ok'.
                        piece-IsCut blob_max off seq blob_id id t bytes r more
                          (omega (arith, count)) stands (ends.0 ok') _ refl refl,
                    ends.1,
                  )))).at
                w s p.0 e;
        }))
    where
      Found : Uuid → Db → Type 0
      Found _ d = IsLogged d × (bytes ≡ take n (drop off content))

  split_loop-Ends :
      (blob_max : ℕ)
      → 0 < env.chunk_size
      → 0 < blob_max
      → (fuel : ℕ) (t : Track) (off seq : ℕ) → t.node.id ≡ node
      → t.node.size ≡ length content
      → t.node.size ≤ off + fuel
      → Gives IsLogged
          (split_loop env owner blob_max fuel channel t off seq)
          (λ s _. Ends blob_max off t s)
  unfolding split_loop
  split_loop-Ends blob_max chunks room zero t off seq own size enough =
      let done : not (ltb off t.node.size) ≡ true = ground arith in
      rw done (Gives-pure _ (λ d p. finished-Ends blob_max off t (omega (arith, size))))
  split_loop-Ends blob_max chunks room (suc fuel) t off seq own size enough =
      Gives-if (ltb off t.node.size)
        (attempt (read_range env.chunk_size t.node.id off n)
          (after_piece env owner channel t off seq again))
        (pure (t, [], true))
        (λ more.
          Gives-attempt_ok (λ bytes d. IsLogged d × (bytes ≡ take n (drop off content)))
            (read_range env.chunk_size t.node.id off n)
            (after_piece env owner channel t off seq again)
            (subst
              (λ i.
                Gives IsLogged (read_range env.chunk_size i off n)
                  (λ bytes d. IsLogged d × (bytes ≡ take n (drop off content))))
              (sym own) (read-Gives off n chunks (ground (arith, more))))
            (λ bytes.
              piece-Gives blob_max off seq n t bytes (ground (arith, more)) (omega arith)
                (ground (arith, more, size)) again
                (λ t' same some'.
                  split_loop-Ends blob_max chunks room fuel t' (off + length bytes) (suc seq)
                    (ap (λ (x : Node). x.id) same ∙ own) (ap (λ (x : Node). x.size) same ∙ size)
                    (omega (arith, ap (λ (x : Node). x.size) same))))
            (λ e. failed-Gives blob_max off t))
        (λ less. Gives-pure _ (λ d p. finished-Ends blob_max off t (ground (arith, less, size))))
    where
      n : ℕ
      n = min blob_max (t.node.size - off)

      again : Track → ℕ → ℕ → Exec (Split env owner)
      again = split_loop env owner blob_max fuel channel

-- splitLarge's loop over a file whose chunks are in order and spell out its content, when it gets to
-- the end: every job has at most a blob's bytes, and the track waits for all of them. And once their
-- blobs can be read, reading the file by its new extents, from any position to the end and through a
-- buffer of any positive size, gives exactly its content from there.
pub split_loop-drain :
    (env : Env) (owner blob_max : ℕ) (channel : Uuid) (t : Track) (content : Bytes) (w : World)
    (s : Split env owner) (read_blob : Uuid → Option Bytes) (pos room : ℕ)
    → 0 < env.chunk_size
    → 0 < blob_max
    → (t.extents ≡ []) × (t.node.size ≡ length content)
    → IsLogged env owner channel t.node.id content w.db
    → (split_loop env owner blob_max t.node.size channel t 0 0 w).0 ≡ ok s
    → s.2 ≡ true
    → AreReadable read_blob s.1
    → 0 < room
    → All (λ (j : BlobJob). length j.bytes ≤ blob_max) s.1
      × (s.0.remaining ≡ t.remaining + length s.1)
      × (drain read_blob room (suc (length content)) (reader_at s.0.extents (length content) pos)
          ≡ (drop pos content, ok tt))
split_loop-drain env owner blob_max channel t content w s rb pos buffer chunks room (fresh, size)
      logged e done readable positive =
    let ends =
      (split_loop-Ends env owner channel t.node.id content blob_max chunks room t.node.size t 0 0
          refl size (omega arith)).at
        w s logged e in
    let cut = ends.0 done in
    (
      cut.small,
      cut.counted,
      drain-content rb (reader_at s.0.extents (length content) pos) buffer (suc (length content))
          content positive
          (subst (λ es. Tiles rb 0 es content) (sym (cut.added ∙ ap (λ x. x ++ cut.pieces) fresh))
            (cut.tiled rb readable))
          refl (λ no'. cc no') (omega arith),
    )

-- Over such a file, the loop does not get to the end only if the track is failed: its fuel, the size
-- of the file, is enough.
pub split_loop-failed :
    (env : Env) (owner blob_max : ℕ) (channel : Uuid) (t : Track) (content : Bytes) (w : World)
    (s : Split env owner)
    → 0 < env.chunk_size
    → 0 < blob_max
    → t.node.size ≡ length content
    → IsLogged env owner channel t.node.id content w.db
    → (split_loop env owner blob_max t.node.size channel t 0 0 w).0 ≡ ok s
    → s.2 ≡ false
    → s.0.failed ≡ true
split_loop-failed env owner blob_max channel t content w s chunks room size logged e short =
    ((split_loop-Ends env owner channel t.node.id content blob_max chunks room t.node.size t 0 0
          refl size (omega arith)).at
        w s logged e).1
      short
