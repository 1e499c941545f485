-- ===== src/WebdavFs/Writer/RoundTrip.antt =====
-- A whole PUT, as the WebDAV handler drives it: `io.Copy` writes the body slice by slice and stops at
-- the first error, then the file is closed.
use mathlib.Core.List.{append_assoc, append-nil}
use tgwebdav.Base.{
  ℕ, ◌≤◌, ◌<◌, ◌≡◌, ap, sym, ◌∙◌, false, List, [], ◌∷◌, ◌++◌, arith, length, take, drop,
}
use tgwebdav.Model.{Bytes}
use tgwebdav.Repository.WalChunks.{range_of}
use tgwebdav.Store.{Result, ok, err, World, Exec, pure, ◌>>=◌}
use tgwebdav.Store.Rules.{bind_of_ok}
use tgwebdav.Wal.Windows.{range_of_in_order}
use tgwebdav.WebdavFs.Env.{Env}
use tgwebdav.WebdavFs.Writer.{Writer, write, close}
use tgwebdav.WebdavFs.Writer.Finish.{IsWhole, IsDescribed, close-IsWhole}
use tgwebdav.WebdavFs.Writer.Layout.{IsBuffered}
use tgwebdav.WebdavFs.Writer.Put.{Written, write-IsBuffered}

-- the bytes of all slices
abbrev pub body : List Bytes → Bytes
body [] = []
body (p ∷ ps) = p ++ body ps

module _ (env : Env) where
  abbrev go_on :
      (Writer → Exec (Writer × Result (Unit {0})))
      → Writer × Result ℕ
      → Exec (Writer × Result (Unit {0}))
  go_on rest (w, ok n) = rest w
  go_on rest (w, err e) = pure (w, err e)

  unfoldable pub put : List Bytes → Writer → Exec (Writer × Result (Unit {0}))
  unfolding write close
  put [] w = close env w
  put (p ∷ ps) w = write env w p >>= go_on (put ps)

  put-IsWhole :
      (ps : List Bytes) (w : Writer) (v : World) (x : Writer × Result (Unit {0}))
      → 0 < env.chunk_size
      → w.is_closed ≡ false
      → length w.buf ≤ env.chunk_size
      → IsBuffered env w v.db
      → (put ps w v).0 ≡ ok x
      → x.1 ≡ ok tt
      → (x.0.hasher ≡ w.hasher ++ body ps)
        × IsWhole env x.0 (put ps w v).1.db
        × IsDescribed env x.0 (put ps w v).1.db
  unfolding put
  put-IsWhole [] w v x positive opened short b e done =
      let r = close-IsWhole env w v x positive opened short b e done in
      (r.0 ∙ sym (append-nil w.hasher), r.1, r.2)
  put-IsWhole (p ∷ ps) w v x positive opened short b e done =
      let (y, wrote, fine) = write-IsBuffered env positive w p v opened b in
      let went = bind_of_ok (write env w p) (go_on (put ps)) v y wrote in
      rw went (next y.0 y.1 (write env w p v).1 fine (put-IsWhole ps) (rw went at e))
    where
      next :
          (w' : Writer) (r : Result ℕ) (v' : World)
          → Written env w p (w', r) v'.db
          → ((u : Writer) (v : World) (x : Writer × Result (Unit {0}))
              → 0 < env.chunk_size
              → u.is_closed ≡ false
              → length u.buf ≤ env.chunk_size
              → IsBuffered env u v.db
              → (put ps u v).0 ≡ ok x
              → x.1 ≡ ok tt
              → (x.0.hasher ≡ u.hasher ++ body ps)
                × IsWhole env x.0 (put ps u v).1.db
                × IsDescribed env x.0 (put ps u v).1.db)
          → (go_on (put ps) (w', r) v').0 ≡ ok x
          → (x.0.hasher ≡ w.hasher ++ body (p ∷ ps))
            × IsWhole env x.0 (go_on (put ps) (w', r) v').1.db
            × IsDescribed env x.0 (go_on (put ps) (w', r) v').1.db
      next w' (err z) v' fine again f =
          let answer : Writer × Result (Unit {0}) = (w', err z) in
          let same : answer ≡ x = cc f in
          let bad : err z ≡ ok tt = ap (λ (y : Writer × Result (Unit {0})). y.1) same ∙ done in
          cc bad
      next w' (ok n) v' fine again f =
          let room = fine.4 in
          let t = again w' v' x positive (fine.3 ∙ opened) (omega (arith, room.1)) fine.0 f done in
          (t.0 ∙ ap (λ h. h ++ body ps) fine.2 ∙ append_assoc w.hasher p (body ps), t.1, t.2)

  -- When every call of a PUT reports success, whatever else the tables hold, any range that is then
  -- read from the WAL is that range of the body, and the node has the body's length and hash and
  -- waits to be packed.
  pub put-range_of :
      (ps : List Bytes) (w : Writer) (v : World) (x : Writer × Result (Unit {0})) (offset len : ℕ)
      → 0 < env.chunk_size
      → w.is_closed ≡ false
      → (w.hasher ≡ []) × (w.buf ≡ [])
      → IsBuffered env w v.db
      → (put ps w v).0 ≡ ok x
      → x.1 ≡ ok tt
      → (range_of env.chunk_size x.0.node.id offset len (put ps w v).1.db.wal_chunks
          ≡ take len (drop offset (body ps)))
        × IsDescribed env x.0 (put ps w v).1.db
        × (x.0.hasher ≡ body ps)
  put-range_of ps w v x offset len positive opened start b e done =
      let short : length w.buf ≤ env.chunk_size = omega (arith, ap (length {A = ℕ}) start.1) in
      let (content, whole, described) = put-IsWhole ps w v x positive opened short b e done in
      let all : x.0.hasher ≡ body ps = content ∙ ap (λ h. h ++ body ps) start.0 in
      (
        range_of_in_order env.chunk_size positive x.0.node.id offset len _ whole.chunked
            ∙ ap (λ r. take len (drop offset r)) (whole.spelled ∙ all),
        described,
        all,
      )
