-- ===== src/WebdavFs/Reader/Drain.antt =====
-- A stored file read to its end, as `io.Copy` reads it.
use tgwebdav.Base.{
  ℕ, zero, suc, ◌-◌, ◌<◌, ◌≡◌, refl, ap, sym, ◌∙◌, Bool-cases, inl, inr, [], ◌++◌, arith, leb,
  leb→le, length, drop, drop-drop, drop_of_length-le, take-append-drop, subst, Option, true, false,
}
use tgwebdav.Model.{Uuid, Bytes}
use tgwebdav.Store.{Result, ok, err, eof, storage}
use tgwebdav.WebdavFs.Reader.{ExtentReader, read}
use tgwebdav.WebdavFs.Reader.Tiles.{Tiles, IsFresh, Given, read-Given}

module _ (read_blob : Uuid → Option Bytes) where
  abbrev pub drain_next :
      Result Bytes
      → ExtentReader
      → (ExtentReader → Bytes × Result (Unit {0}))
      → Bytes × Result (Unit {0})
  drain_next (ok bytes) r rest = (bytes ++ (rest r).0, (rest r).1)
  drain_next (err eof) r rest = ([], ok tt)
  drain_next (err e) r rest = ([], err e)

  -- Reads through a buffer of `room` bytes until `io.EOF` or an error; without fuel, an error.
  unfoldable pub drain : ℕ → ℕ → ExtentReader → Bytes × Result (Unit {0})
  unfolding read
  drain room zero r = ([], err storage)
  drain room (suc fuel) r =
      drain_next (read read_blob r room).1 (read read_blob r room).0 (drain room fuel)

  at_end :
      (r : ExtentReader) (room : ℕ) → leb r.size r.pos ≡ true → read read_blob r room ≡ (r, err eof)
  unfolding read
  at_end r room t = rw t refl

  -- Reading a stored file from any position to its end, through a buffer of any positive size, gives
  -- exactly the rest of its content and no error, if its extents tile it and their blobs can be read;
  -- one round more than there are bytes left is enough.
  pub drain-content :
      (r : ExtentReader) (room fuel : ℕ) (content : Bytes)
      → 0 < room
      → Tiles read_blob 0 r.extents content
      → r.size ≡ length content
      → IsFresh read_blob r
      → r.size - r.pos < fuel
      → drain room fuel r ≡ (drop r.pos content, ok tt)
  unfolding drain
  drain-content r room zero content positive t size fresh enough = absurd (omega arith)
  drain-content r room (suc fuel) content positive t size fresh enough =
      elim (Bool-cases (leb r.size r.pos)) [
        | inl done ↦ rw (at_end r room done) (
            ap (λ (bs : Bytes). (bs, ok tt))
              (sym (drop_of_length-le r.pos content (omega (arith, size, leb→le _ _ done)))))
        | inr f ↦
            round (λ r' t' s' f' e'. drain-content r' room fuel content positive t' s' f' e')
              (read-Given read_blob r room content t size (ground (arith, f)) fresh) f
      ]
    where
      round :
          ((r' : ExtentReader)
            → Tiles read_blob 0 r'.extents content
            → r'.size ≡ length content
            → IsFresh read_blob r'
            → r'.size - r'.pos < fuel
            → drain room fuel r' ≡ (drop r'.pos content, ok tt))
          → Given read_blob r room content (read read_blob r room)
          → leb r.size r.pos ≡ false
          → drain_next (read read_blob r room).1 (read read_blob r room).0 (drain room fuel)
            ≡ (drop r.pos content, ok tt)
      round again (bytes, answer, some', stands, moved, extents, size', fresh') f =
          let next = (read read_blob r room).0 in
          let inside : r.pos < r.size = ground (arith, f) in
          let rest =
            again next (subst (λ es. Tiles read_blob 0 es content) (sym extents) t) (size' ∙ size)
              fresh' (omega (arith, moved, size', some' positive)) in
          rw (answer, rest, moved)
            (ap (λ (bs : Bytes). (bs, ok tt))
              (ap (λ x. bytes ++ x) (sym (drop-drop (length bytes) r.pos content))
                ∙ ap (λ x. x ++ drop (length bytes) (drop r.pos content)) stands
                ∙ take-append-drop (length bytes) (drop r.pos content)))
