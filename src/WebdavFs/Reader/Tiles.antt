-- ===== src/WebdavFs/Reader/Tiles.antt =====
-- Extents that tile a file, and what a read of them gives.
use tgwebdav.Base.{
  ℕ, ◌+◌, ◌-◌, ◌≤◌, ◌<◌, ◌≡◌, refl, ap, sym, ◌∙◌, true, false, not, ◌||◌, Option, some, List, [],
  ◌∷◌, arith, ltb, leb, ◌==◌, ==_iff, Bool-cases, inl, inr, length, take, drop, slice, min,
  length-take, length-drop, drop-drop, drop-take, take-take, take_of_length-le, leb→le, ltb→lt,
}
use tgwebdav.Model.{Uuid, Bytes, Extent}
use tgwebdav.Store.{Result, ok}
use tgwebdav.WebdavFs.Reader.{
  ExtentReader, is_at_pos, extent_at, give, give_fetched, read_extent, read,
}

module _ (read_blob : Uuid → Option Bytes) where
  -- The extent's range of its blob is the start of `rest`.
  abbrev pub Holds : Extent → Bytes → Type 0
  Holds e rest =
      (b : Bytes) × (read_blob e.blob_id ≡ some b)
      × (e.blob_offset + e.length ≤ length b)
      × (take e.length (drop e.blob_offset b) ≡ take e.length rest)

  -- The extents lie side by side from an offset on, and their blobs hold the content.
  abbrev pub Tiles : ℕ → List Extent → Bytes → Type 0
  Tiles off [] content = length content ≡ 0
  Tiles off (e ∷ es) content =
      (e.file_offset ≡ off)
      × (0 < e.length)
      × (e.length ≤ length content)
      × Holds e content
      × Tiles (off + e.length) es (drop e.length content)

  -- Some extent covers each position.
  Covering : ℕ → ℕ → List Extent → Bytes → Type 0
  Covering off pos es content =
      (e : Extent) × (extent_at pos es ≡ some e)
      × (off ≤ e.file_offset)
      × (e.file_offset ≤ pos)
      × (pos < e.file_offset + e.length)
      × Holds e (drop (e.file_offset - off) content)

  covered :
      (off pos : ℕ) (es : List Extent) (content : Bytes)
      → Tiles off es content
      → off ≤ pos
      → pos < off + length content
      → Covering off pos es content
  unfolding extent_at Covering
  covered off pos [] content t low high = absurd (omega (arith, t))
  covered off pos (e ∷ es) content (start, some', fits, held, rest) low high =
      elim (Bool-cases (ltb pos (off + e.length))) [
        | inl t ↦
            let here : is_at_pos pos e ≡ true = ground (arith, start, t) in
            let zero' : e.file_offset - off ≡ 0 = omega arith in
            let from_start = ap (λ k. take e.length (drop k content)) (sym zero') in
            rw here (
              e,
              refl,
              omega arith,
              omega arith,
              omega (arith, ltb→lt _ _ t),
              (held.0, held.1, held.2, held.3 ∙ from_start),
            )
        | inr f ↦
            let away : is_at_pos pos e ≡ false = ground (arith, start, f) in
            let past : off + e.length ≤ pos = ground (arith, f) in
            let (x, at, a, b, c, h) =
              covered (off + e.length) pos es (drop e.length content) rest past
                (omega (arith, length-drop e.length content)) in
            let jump : e.length + (x.file_offset - (off + e.length)) ≡ x.file_offset - off =
              omega arith in
            let same =
              drop-drop (x.file_offset - (off + e.length)) e.length content
              ∙ ap (λ k. drop k content) jump in
            rw away (x, at, omega arith, b, c, (h.0, h.1, h.2, h.3 ∙ ap (take x.length) same))
      ]

  -- The reader's blob, if it has one, is that blob's bytes.
  abbrev pub IsFresh : ExtentReader → Type 0
  IsFresh r = r.have_blob ≡ true → read_blob r.cur_blob ≡ some r.cur_bytes

  -- A read in the middle of a file gives bytes that stand there, at least one, and moves on by them.
  abbrev pub Given : ExtentReader → ℕ → Bytes → ExtentReader × Result Bytes → Type 0
  Given r room content x =
      (bytes : Bytes) × (x.1 ≡ ok bytes)
      × (0 < room → 0 < length bytes)
      × (bytes ≡ take (length bytes) (drop r.pos content))
      × (x.0.pos ≡ r.pos + length bytes)
      × (x.0.extents ≡ r.extents)
      × (x.0.size ≡ r.size)
      × IsFresh x.0

  slice_same :
      (b content : Bytes) (bo fo len within k : ℕ)
      → take len (drop bo b) ≡ take len (drop fo content)
      → k ≤ len - within
      → take k (drop (bo + within) b) ≡ take k (drop (fo + within) content)
  slice_same b content bo fo len within k h small =
      ap (take k) (sym (drop-drop within bo b))
      ∙ sym (take-take k (len - within) (drop within (drop bo b)) small)
      ∙ ap (take k) (
          sym (drop-take within len (drop bo b))
          ∙ ap (drop within) h
          ∙ drop-take within len (drop fo content))
      ∙ take-take k (len - within) (drop within (drop fo content)) small
      ∙ ap (take k) (drop-drop within fo content)

  take-take-min : (m n : ℕ) (bs : Bytes) → take m (take n bs) ≡ take (min m n) bs
  take-take-min m n bs = elim (Bool-cases (leb m n)) [
    | inl t ↦
        let small = leb→le m n t in
        let e : m ≡ min m n = omega arith in take-take m n bs small ∙ ap (λ k. take k bs) e
    | inr f ↦
        let large : n ≤ m = ground (arith, f) in
        let e : n ≡ min m n = omega arith in
        take_of_length-le m (take n bs) (omega (arith, length-take n bs)) ∙ ap (λ k. take k bs) e
  ]

  give-Given :
      (r : ExtentReader) (e : Extent) (room : ℕ) (content : Bytes)
      → e.file_offset ≤ r.pos
      → r.pos < e.file_offset + e.length
      → e.blob_offset + e.length ≤ length r.cur_bytes
      → take e.length (drop e.blob_offset r.cur_bytes) ≡ take e.length (drop e.file_offset content)
      → IsFresh r
      → Given r room content (give read_blob r e room)
  give-Given r e room content low high fits same fresh =
      let within = r.pos - e.file_offset in
      let blob_pos = e.blob_offset + within in
      let left = e.length - within in
      let whole : ltb (length r.cur_bytes) (blob_pos + left) ≡ false = ground arith in
      let more : (left == 0) ≡ false = ground arith in
      let span : blob_pos + left - blob_pos ≡ left = omega arith in
      let k = min room left in
      let at : e.file_offset + within ≡ r.pos = omega arith in
      let taken : take room (slice blob_pos (blob_pos + left) r.cur_bytes)
          ≡ take k (drop blob_pos r.cur_bytes) =
        ap (λ n. take room (take n (drop blob_pos r.cur_bytes))) span
        ∙ take-take-min room left (drop blob_pos r.cur_bytes) in
      let content' : take k (drop blob_pos r.cur_bytes) ≡ take k (drop r.pos content) =
        slice_same r.cur_bytes content e.blob_offset e.file_offset e.length within k same
          (omega arith)
        ∙ ap (λ n. take k (drop n content)) at in
      let count : length (take k (drop blob_pos r.cur_bytes)) ≡ k =
        omega
          (arith, length-take k (drop blob_pos r.cur_bytes), length-drop blob_pos r.cur_bytes) in
      rw (whole, more, taken)
        (
          take k (drop blob_pos r.cur_bytes),
          refl,
          λ h. omega (arith, count),
          content' ∙ ap (λ n. take n (drop r.pos content)) (sym count),
          refl,
          refl,
          refl,
          fresh,
        )

  fetched-Given :
      (r : ExtentReader) (e : Extent) (room : ℕ) (content b : Bytes)
      → e.file_offset ≤ r.pos
      → r.pos < e.file_offset + e.length
      → e.blob_offset + e.length ≤ length b
      → take e.length (drop e.blob_offset b) ≡ take e.length (drop e.file_offset content)
      → read_blob e.blob_id ≡ some b
      → Given r room content (give_fetched read_blob (some b) r e room)
  fetched-Given r e room content b low high fits same h =
      give-Given (record r { cur_blob = e.blob_id; cur_bytes = b; have_blob = true }) e room content
        low high fits same (λ _. h)

  cached-Given :
      (r : ExtentReader) (e : Extent) (room : ℕ) (content b : Bytes)
      → e.file_offset ≤ r.pos
      → r.pos < e.file_offset + e.length
      → e.blob_offset + e.length ≤ length b
      → take e.length (drop e.blob_offset b) ≡ take e.length (drop e.file_offset content)
      → read_blob e.blob_id ≡ some b
      → IsFresh r
      → (not r.have_blob || not (r.cur_blob == e.blob_id)) ≡ false
      → Given r room content (give read_blob r e room)
  cached-Given r e room content b low high fits same h fresh f =
      let has : r.have_blob ≡ true = ground (arith, f) in
      let own : (r.cur_blob == e.blob_id) ≡ true = ground (arith, f) in
      let id : r.cur_blob ≡ e.blob_id = (==_iff r.cur_blob e.blob_id).0 own in
      let both : some b ≡ some r.cur_bytes = sym h ∙ ap read_blob (sym id) ∙ fresh has in
      let same' : b ≡ r.cur_bytes = cc both in
      give-Given r e room content low high (omega (arith, ap (length {A = ℕ}) same'))
        (ap (λ x. take e.length (drop e.blob_offset x)) (sym same') ∙ same) fresh

  read_covered-Given :
      (r : ExtentReader) (e : Extent) (room : ℕ) (content b : Bytes)
      → e.file_offset ≤ r.pos
      → r.pos < e.file_offset + e.length
      → e.blob_offset + e.length ≤ length b
      → take e.length (drop e.blob_offset b) ≡ take e.length (drop e.file_offset content)
      → read_blob e.blob_id ≡ some b
      → IsFresh r
      → Given r room content (read_extent read_blob (some e) r room)
  read_covered-Given r e room content b low high fits same h fresh =
      elim (Bool-cases (not r.have_blob || not (r.cur_blob == e.blob_id))) [
        | inl t ↦ rw (t, h) (fetched-Given r e room content b low high fits same h)
        | inr f ↦ rw f (cached-Given r e room content b low high fits same h fresh f)
      ]

  -- In the middle of a file that its extents tile, with blobs that can be read, `Read` gives bytes of
  -- the file that follow the position, at least one where there is room, and moves past them.
  pub read-Given :
      (r : ExtentReader) (room : ℕ) (content : Bytes)
      → Tiles 0 r.extents content
      → r.size ≡ length content
      → r.pos < r.size
      → IsFresh r
      → Given r room content (read read_blob r room)
  unfolding read Covering
  read-Given r room content t size inside fresh =
      let (e, at, low', low, high, (b, blob, fits, same)) =
        covered 0 r.pos r.extents content t (omega arith) (omega (arith, size)) in
      let start : e.file_offset - 0 ≡ e.file_offset = omega arith in
      let same' = same ∙ ap (λ k. take e.length (drop k content)) start in
      let open' : leb r.size r.pos ≡ false = ground arith in
      rw (open', at) (read_covered-Given r e room content b low high fits same' blob fresh)
