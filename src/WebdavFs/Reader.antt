-- ===== src/WebdavFs/Reader.antt =====
-- extentReader of internal/service/webdavfs/file.go: the bytes of a stored file, from its blobs.
--
-- ReadBlob, the blob service, is an argument: the bytes of a blob, or `none` where it answers with an
-- error. A read takes the length of the slice that it fills, and gives the bytes that it puts there.
pub mod Tiles
pub mod Drain
use tgwebdav.Base.{
  ℕ, zero, suc, ◌+◌, ◌-◌, ◌≤◌, ◌<◌, Bool, true, false, not, ◌&&◌, ◌||◌, Option, none, some, List,
  [], ◌∷◌, ◌++◌, ltb, leb, ◌==◌, if◌then◌else◌, length, take, slice, find_first, min,
}
use tgwebdav.Model.{Uuid, Bytes, Extent}
use tgwebdav.Store.{Error, Result, ok, err, eof, unexpected_eof, blob_unavailable}

pub record ExtentReader : Type 0 where
  pub extents : List Extent
  pub pos : ℕ
  pub size : ℕ
  pub cur_blob : Uuid
  pub cur_bytes : Bytes
  pub have_blob : Bool

-- extentAt
abbrev pub is_at_pos : ℕ → Extent → Bool
is_at_pos pos e = leb e.file_offset pos && ltb pos (e.file_offset + e.length)

unfoldable pub extent_at : ℕ → List Extent → Option Extent
extent_at pos es = find_first (is_at_pos pos) es

module _ (read_blob : Uuid → Option Bytes) where
  -- the end of `Read`, with the blob of the extent at hand
  abbrev pub give : ExtentReader → Extent → ℕ → ExtentReader × Result Bytes
  give r e room =
      let within = r.pos - e.file_offset in
      let blob_pos = e.blob_offset + within in
      let left = e.length - within in
      let avail =
        if ltb (length r.cur_bytes) (blob_pos + left)
        then length r.cur_bytes - blob_pos
        else left in
      let bytes = take room (slice blob_pos (blob_pos + avail) r.cur_bytes) in
      if avail == 0
      then (r, err unexpected_eof)
      else (record r { pos = r.pos + length bytes }, ok bytes)

  abbrev pub give_fetched : Option Bytes → ExtentReader → Extent → ℕ → ExtentReader × Result Bytes
  give_fetched none r e room = (r, err blob_unavailable)
  give_fetched (some bytes) r e room =
      give (record r { cur_blob = e.blob_id; cur_bytes = bytes; have_blob = true }) e room

  abbrev pub read_extent : Option Extent → ExtentReader → ℕ → ExtentReader × Result Bytes
  read_extent none r room = (r, err eof)
  read_extent (some e) r room =
      if not r.have_blob || not (r.cur_blob == e.blob_id)
      then give_fetched (read_blob e.blob_id) r e room
      else give r e room

  -- Read
  unfoldable pub read : ExtentReader → ℕ → ExtentReader × Result Bytes
  unfolding extent_at
  read r room =
      if leb r.size r.pos then (r, err eof) else read_extent (extent_at r.pos r.extents) r room
