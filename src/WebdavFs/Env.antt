-- ===== src/WebdavFs/Env.antt =====
-- What the filesystem takes from packages outside the repository.
use tgwebdav.Base.{ℕ, [], ◌∷◌, ◌==◌, if◌then◌else◌}
use tgwebdav.Model.{Uuid, Bytes}

pub record Env : Type 0 where
  -- the values of `uuid.New`, in turn
  pub uuids : ℕ → Uuid
  -- the ids that Postgres gives to copied rows
  pub fresh : Uuid → Uuid
  -- SHA-256 in hexadecimal, and a text in quotes
  pub digest : Bytes → ℕ
  pub quoted : ℕ → ℕ
  -- `mime.TypeByExtension`, 0 for the empty answer
  pub type_by_extension : Bytes → ℕ
  -- Unicode NFC
  pub nfc : Bytes → Bytes
  -- model.WALChunkSize
  pub chunk_size : ℕ

-- "application/octet-stream" and "httpd/unix-directory", as labels
abbrev pub octet_stream : ℕ
octet_stream = 1

abbrev pub unix_directory : ℕ
unix_directory = 2

-- `path.Ext`: from the last dot of the last element; `seen` is what follows the byte at hand.
unfoldable pub ext_from : Bytes → Bytes → Bytes
ext_from best [] = best
ext_from best (b ∷ bs) = ext_from (if b == b'.' then b ∷ bs else if b == b'/' then [] else best) bs

unfoldable pub path_ext : Bytes → Bytes
unfolding ext_from
path_ext name = ext_from [] name

-- contentTypeFor
unfoldable pub content_type_for : Env → Bytes → ℕ
unfolding path_ext
content_type_for env name =
    let ct = env.type_by_extension (path_ext name) in if ct == 0 then octet_stream else ct
