-- ===== src/Repository/BotFiles.antt =====
-- internal/repository/blobbotfile.go and the queries of db/query/blob_bot_file.sql: the file_ids by which
-- a bot can download a blob.
use tgwebdav.Base.{
  Bool, not, ◌&&◌, Option, none, some, List, [], ◌∷◌, ◌++◌, ◌==◌, if◌then◌else◌, keep, some_by,
  find_first, update_by,
}
use tgwebdav.Model.{Uuid, Blob, BlobBotFile}
use tgwebdav.Store.{Result, ok, err, not_found, storage, Db, Exec, BotRow, query}

abbrev pub is_file : Uuid → Uuid → BlobBotFile → Bool
is_file blob bot f = f.blob_id == blob && f.bot_id == bot

-- UpsertBlobBotFile, on the table
unfoldable pub upsert_file_row : BlobBotFile → List BlobBotFile → List BlobBotFile
upsert_file_row f rows =
    if some_by (is_file f.blob_id f.bot_id) rows
    then update_by (is_file f.blob_id f.bot_id) (λ _. f) rows
    else rows ++ f ∷ []

-- UpsertBlobBotFile; the blob and the bot must be there
unfoldable pub upsert_file_in : BlobBotFile → Db → Result (Unit {0}) × Db
unfolding upsert_file_row
upsert_file_in f d =
    if some_by (λ (b : Blob). b.id == f.blob_id) d.blobs
      && some_by (λ (b : BotRow). b.id == f.bot_id) d.bots
    then (ok tt, record d { blob_bot_files = upsert_file_row f d.blob_bot_files })
    else (err storage, d)

abbrev pub found_file : Option BlobBotFile → Result BlobBotFile
found_file none = err not_found
found_file (some f) = ok f

abbrev pub files_of : Uuid → List BlobBotFile → List BlobBotFile
files_of blob rows = keep (λ (f : BlobBotFile). f.blob_id == blob) rows

-- Upsert, Get, ListByBlob, DeleteByBlob, DeleteByBot
unfoldable pub upsert_file : BlobBotFile → Exec (Unit {0})
upsert_file f = query (upsert_file_in f)

unfoldable pub get_file : Uuid → Uuid → Exec BlobBotFile
get_file blob bot = query (λ d. (found_file (find_first (is_file blob bot) d.blob_bot_files), d))

unfoldable pub list_by_blob : Uuid → Exec (List BlobBotFile)
list_by_blob blob = query (λ d. (ok (files_of blob d.blob_bot_files), d))

unfoldable pub delete_by_blob : Uuid → Exec (Unit {0})
delete_by_blob blob = query (λ d. (
  ok tt,
  record d {
    blob_bot_files = keep (λ (f : BlobBotFile). not (f.blob_id == blob)) d.blob_bot_files;
  },
))

unfoldable pub delete_by_bot : Uuid → Exec (Unit {0})
delete_by_bot bot = query (λ d. (
  ok tt,
  record d { blob_bot_files = keep (λ (f : BlobBotFile). not (f.bot_id == bot)) d.blob_bot_files },
))
