-- ===== src/Media/Release.antt =====
-- `releaseReservation` and `Abort` of internal/media/service.go.
pub mod Sound
use zhyvo.Base.{
  ℕ, ◌+◌, ◌-◌, Option, none, some, Bool, true, false, ◌&&◌, ◌||◌, not, ltb, ◌==◌, any,
  if◌then◌else◌,
}
use zhyvo.Base.Table.{find_key, modify}
use zhyvo.Base.Text.{Text}
use zhyvo.Schema.{
  Db, RoomRow, MediaRow, UploadRow, MediaStatus, UploadStatus, aborted, deleted, is_completed,
  is_over, is_multipart,
}
use zhyvo.Exec.{
  Env, M, Error, Stage, Result, ok, err, internal, pure, fail, begin_tx, commit_tx, query, exec,
  call, ignore, ◌>>=◌, ◌>>◌, lock_upload, set_upload, set_media, release_capacity, multipart_abort,
  remove, abort_multipart, remove_object, upload_completed, database_clock,
}
use zhyvo.Media.Types.{Upload}
use zhyvo.Media.Queries.{load_upload}

abbrev pub with_status : UploadStatus → UploadRow → UploadRow
with_status s u = record u { status = s }

-- `UPDATE upload_sessions SET status = … WHERE id = …`.
unfoldable pub set_upload_status : ℕ → UploadStatus → Db → Db
set_upload_status id s db = record db { uploads = modify (λ u. u.id) id (with_status s) db.uploads }

abbrev pub dropped : ℕ → MediaStatus → MediaRow → MediaRow
dropped now s m = record m { status = s; deleted_at = some now }

-- `UPDATE media SET status = …, deleted_at = now() WHERE id = …`.
unfoldable pub drop_media : ℕ → ℕ → MediaStatus → Db → Db
drop_media now id s db = record db { media = modify (λ m. m.id) id (dropped now s) db.media }

abbrev pub unreserve : ℕ → RoomRow → RoomRow
unreserve size r = record r {
  reserved_files = r.reserved_files - 1;
  reserved_storage_bytes = r.reserved_storage_bytes - size;
}

-- The columns must not become negative.
abbrev pub lacks_reserved : ℕ → RoomRow → Bool
lacks_reserved size r = ltb r.reserved_files 1 || ltb r.reserved_storage_bytes size

unfoldable pub unreserve_refused : ℕ → ℕ → Db → Bool
unreserve_refused room_id size db = any (λ r. r.id == room_id && lacks_reserved size r) db.rooms

unfoldable pub unreserve_room : ℕ → ℕ → Db → Db
unreserve_room room_id size db = record db {
  rooms = modify (λ r. r.id) room_id (unreserve size) db.rooms;
}

-- `WHERE id = (SELECT room_id FROM media WHERE id = …)`: no row is updated if there is no media row.
abbrev pub in_room_of : {A : Type 0} → A → ℕ → (ℕ → Db → A) → Db → A
in_room_of missing media_id f db = elim (find_key (λ m. m.id) media_id db.media) [
  | none ↦ missing
  | some m ↦ f m.room_id db
]

abbrev pub unchanged : Option MediaRow → (ℕ → Db → Db) → Db → Db
unchanged none f db = db
unchanged (some m) f db = f m.room_id db

unfoldable pub release_refused : Upload → Db → Bool
unfolding unreserve_refused
release_refused upload =
    in_room_of false upload.media_id (λ room_id. unreserve_refused room_id upload.size_bytes)

unfoldable pub release_room : Upload → Db → Db
unfolding unreserve_room
release_room upload db =
    unchanged (find_key (λ m. m.id) upload.media_id db.media)
      (λ room_id. unreserve_room room_id upload.size_bytes) db

-- The three updates and the commit.
unfoldable pub write_release : Env → Upload → UploadStatus → MediaStatus → M (Unit {0})
write_release env upload upload_status media_status = do
  exec env set_upload (λ _. false) (set_upload_status upload.id upload_status)
  exec env set_media (λ _. false) (drop_media (env.now database_clock) upload.media_id media_status)
  exec env release_capacity (release_refused upload) (release_room upload)
  commit_tx env

abbrev pub release_locked :
    Env → Upload → UploadStatus → MediaStatus → Option UploadRow → M (Unit {0})
release_locked env upload upload_status media_status none = fail (internal lock_upload)
release_locked env upload upload_status media_status (some row) =
    if is_completed row.status
    then fail upload_completed
    else if is_over row.status
    then commit_tx env
    else write_release env upload upload_status media_status

unfoldable pub release_reservation : Env → Upload → UploadStatus → MediaStatus → M (Unit {0})
release_reservation env upload upload_status media_status = do
  begin_tx env
  row ← query env lock_upload (λ db. find_key (λ u. u.id) upload.id db.uploads)
  release_locked env upload upload_status media_status row

-- `storageUploadID != nil` on a multipart upload.
abbrev pub multipart_id : Upload → Option Text
multipart_id upload = if is_multipart upload.upload_type then upload.storage_upload_id else none

abbrev pub discard_object : Env → Upload → Option Text → M (Unit {0})
discard_object env upload none = ignore (call env remove (remove_object upload.object_key))
discard_object env upload (some id) =
    call env multipart_abort (abort_multipart upload.object_key id)

abbrev pub abort_open : Env → Upload → M (Unit {0})
abort_open env upload = do
  discard_object env upload (multipart_id upload)
  release_reservation env upload aborted deleted

abbrev pub abort_loaded : Env → Upload → M (Unit {0})
abort_loaded env upload =
    if is_completed upload.status
    then fail upload_completed
    else if is_over upload.status
    then pure tt
    else abort_open env upload

unfoldable pub abort : Env → ℕ → ℕ → M (Unit {0})
abort env identity_id upload_id = do
  upload ← load_upload env identity_id upload_id
  abort_loaded env upload
