-- ===== src/Media/Complete.antt =====
-- `Complete` of internal/media/service.go.
pub mod Sound
pub mod Succeeds
use zhyvo.Base.{
  ℕ, ◌+◌, ◌-◌, List, [], ◌∷◌, Option, none, some, Bool, true, false, ◌&&◌, ◌||◌, not, ltb, ◌==◌,
  any, if◌then◌else◌,
}
use zhyvo.Base.Table.{find_key, modify}
use zhyvo.Base.Text.{Text}
use zhyvo.Schema.{
  Db, RoomRow, MediaRow, UploadRow, MediaStatus, UploadStatus, completed, ready, aborted, failed,
  is_completed, is_over, is_multipart,
}
use zhyvo.Exec.{
  Env, World, M, Error, Stage, Result, ok, err, internal, pure, fail, lift, require, begin_tx,
  commit_tx, query, exec, call, ignore, ◌>>=◌, ◌>>◌, CompletedPart, ObjectInfo, size_of,
  object_missing, stat_failed, lock_upload, complete_upload, mark_ready, settle_capacity,
  multipart_complete, stat, no_upload_id, remove, complete_multipart, remove_object, upload_expired,
  upload_not_ready, uploaded_size_mismatch, invalid_upload_parts, service_clock, database_clock,
}
use zhyvo.Media.Types.{Upload, MediaResult}
use zhyvo.Media.Parts.{validate_completed_parts}
use zhyvo.Media.Queries.{load_upload}
use zhyvo.Media.Release.{in_room_of, unchanged, release_reservation}

abbrev pub finished : ℕ → UploadRow → UploadRow
finished now u = record u { status = completed; completed_at = some now }

unfoldable pub finish_upload : ℕ → ℕ → Db → Db
finish_upload now id db = record db { uploads = modify (λ u. u.id) id (finished now) db.uploads }

abbrev pub published : ℕ → MediaRow → MediaRow
published now m = record m { status = ready; ready_at = some now }

unfoldable pub publish_media : ℕ → ℕ → Db → Db
publish_media now id db = record db { media = modify (λ m. m.id) id (published now) db.media }

abbrev pub settle : ℕ → RoomRow → RoomRow
settle size r = record r {
  reserved_files = r.reserved_files - 1;
  reserved_storage_bytes = r.reserved_storage_bytes - size;
  used_files = r.used_files + 1;
  used_storage_bytes = r.used_storage_bytes + size;
}

-- The columns must not become negative, nor pass the limits.
abbrev pub cannot_settle : ℕ → RoomRow → Bool
cannot_settle size r =
    ltb r.reserved_files 1
    || ltb r.reserved_storage_bytes size
    || ltb r.max_files (r.used_files + 1 + (r.reserved_files - 1))
    || ltb r.max_storage_bytes (r.used_storage_bytes + size + (r.reserved_storage_bytes - size))

unfoldable pub settle_refused : Upload → Db → Bool
settle_refused upload =
    in_room_of false upload.media_id
      (λ room_id db. any (λ r. r.id == room_id && cannot_settle upload.size_bytes r) db.rooms)

unfoldable pub settle_room : Upload → Db → Db
settle_room upload db =
    unchanged (find_key (λ m. m.id) upload.media_id db.media)
      (λ room_id db'. record db' {
        rooms = modify (λ r. r.id) room_id (settle upload.size_bytes) db'.rooms;
      })
      db

abbrev pub media_ready : Upload → MediaResult
media_ready upload = record { id = upload.media_id; status = ready }

unfoldable pub write_complete : Env → Upload → M MediaResult
write_complete env upload = do
  exec env complete_upload (λ _. false) (finish_upload (env.now database_clock) upload.id)
  exec env mark_ready (λ _. false) (publish_media (env.now database_clock) upload.media_id)
  exec env settle_capacity (settle_refused upload) (settle_room upload)
  commit_tx env
  pure (media_ready upload)

abbrev pub complete_locked : Env → Upload → Option UploadRow → M MediaResult
complete_locked env upload none = fail (internal lock_upload)
complete_locked env upload (some row) =
    if is_completed row.status
    then (do commit_tx env; pure (media_ready upload))
    else if is_over row.status
    then fail upload_expired
    else write_complete env upload

-- The transaction that ends `Complete`.
unfoldable pub commit_upload : Env → Upload → M MediaResult
commit_upload env upload = do
  begin_tx env
  row ← query env lock_upload (λ db. find_key (λ u. u.id) upload.id db.uploads)
  complete_locked env upload row

-- An error of `CompleteMultipart` is forgiven if the object is there.
abbrev pub forgiven : ObjectInfo → Result (Unit {0}) × World → Result (Unit {0}) × World
forgiven info (ok a, w) = (ok a, w)
forgiven (size_of n) (err e, w) = (ok tt, w)
forgiven object_missing (err e, w) = (err e, w)
forgiven stat_failed (err e, w) = (err e, w)

abbrev pub join_parts : Env → Upload → List CompletedPart → Option Text → M (Unit {0})
join_parts env upload parts none w = (err (internal no_upload_id), w)
join_parts env upload parts (some id) w =
    forgiven env.first_stat
      (call env multipart_complete (complete_multipart upload.object_key id parts) w)

abbrev pub is_none : List CompletedPart → Bool
is_none [] = true
is_none (p ∷ ps) = false

-- What happens to the parts, before the object is looked at.
unfoldable pub assemble : Env → Upload → List CompletedPart → M (Unit {0})
assemble env upload parts =
    if is_multipart upload.upload_type
    then (do
      storage_parts ← lift (validate_completed_parts parts upload.parts_count)
      join_parts env upload storage_parts upload.storage_upload_id)
    else require (is_none parts) invalid_upload_parts

abbrev pub refuse_size : Env → Upload → M MediaResult
refuse_size env upload = do
  ignore (call env remove (remove_object upload.object_key))
  release_reservation env upload aborted failed
  fail uploaded_size_mismatch

-- `Stat`, the comparison of the sizes, and what follows.
abbrev pub accept_object : Env → Upload → ObjectInfo → M MediaResult
accept_object env upload object_missing = fail upload_not_ready
accept_object env upload stat_failed = fail (internal stat)
accept_object env upload (size_of n) =
    if n == upload.size_bytes then commit_upload env upload else refuse_size env upload

abbrev pub complete_open : Env → Upload → List CompletedPart → M MediaResult
complete_open env upload parts = do
  assemble env upload parts
  accept_object env upload env.last_stat

unfoldable pub complete_loaded : Env → Upload → List CompletedPart → M MediaResult
complete_loaded env upload parts =
    if is_completed upload.status
    then pure (media_ready upload)
    else if is_over upload.status || not (ltb (env.now service_clock) upload.expires_at)
    then fail upload_expired
    else complete_open env upload parts

unfoldable pub complete : Env → ℕ → ℕ → List CompletedPart → M MediaResult
complete env identity_id upload_id parts = do
  upload ← load_upload env identity_id upload_id
  complete_loaded env upload parts
