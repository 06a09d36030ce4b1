-- ===== src/Media/Initiate.antt =====
-- `Initiate` of internal/media/service.go.
pub mod Room
pub mod Sound
pub mod Outcome
pub mod Retry
use zhyvo.Base.{
  ℕ, ◌+◌, ◌-◌, ◌/◌, List, [], ◌∷◌, Option, none, some, Bool, true, false, ◌&&◌, ◌||◌, not, leb, ltb,
  ◌==◌, any, if◌then◌else◌,
}
use zhyvo.Base.Table.{modify, find_key}
use zhyvo.Base.Int.{pos_part}
use zhyvo.Base.Text.{Text}
use zhyvo.Schema.{
  Db, RoomRow, MediaRow, UploadRow, MediaType, UploadType, single, multipart, initiated, pending,
  ObjectKey, original, waiting, holds,
}
use zhyvo.Exec.{
  Env, World, M, Error, Stage, StoreCall, Result, ok, err, internal, lift, attempt, begin_tx,
  commit_tx, exec, call, ignore, ◌>>=◌, ◌>>◌, lock_key, start, start_multipart, abort_multipart,
  multipart_abort, insert_media, insert_upload, reserve_capacity, service_clock, database_clock,
}
use zhyvo.Media.Types.{
  InitiateInput, Upload, upload_lifetime, multipart_threshold, multipart_part_size,
}
use zhyvo.Media.Validate.{validate_initiate}
use zhyvo.Media.Validate.Canonical.{hash_initiate_input}
use zhyvo.Media.Queries.{find_idempotent_upload, lock_room_for_upload, attach_single_url}

-- The values that `Initiate` has computed when it starts to write.
pub record Draft : Type 0 where
  pub room_id : ℕ
  pub identity_id : ℕ
  pub key : ℕ
  pub hash : ℕ
  pub media_type : MediaType
  pub filename : Text
  pub mime_type : Text
  pub size : ℕ
  pub captured_at : Option ℕ
  pub now : ℕ
  pub database_now : ℕ
  pub session_expiry : ℕ
  pub media_id : ℕ
  pub upload_id : ℕ
  pub upload_type : UploadType
  pub storage_upload_id : Option Text
  pub part_size : Option ℕ
  pub parts_count : Option ℕ

abbrev pub object_key : Draft → ObjectKey
object_key d = original d.room_id d.media_id

unfoldable pub draft_media : Draft → MediaRow
draft_media d = record {
  id = d.media_id;
  room_id = d.room_id;
  uploader_identity_id = d.identity_id;
  status = pending;
  media_type = d.media_type;
  original_filename = d.filename;
  mime_type = d.mime_type;
  size_bytes = d.size;
  storage_key = object_key d;
  thumbnail_key = none;
  captured_at = d.captured_at;
  created_at = d.now;
  ready_at = none;
  deleted_at = none;
  thumbnail_status = waiting;
  thumbnail_attempts = 0;
  thumbnail_error = none;
  thumbnail_updated_at = d.database_now;
}

unfoldable pub draft_session : Draft → UploadRow
draft_session d = record {
  id = d.upload_id;
  media_id = d.media_id;
  identity_id = d.identity_id;
  storage_upload_id = d.storage_upload_id;
  upload_type = d.upload_type;
  status = initiated;
  part_size_bytes = d.part_size;
  parts_count = d.parts_count;
  expires_at = d.session_expiry;
  created_at = d.now;
  completed_at = none;
  idempotency_key = some d.key;
  request_hash = some d.hash;
}

-- `INSERT INTO media` meets its primary key and the check of its size.
unfoldable pub media_refused : Draft → Db → Bool
media_refused d db = any (λ m. m.id == d.media_id) db.media || leb d.size 0

unfoldable pub add_media : Draft → Db → Db
add_media d db = record db { media = draft_media d ∷ db.media }

-- `INSERT INTO upload_sessions` meets its primary key, the unique index of `media_id`, that of the
-- idempotency key, and the check of its times.
unfoldable pub session_refused : Draft → Db → Bool
session_refused d db =
    any (λ u. u.id == d.upload_id) db.uploads
    || any (λ u. u.media_id == d.media_id) db.uploads
    || any (λ u. u.identity_id == d.identity_id && holds u.idempotency_key d.key) db.uploads
    || leb d.session_expiry d.now

unfoldable pub add_session : Draft → Db → Db
add_session d db = record db { uploads = draft_session d ∷ db.uploads }

abbrev pub reserve : ℕ → RoomRow → RoomRow
reserve size r = record r {
  reserved_files = r.reserved_files + 1;
  reserved_storage_bytes = r.reserved_storage_bytes + size;
}

-- The checks of the room's totals.
abbrev pub is_over_limit : RoomRow → Bool
is_over_limit r =
    ltb r.max_files (r.used_files + r.reserved_files)
    || ltb r.max_storage_bytes (r.used_storage_bytes + r.reserved_storage_bytes)

unfoldable pub reserve_refused : ℕ → ℕ → Db → Bool
reserve_refused room_id size db =
    any (λ r. r.id == room_id && is_over_limit (reserve size r)) db.rooms

unfoldable pub reserve_room : ℕ → ℕ → Db → Db
reserve_room room_id size db = record db {
  rooms = modify (λ r. r.id) room_id (reserve size) db.rooms;
}

-- The three writes and the commit.
unfoldable pub write_draft : Env → Draft → M (Unit {0})
write_draft env d = do
  exec env insert_media (media_refused d) (add_media d)
  exec env insert_upload (session_refused d) (add_session d)
  exec env reserve_capacity (reserve_refused d.room_id d.size) (reserve_room d.room_id d.size)
  commit_tx env

abbrev aborted_unless_ok : ObjectKey → Text → Result (Unit {0}) × World → Result (Unit {0}) × World
aborted_unless_ok k id (ok a, w) = (ok a, w)
aborted_unless_ok k id (err e, w) = (err e, record w { calls = abort_multipart k id ∷ w.calls })

-- The deferred call: a multipart upload that was started and not committed is aborted.
abbrev pub unless_committed : ObjectKey → Option Text → M (Unit {0}) → M (Unit {0})
unless_committed k none m w = m w
unless_committed k (some id) m w = aborted_unless_ok k id (m w)

-- `now + 24h`, or the room's end if that comes first.
unfoldable pub session_expiry : ℕ → ℕ → ℕ
session_expiry now room_expiry =
    if ltb room_expiry (now + upload_lifetime) then room_expiry else now + upload_lifetime

abbrev pub is_large : ℕ → Bool
is_large size = ltb multipart_threshold size

unfoldable pub parts_of : ℕ → ℕ
parts_of size = (size + multipart_part_size - 1) / multipart_part_size

unfoldable pub draft_of : Env → ℕ → ℕ → ℕ → MediaType → InitiateInput → RoomRow → Draft
unfolding session_expiry parts_of
draft_of env identity_id key hash media_type input r =
    let size = pos_part input.size_bytes in
    record {
      room_id = r.id;
      identity_id = identity_id;
      key = key;
      hash = hash;
      media_type = media_type;
      filename = input.filename;
      mime_type = input.mime_type;
      size = size;
      captured_at = input.captured_at;
      now = env.now service_clock;
      database_now = env.now database_clock;
      session_expiry = session_expiry (env.now service_clock) r.expires_at;
      media_id = env.media_id;
      upload_id = env.upload_id;
      upload_type = if is_large size then multipart else single;
      storage_upload_id = if is_large size then some env.storage_upload_id else none;
      part_size = if is_large size then some multipart_part_size else none;
      parts_count = if is_large size then some (parts_of size) else none;
    }

-- `StartMultipart`, for a large upload; one that fails has started nothing.
unfoldable pub start_large : Env → Draft → M (Unit {0})
start_large env d w =
    if not (is_large d.size)
    then (ok tt, w)
    else if env.fails start
    then (err (internal start), w)
    else (ok tt, record w { calls = start_multipart (object_key d) ∷ w.calls })

unfoldable pub write_or_abort : Env → Draft → M (Unit {0})
write_or_abort env d = unless_committed (object_key d) d.storage_upload_id (write_draft env d)

-- The `Upload` that is returned for a new session.
unfoldable pub draft_upload : Draft → Upload
draft_upload d = record {
  id = d.upload_id;
  media_id = d.media_id;
  upload_type = d.upload_type;
  status = initiated;
  part_size_bytes = d.part_size;
  parts_count = d.parts_count;
  expires_at = d.session_expiry;
  url = [];
  url_expires_at = 0;
  http_method = [];
  headers = [];
  object_key = object_key d;
  storage_upload_id = d.storage_upload_id;
  content_type = d.mime_type;
  size_bytes = d.size;
}

-- The first request with its key: everything behind the lookup of an earlier one.
unfoldable pub create_upload : Env → ℕ → ℕ → ℕ → Text → MediaType → InitiateInput → M Upload
create_upload env identity_id key hash slug media_type input = do
  r ← lock_room_for_upload env identity_id slug (pos_part input.size_bytes)
  let d = draft_of env identity_id key hash media_type input r
  start_large env d
  write_or_abort env d
  attach_single_url env (draft_upload d)

abbrev pub resume_upload : Env → Upload → M Upload
resume_upload env existing = do commit_tx env; attach_single_url env existing

abbrev pub create_or_resume :
    Env → ℕ → ℕ → ℕ → Text → MediaType → InitiateInput → Option Upload → M Upload
create_or_resume env identity_id key hash slug media_type input none =
    create_upload env identity_id key hash slug media_type input
create_or_resume env identity_id key hash slug media_type input (some existing) =
    resume_upload env existing

unfoldable pub initiate : Env → ℕ → ℕ → Text → InitiateInput → M Upload
initiate env identity_id key slug raw = do
  valid ← lift (validate_initiate raw)
  let hash = hash_initiate_input env slug valid.1
  begin_tx env
  attempt env lock_key
  existing ← find_idempotent_upload env identity_id key hash
  create_or_resume env identity_id key hash slug valid.0 valid.1 existing
