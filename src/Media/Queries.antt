-- ===== src/Media/Queries.antt =====
-- The reads of internal/media/service.go: `getUpload`, `findIdempotentUpload`,
-- `lockRoomForUpload`, and the URL that a single upload gets (`attachSingleURL`).
use zhyvo.Base.{
  ℕ, ◌+◌, ◌%◌, ◌^◌, [], ◌∷◌, Option, none, some, Bool, ◌&&◌, ◌||◌, not, ltb, ◌==◌, any,
  if◌then◌else◌,
}
use zhyvo.Base.Table.{find, find_key}
use zhyvo.Base.Text.{Text, text_eq, codes}
use zhyvo.Schema.{
  Db, RoomRow, MemberRow, MediaRow, UploadRow, is_multipart, is_completed, is_over, is_active,
  holds,
}
use zhyvo.Exec.{
  Env, M, pure, fail, require, attempt, query, query_db, ◌>>=◌, ◌>>◌, get_upload, find_upload,
  lock_room, room_exists, presign, upload_not_found, upload_expired, idempotency_conflict,
  room_not_found, room_expired, not_member, uploads_closed, room_limit_reached, room_clock,
  url_clock,
}
use zhyvo.Media.Types.{Upload}

-- The columns of `upload_sessions u JOIN media m` as `Scan` stores them.
abbrev pub scan_upload : UploadRow → MediaRow → Upload
scan_upload u m = record {
  id = u.id;
  media_id = u.media_id;
  upload_type = u.upload_type;
  status = u.status;
  part_size_bytes = u.part_size_bytes;
  parts_count = u.parts_count;
  expires_at = u.expires_at;
  url = [];
  url_expires_at = 0;
  http_method = [];
  headers = [];
  object_key = m.storage_key;
  storage_upload_id = u.storage_upload_id;
  content_type = m.mime_type;
  size_bytes = m.size_bytes;
}

-- The row of a query over the join, for a row of `upload_sessions` that is unique if it exists.
abbrev pub join_media : Db → Option UploadRow → Option (UploadRow × Upload)
join_media db none = none
join_media db (some u) = elim (find_key (λ m. m.id) u.media_id db.media) [
  | none ↦ none
  | some m ↦ some (u, scan_upload u m)
]

unfoldable pub select_upload : ℕ → ℕ → Db → Option (UploadRow × Upload)
select_upload identity_id upload_id db =
    join_media db (find (λ u. u.id == upload_id && u.identity_id == identity_id) db.uploads)

unfoldable pub select_idempotent : ℕ → ℕ → Db → Option (UploadRow × Upload)
select_idempotent identity_id key db =
    join_media db
      (find (λ u. u.identity_id == identity_id && holds u.idempotency_key key) db.uploads)

abbrev pub found_upload : Option (UploadRow × Upload) → M Upload
found_upload none = fail upload_not_found
found_upload (some (_, upload)) = pure upload

unfoldable pub load_upload : Env → ℕ → ℕ → M Upload
unfolding select_upload
load_upload env identity_id upload_id = do
  row ← query_db env get_upload (select_upload identity_id upload_id)
  found_upload row

abbrev pub check_hash : ℕ → Option (UploadRow × Upload) → M (Option Upload)
check_hash expected none = pure none
check_hash expected (some (u, upload)) =
    if holds u.request_hash expected then pure (some upload) else fail idempotency_conflict

unfoldable pub find_idempotent_upload : Env → ℕ → ℕ → ℕ → M (Option Upload)
unfolding select_idempotent
find_idempotent_upload env identity_id key expected = do
  row ← query env find_upload (select_idempotent identity_id key)
  check_hash expected row

-- `rooms r JOIN room_members rm`, for one identity.
unfoldable pub select_membership : Env → ℕ → Text → Db → Option (RoomRow × MemberRow)
select_membership env identity_id slug db =
    elim (find (λ r. text_eq r.slug (env.sql_upper_trim slug)) db.rooms) [
      | none ↦ none
      | some r ↦ elim (find (λ m. m.room_id == r.id && m.identity_id == identity_id) db.members) [
        | none ↦ none
        | some m ↦ some (r, m)
      ]
    ]

unfoldable pub slug_exists : Env → Text → Db → Bool
slug_exists env slug db = any (λ r. text_eq r.slug (env.sql_upper_trim slug)) db.rooms

-- `a > b` for an `int64` sum `a` of values that are not negative: a sum of 2^63 and more is negative.
abbrev pub exceeds : ℕ → ℕ → Bool
exceeds a b = ltb b (a % 2 ^ 64) && ltb (a % 2 ^ 64) (2 ^ 63)

-- The checks on the locked room, in their order.
abbrev pub check_room : Env → ℕ → RoomRow → M RoomRow
check_room env size r = do
  require (is_active r.status && ltb (env.now room_clock) r.expires_at) room_expired
  require r.accepting_uploads uploads_closed
  require
      (not (
        exceeds (r.used_files + r.reserved_files + 1) r.max_files
        || exceeds (r.used_storage_bytes + r.reserved_storage_bytes + size) r.max_storage_bytes))
      room_limit_reached
  pure r

abbrev pub room_missing : Env → Text → M RoomRow
room_missing env slug = do
  exists ← query env room_exists (slug_exists env slug)
  if exists then fail not_member else fail room_not_found

abbrev pub check_locked : Env → Text → ℕ → Option (RoomRow × MemberRow) → M RoomRow
check_locked env slug size none = room_missing env slug
check_locked env slug size (some (r, _)) = check_room env size r

unfoldable pub lock_room_for_upload : Env → ℕ → Text → ℕ → M RoomRow
unfolding select_membership slug_exists
lock_room_for_upload env identity_id slug size = do
  row ← query env lock_room (select_membership env identity_id slug)
  check_locked env slug size row

abbrev put_text : Text
put_text = codes "PUT"

abbrev content_type_text : Text
content_type_text = codes "Content-Type"

unfoldable pub attach_single_url : Env → Upload → M Upload
attach_single_url env upload =
    if is_multipart upload.upload_type || is_completed upload.status then pure upload else do
      require (not (is_over upload.status)) upload_expired
      require (ltb (env.now url_clock) upload.expires_at) upload_expired
      attempt env presign
      let put = env.put_url upload.object_key upload.content_type upload.expires_at
      pure (record upload {
        url = put.0;
        url_expires_at = put.1;
        http_method = put_text;
        headers = (content_type_text, upload.content_type) ∷ [];
      })
