-- ===== src/Cleanup.antt =====
-- internal/cleanup/service.go: the worker that expires uploads and deletes rooms.

pub mod Rooms
pub mod Sound
pub mod Loops
pub mod Doomed
pub mod Ends
use zhyvo.Base.{
  ℕ, zero, suc, Option, none, some, List, ◌∷◌, Bool, true, false, ◌&&◌, ◌||◌, not, leb, ◌==◌, any,
  if◌then◌else◌,
}
use zhyvo.Base.Table.{find_key, modify, delete, least}
use zhyvo.Base.Text.{Text}
use zhyvo.Schema.{
  Db, RoomRow, MediaRow, UploadRow, UploadType, ObjectKey, deleting, failed, expired, is_open,
  is_active, is_multipart, holds,
}
use zhyvo.Exec.{
  Env, M, Result, ok, err, Error, Stage, internal, pure, attempt, begin_tx, commit_tx, query, exec,
  exec_db, call, ignore, ◌>>=◌, ◌>>◌, claim_upload, set_upload, set_media, release_capacity,
  claim_room, delete_room, remove, multipart_abort, abort_multipart, remove_object, remove_room,
  database_clock, World,
}
use zhyvo.Media.Release.{set_upload_status, drop_media, unreserve_refused, unreserve_room}

pub record ExpiredUpload : Type 0 where
  pub id : ℕ
  pub upload_type : UploadType
  pub storage_upload_id : Option Text
  pub object_key : ObjectKey

abbrev pub room_of : Db → ℕ → Option RoomRow
room_of db media_id = elim (find_key (λ m. m.id) media_id db.media) [
  | none ↦ none
  | some m ↦ find_key (λ r. r.id) m.room_id db.rooms
]

abbrev pub free_room : Env → Option RoomRow → Bool
free_room env none = false
free_room env (some r) = not (env.locked r.id)

-- Open, past its end, and neither the session nor its room held by another transaction.
unfoldable pub is_expired : Env → Db → UploadRow → Bool
is_expired env db u =
    is_open u.status
    && leb u.expires_at (env.now database_clock)
    && not (env.locked u.id)
    && free_room env (room_of db u.media_id)

abbrev pub with_media : Db → Option UploadRow → Option (UploadRow × MediaRow)
with_media db none = none
with_media db (some u) = elim (find_key (λ m. m.id) u.media_id db.media) [
  | none ↦ none
  | some m ↦ some (u, m)
]

unfoldable pub select_expired : Env → Db → Option (UploadRow × MediaRow)
unfolding is_expired
select_expired env db = with_media db (least (is_expired env db) (λ u. u.expires_at) db.uploads)

abbrev pub expired_upload : UploadRow → MediaRow → ExpiredUpload
expired_upload u m = record {
  id = u.id;
  upload_type = u.upload_type;
  storage_upload_id = u.storage_upload_id;
  object_key = m.storage_key;
}

unfoldable pub write_expired : Env → UploadRow → MediaRow → M (Unit {0})
write_expired env u m = do
  exec env set_upload (λ _. false) (set_upload_status u.id expired)
  exec env set_media (λ _. false) (drop_media (env.now database_clock) m.id failed)
  exec env release_capacity (unreserve_refused m.room_id m.size_bytes)
      (unreserve_room m.room_id m.size_bytes)
  commit_tx env

-- `none` stands for `pgx.ErrNoRows`.
abbrev pub claim_found : Env → Option (UploadRow × MediaRow) → M (Option ExpiredUpload)
claim_found env none = pure none
claim_found env (some (u, m)) = do write_expired env u m; pure (some (expired_upload u m))

unfoldable pub claim_expired_upload : Env → M (Option ExpiredUpload)
claim_expired_upload env = do
  begin_tx env
  row ← query env claim_upload (select_expired env)
  claim_found env row

abbrev pub open_multipart : ExpiredUpload → Option Text
open_multipart u = if is_multipart u.upload_type then u.storage_upload_id else none

-- The errors of these calls are logged and dropped.
abbrev pub discard_expired : Env → ExpiredUpload → Option Text → M (Unit {0})
discard_expired env u (some id) =
    ignore (call env multipart_abort (abort_multipart u.object_key id))
discard_expired env u none = ignore (call env remove (remove_object u.object_key))

-- One round of the loop of `expireUploads`; the result says whether there may be more.
abbrev pub expire_found : Env → Option ExpiredUpload → M Bool
expire_found env none = pure false
expire_found env (some u) = do discard_expired env u (open_multipart u); pure true

unfoldable pub expire_one : Env → M Bool
expire_one env = do found ← claim_expired_upload env; expire_found env found

abbrev pub while_more : M Bool → Bool → M Bool
while_more m true = m
while_more m false = pure false

-- The loops take one `Env` for each round, and fuel; `ok true` says that the fuel ran out.
unfoldable pub repeat : (Env → M Bool) → (ℕ → Env) → ℕ → M Bool
repeat step envs zero w = (ok true, w)
repeat step envs (suc n) w = (step (envs n) >>= while_more (repeat step envs n)) w

unfoldable pub expire_uploads : (ℕ → Env) → ℕ → M Bool
unfolding repeat expire_one
expire_uploads = repeat expire_one

-- `active` and past its end, or scheduled for deletion, and not held by another transaction.
unfoldable pub is_doomed : Env → RoomRow → Bool
is_doomed env r =
    (is_active r.status && leb r.expires_at (env.now database_clock) || not (is_active r.status))
    && not (env.locked r.id)

abbrev pub doom : RoomRow → RoomRow
doom r = record r { status = deleting }

abbrev pub doomed_id : Option RoomRow → Option ℕ
doomed_id none = none
doomed_id (some r) = some r.id

abbrev pub doom_found : Option RoomRow → Db → Db
doom_found none db = db
doom_found (some r) db = record db { rooms = modify (λ a. a.id) r.id doom db.rooms }

unfoldable pub select_doomed : Env → Db → Option RoomRow
unfolding is_doomed
select_doomed env db = least (is_doomed env) (λ r. r.expires_at) db.rooms

-- One statement selects, updates and returns the room.
unfoldable pub claim_doomed : Env → M (Option ℕ)
claim_doomed env w = if env.fails claim_room then (err (internal claim_room), w) else (
  ok (doomed_id (select_doomed env w.db)),
  record w { db = doom_found (select_doomed env w.db) w.db },
)

abbrev pub is_doomed_row : ℕ → RoomRow → Bool
is_doomed_row id r = r.id == id && not (is_active r.status)

-- `ON DELETE CASCADE` of the references to `rooms` and to `media`.
abbrev pub lies_in : Db → ℕ → UploadRow → Bool
lies_in db room_id u = elim (find_key (λ m. m.id) u.media_id db.media) [
  | none ↦ false
  | some m ↦ m.room_id == room_id
]

unfoldable pub cascade : ℕ → Db → Db
cascade id db = record {
  rooms = delete (λ r. r.id == id) db.rooms;
  members = delete (λ m. m.room_id == id) db.members;
  media = delete (λ m. m.room_id == id) db.media;
  uploads = delete (lies_in db id) db.uploads;
  requests = delete (λ q. holds q.room_id id) db.requests;
  identities = db.identities;
  sessions = db.sessions;
}

-- `DELETE FROM rooms WHERE id = … AND status = 'deleting'`.
unfoldable pub drop_room : ℕ → Db → Db
unfolding cascade
drop_room id db = if any (is_doomed_row id) db.rooms then cascade id db else db

-- One round of the loop of `runBatch` over rooms.
abbrev pub delete_found : Env → Option ℕ → M Bool
delete_found env none = pure false
delete_found env (some id) = do
  call env remove (remove_room id)
  exec_db env delete_room (drop_room id)
  pure true

unfoldable pub delete_one : Env → M Bool
delete_one env = do found ← claim_doomed env; delete_found env found

unfoldable pub run_batch : (ℕ → Env) → ℕ → (ℕ → Env) → ℕ → M Bool
unfolding expire_uploads delete_one
run_batch envs n envs' n' = do
  more ← expire_uploads envs n
  if more then pure true else repeat delete_one envs' n'
