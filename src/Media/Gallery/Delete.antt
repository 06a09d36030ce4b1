-- ===== src/Media/Gallery/Delete.antt =====
-- `Delete` of internal/media/gallery.go.
pub mod Sound
pub mod Authorized
use zhyvo.Base.{
  ℕ, ◌+◌, ◌-◌, Option, none, some, Bool, true, false, ◌&&◌, ◌||◌, not, ltb, ◌==◌, any,
  if◌then◌else◌,
}
use zhyvo.Base.Table.{find, find_key, modify}
use zhyvo.Schema.{
  Db, RoomRow, MemberRow, MediaRow, MediaStatus, ObjectKey, deleted, is_owner, is_ready, is_failed,
  is_deleted,
}
use zhyvo.Exec.{
  Env, M, Error, Stage, pure, fail, require, begin_tx, commit_tx, query, query_db, exec, call,
  ◌>>=◌, ◌>>◌, get_media, lock_media, delete_media, uncount, remove, remove_thumbnail,
  remove_object, media_not_found, media_access_denied, media_not_ready, database_clock,
}
use zhyvo.Media.Release.{drop_media}

-- `media m JOIN room_members rm`, for one identity.
unfoldable pub select_authorized : ℕ → ℕ → Db → Option (MediaRow × MemberRow)
select_authorized identity_id media_id db = elim (find_key (λ m. m.id) media_id db.media) [
  | none ↦ none
  | some m ↦ elim (find (λ a. a.room_id == m.room_id && a.identity_id == identity_id) db.members) [
    | none ↦ none
    | some a ↦ some (m, a)
  ]
]

-- `media m JOIN rooms r WHERE m.id = … AND r.id = …`.
abbrev pub in_room : Db → ℕ → Option MediaRow → Option MediaRow
in_room db room_id none = none
in_room db room_id (some m) =
    if m.room_id == room_id && any (λ r. r.id == room_id) db.rooms then some m else none

unfoldable pub select_locked : ℕ → ℕ → Db → Option MediaRow
select_locked media_id room_id db = in_room db room_id (find_key (λ m. m.id) media_id db.media)

abbrev pub discount : ℕ → RoomRow → RoomRow
discount size r = record r {
  used_files = r.used_files - 1;
  used_storage_bytes = r.used_storage_bytes - size;
}

abbrev pub lacks_used : ℕ → RoomRow → Bool
lacks_used size r = ltb r.used_files 1 || ltb r.used_storage_bytes size

unfoldable pub discount_refused : ℕ → ℕ → Db → Bool
discount_refused room_id size db = any (λ r. r.id == room_id && lacks_used size r) db.rooms

unfoldable pub discount_room : ℕ → ℕ → Db → Db
discount_room room_id size db = record db {
  rooms = modify (λ r. r.id) room_id (discount size) db.rooms;
}

abbrev pub discount_ready : Env → ℕ → MediaRow → M (Unit {0})
discount_ready env room_id m =
    if is_ready m.status
    then exec env uncount (discount_refused room_id m.size_bytes)
        (discount_room room_id m.size_bytes)
    else pure tt

abbrev pub write_delete : Env → ℕ → ℕ → MediaRow → M (Unit {0})
write_delete env media_id room_id m = do
  exec env delete_media (λ _. false) (drop_media (env.now database_clock) media_id deleted)
  discount_ready env room_id m
  commit_tx env

abbrev pub delete_locked : Env → ℕ → ℕ → Option MediaRow → M (Unit {0})
delete_locked env media_id room_id none = pure tt
delete_locked env media_id room_id (some m) =
    if is_deleted m.status
    then commit_tx env
    else if not (is_ready m.status) && not (is_failed m.status)
    then fail media_not_ready
    else write_delete env media_id room_id m

-- The transaction that ends `Delete`.
unfoldable pub commit_delete : Env → ℕ → ℕ → M (Unit {0})
commit_delete env media_id room_id = do
  begin_tx env
  row ← query env lock_media (select_locked media_id room_id)
  delete_locked env media_id room_id row

abbrev pub remove_thumbnail_of : Env → Option ObjectKey → M (Unit {0})
remove_thumbnail_of env none = pure tt
remove_thumbnail_of env (some key) = call env remove_thumbnail (remove_object key)

abbrev pub remove_media : Env → ℕ → MediaRow → M (Unit {0})
remove_media env media_id m = do
  call env remove (remove_object m.storage_key)
  remove_thumbnail_of env m.thumbnail_key
  commit_delete env media_id m.room_id

abbrev pub delete_authorized : Env → ℕ → ℕ → Option (MediaRow × MemberRow) → M (Unit {0})
delete_authorized env identity_id media_id none = fail media_not_found
delete_authorized env identity_id media_id (some (m, a)) =
    if not (is_owner a.role) && not (m.uploader_identity_id == identity_id)
    then fail media_access_denied
    else if is_deleted m.status
    then pure tt
    else if not (is_ready m.status) && not (is_failed m.status)
    then fail media_not_ready
    else remove_media env media_id m

unfoldable pub delete : Env → ℕ → ℕ → M (Unit {0})
delete env identity_id media_id = do
  row ← query_db env get_media (select_authorized identity_id media_id)
  delete_authorized env identity_id media_id row
