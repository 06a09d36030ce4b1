-- ===== src/Capacity.antt =====
-- What the room's counters stand for: the sums over the media rows that they must agree with.
pub mod Step
pub mod Change
pub mod Insert
pub mod Unseen
use zhyvo.Base.{ℕ, ◌+◌, ◌≤◌, ◌<◌, ◌^◌, List, ◌≡◌, some, Bool, ◌&&◌, ◌==◌, All, if◌then◌else◌}
use zhyvo.Base.Table.{Distinct, sum, find_key}
use zhyvo.Schema.{Db, RoomRow, MediaRow, UploadRow, MediaStatus, is_pending, is_ready, is_open}

-- What a media row adds to a counter of the room: `amount`, for a status that counts.
abbrev pub weight : (MediaStatus → Bool) → (MediaRow → ℕ) → ℕ → MediaRow → ℕ
weight counts amount room_id m = if m.room_id == room_id && counts m.status then amount m else 0

abbrev pub one : MediaRow → ℕ
one m = 1

abbrev pub size_of : MediaRow → ℕ
size_of m = m.size_bytes

-- The counters are the numbers and sizes of the pending and of the ready media of the room, and
-- together they keep within its limits; the limits are far below the machine's.
pub record RoomFits (media : List MediaRow) (r : RoomRow) : Type 0 where
  pub reserved_files : r.reserved_files ≡ sum (weight is_pending one r.id) media
  pub reserved_bytes : r.reserved_storage_bytes ≡ sum (weight is_pending size_of r.id) media
  pub used_files : r.used_files ≡ sum (weight is_ready one r.id) media
  pub used_bytes : r.used_storage_bytes ≡ sum (weight is_ready size_of r.id) media
  pub files : r.used_files + r.reserved_files ≤ r.max_files
  pub bytes : r.used_storage_bytes + r.reserved_storage_bytes ≤ r.max_storage_bytes
  pub max_files : r.max_files < 2 ^ 31
  pub max_bytes : r.max_storage_bytes < 2 ^ 62

-- An upload session is open exactly while its media row is pending.
abbrev pub UploadFits : List MediaRow → UploadRow → Type 0
UploadFits media u =
    (m : MediaRow) × (find_key (λ a. a.id) u.media_id media ≡ some m)
    × (is_open u.status ≡ is_pending m.status)

-- The invariant of the database.
pub record IsSound (db : Db) : Type 0 where
  pub room_ids : Distinct (λ r. r.id) db.rooms
  pub media_ids : Distinct (λ m. m.id) db.media
  pub upload_ids : Distinct (λ u. u.id) db.uploads
  pub upload_media : Distinct (λ u. u.media_id) db.uploads
  pub rooms : All (RoomFits db.media) db.rooms
  pub uploads : All (UploadFits db.media) db.uploads
