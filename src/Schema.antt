-- ===== src/Schema.antt =====
-- The tables of migrations/00001 to 00004 that the upload, room and cleanup code reads and writes.
-- An identifier (uuid), a hash and a point in time are numbers; a column that may be NULL is an
-- `Option`; an enumeration that a CHECK constraint closes is a data type.
use zhyvo.Base.{ℕ, List, Option, Bool, true, false, none, some, ◌==◌}
use zhyvo.Base.Text.{Text}

pub data RoomStatus : Type 0 where
  active deleting : RoomStatus

pub data Role : Type 0 where
  owner member : Role

pub data MediaStatus : Type 0 where
  pending processing ready failed deleted : MediaStatus

pub data MediaType : Type 0 where
  image video : MediaType

-- `thumbnail_status`: in this order pending, processing, ready and failed.
pub data ThumbnailStatus : Type 0 where
  waiting working done broken : ThumbnailStatus

pub data UploadStatus : Type 0 where
  initiated uploading completed aborted expired : UploadStatus

pub data UploadType : Type 0 where
  single multipart : UploadType

-- `rooms/<room>/originals/<media>` and `rooms/<room>/thumbnails/<media>.jpg`.
pub data ObjectKey : Type 0 where
  original thumbnail : ℕ → ℕ → ObjectKey

pub record RoomRow : Type 0 where
  pub id : ℕ
  pub slug : Text
  pub name : Text
  pub owner_identity_id : ℕ
  pub access_mode : Text
  pub access_secret_hash : Option Text
  pub status : RoomStatus
  pub accepting_uploads : Bool
  pub max_files : ℕ
  pub max_storage_bytes : ℕ
  pub used_files : ℕ
  pub used_storage_bytes : ℕ
  pub reserved_files : ℕ
  pub reserved_storage_bytes : ℕ
  pub created_at : ℕ
  pub expires_at : ℕ

pub record MemberRow : Type 0 where
  pub room_id : ℕ
  pub identity_id : ℕ
  pub role : Role
  pub joined_at : ℕ
  pub last_seen_at : ℕ

pub record MediaRow : Type 0 where
  pub id : ℕ
  pub room_id : ℕ
  pub uploader_identity_id : ℕ
  pub status : MediaStatus
  pub media_type : MediaType
  pub original_filename : Text
  pub mime_type : Text
  pub size_bytes : ℕ
  pub storage_key : ObjectKey
  pub thumbnail_key : Option ObjectKey
  pub captured_at : Option ℕ
  pub created_at : ℕ
  pub ready_at : Option ℕ
  pub deleted_at : Option ℕ
  pub thumbnail_status : ThumbnailStatus
  pub thumbnail_attempts : ℕ
  pub thumbnail_error : Option Text
  pub thumbnail_updated_at : ℕ

pub record UploadRow : Type 0 where
  pub id : ℕ
  pub media_id : ℕ
  pub identity_id : ℕ
  pub storage_upload_id : Option Text
  pub upload_type : UploadType
  pub status : UploadStatus
  pub part_size_bytes : Option ℕ
  pub parts_count : Option ℕ
  pub expires_at : ℕ
  pub created_at : ℕ
  pub completed_at : Option ℕ
  pub idempotency_key : Option ℕ
  pub request_hash : Option ℕ

-- `room_creation_requests`.
pub record RequestRow : Type 0 where
  pub identity_id : ℕ
  pub idempotency_key : ℕ
  pub request_hash : ℕ
  pub room_id : Option ℕ

pub record IdentityRow : Type 0 where
  pub id : ℕ
  pub kind : Text
  pub display_name : Text
  pub telegram_user_id : Option ℕ
  pub created_at : ℕ
  pub last_seen_at : ℕ

pub record SessionRow : Type 0 where
  pub id : ℕ
  pub identity_id : ℕ
  pub token_hash : ℕ
  pub client_type : Text
  pub expires_at : ℕ
  pub revoked_at : Option ℕ
  pub created_at : ℕ
  pub last_used_at : ℕ

pub record Db : Type 0 where
  pub rooms : List RoomRow
  pub members : List MemberRow
  pub media : List MediaRow
  pub uploads : List UploadRow
  pub requests : List RequestRow
  pub identities : List IdentityRow
  pub sessions : List SessionRow

abbrev pub is_active : RoomStatus → Bool
is_active active = true
is_active deleting = false

abbrev pub is_owner : Role → Bool
is_owner owner = true
is_owner member = false

abbrev pub is_pending : MediaStatus → Bool
is_pending pending = true
is_pending _ = false

abbrev pub is_ready : MediaStatus → Bool
is_ready ready = true
is_ready _ = false

abbrev pub is_failed : MediaStatus → Bool
is_failed failed = true
is_failed _ = false

abbrev pub is_deleted : MediaStatus → Bool
is_deleted deleted = true
is_deleted _ = false

abbrev pub is_completed : UploadStatus → Bool
is_completed completed = true
is_completed _ = false

-- `status = 'aborted' || status = 'expired'`.
abbrev pub is_over : UploadStatus → Bool
is_over aborted = true
is_over expired = true
is_over _ = false

-- `status IN ('initiated', 'uploading')`.
abbrev pub is_open : UploadStatus → Bool
is_open initiated = true
is_open uploading = true
is_open _ = false

abbrev pub is_multipart : UploadType → Bool
is_multipart single = false
is_multipart multipart = true

-- A nullable column compared with a value.
abbrev pub holds : Option ℕ → ℕ → Bool
holds none k = false
holds (some j) k = j == k
