-- ===== src/Media/Types.antt =====
-- The constants and types of internal/media/service.go.
use zhyvo.Base.{ℕ, ◌*◌, List, [], ◌∷◌, Option}
use zhyvo.Base.Int.{ℤ}
use zhyvo.Base.Text.{Text, codes}
use zhyvo.Schema.{MediaType, MediaStatus, UploadType, UploadStatus, ObjectKey, image, video}

abbrev pub max_image_size : ℕ
max_image_size = 50 * 1024 * 1024

abbrev pub max_video_size : ℕ
max_video_size = 2 * 1024 * 1024 * 1024

abbrev pub multipart_threshold : ℕ
multipart_threshold = 100 * 1024 * 1024

abbrev pub multipart_part_size : ℕ
multipart_part_size = 16 * 1024 * 1024

abbrev pub max_parts_batch : ℕ
max_parts_batch = 20

-- 24 hours, in seconds.
abbrev pub upload_lifetime : ℕ
upload_lifetime = 24 * 60 * 60

abbrev pub supported_mime_types : List (Text × MediaType)
supported_mime_types =
    (codes "image/jpeg", image)
    ∷ (codes "image/png", image)
    ∷ (codes "image/webp", image)
    ∷ (codes "image/heic", image)
    ∷ (codes "image/heif", image)
    ∷ (codes "image/avif", image)
    ∷ (codes "image/gif", image)
    ∷ (codes "video/mp4", video)
    ∷ (codes "video/quicktime", video)
    ∷ (codes "video/webm", video)
    ∷ (codes "video/x-m4v", video)
    ∷ (codes "video/3gpp", video)
    ∷ []

pub record InitiateInput : Type 0 where
  pub filename : Text
  pub mime_type : Text
  pub size_bytes : ℤ
  pub captured_at : Option ℕ

pub record Upload : Type 0 where
  pub id : ℕ
  pub media_id : ℕ
  pub upload_type : UploadType
  pub status : UploadStatus
  pub part_size_bytes : Option ℕ
  pub parts_count : Option ℕ
  pub expires_at : ℕ
  pub url : Text
  pub url_expires_at : ℕ
  pub http_method : Text
  pub headers : List (Text × Text)
  pub object_key : ObjectKey
  pub storage_upload_id : Option Text
  pub content_type : Text
  pub size_bytes : ℕ

pub record PartUrl : Type 0 where
  pub part_number : ℤ
  pub url : Text
  pub expires_at : ℕ

pub record MediaResult : Type 0 where
  pub id : ℕ
  pub status : MediaStatus
