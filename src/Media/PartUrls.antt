-- ===== src/Media/PartUrls.antt =====
-- `PartURLs` of internal/media/service.go.
pub mod Sound
pub mod Numbers
use zhyvo.Base.{
  ℕ, List, [], ◌∷◌, Option, none, some, Bool, true, false, ◌&&◌, ◌||◌, not, ltb, any, length,
  if◌then◌else◌,
}
use zhyvo.Base.Int.{ℤ, pos, ltb_ℤ, eq_ℤ}
use zhyvo.Base.Table.{modify}
use zhyvo.Base.Text.{Text}
use zhyvo.Schema.{
  Db, UploadRow, UploadStatus, initiated, uploading, is_multipart, is_completed, is_over,
}
use zhyvo.Exec.{
  Env, M, Error, Stage, pure, fail, require, exec_db, ◌>>=◌, ◌>>◌, internal, presign,
  mark_uploading, invalid_upload_parts, upload_completed, upload_expired, service_clock,
}
use zhyvo.Media.Types.{Upload, PartUrl, max_parts_batch}
use zhyvo.Media.Queries.{load_upload}

abbrev pub in_range : ℕ → ℤ → Bool
in_range count number = not (ltb_ℤ number (pos 1) || ltb_ℤ (pos count) number)

abbrev pub sign_part : Env → Upload → Text → ℤ → M PartUrl
sign_part env upload storage_upload_id number =
    elim (env.part_url upload.object_key storage_upload_id number upload.expires_at) [
      | none ↦ fail (internal presign)
      | some (url, expiry) ↦ pure (record { part_number = number; url = url; expires_at = expiry })
    ]

-- The loop over the part numbers, behind those already seen.
unfoldable pub sign_parts : Env → Upload → Text → ℕ → List ℤ → List ℤ → M (List PartUrl)
sign_parts env upload storage_upload_id count seen [] = pure []
sign_parts env upload storage_upload_id count seen (number ∷ numbers) =
    let rest = sign_parts env upload storage_upload_id count (number ∷ seen) numbers in
    do
      require (in_range count number) invalid_upload_parts
      require (not (any (eq_ℤ number) seen)) invalid_upload_parts
      url ← sign_part env upload storage_upload_id number
      urls ← rest
      pure (url ∷ urls)

abbrev pub started : UploadStatus → UploadStatus
started initiated = uploading
started status = status

abbrev pub start_upload : UploadRow → UploadRow
start_upload u = record u { status = started u.status }

-- `UPDATE upload_sessions SET status = 'uploading' WHERE id = … AND status = 'initiated'`.
unfoldable pub mark_started : ℕ → Db → Db
mark_started upload_id db = record db {
  uploads = modify (λ u. u.id) upload_id start_upload db.uploads;
}

abbrev pub sign_and_mark : Env → ℕ → Upload → Text → ℕ → List ℤ → M (List PartUrl)
sign_and_mark env upload_id upload storage_upload_id count numbers = do
  require (not (is_completed upload.status)) upload_completed
  require (not (is_over upload.status || not (ltb (env.now service_clock) upload.expires_at)))
      upload_expired
  urls ← sign_parts env upload storage_upload_id count [] numbers
  exec_db env mark_uploading (mark_started upload_id)
  pure urls

abbrev pub urls_of : Env → ℕ → List ℤ → Upload → Option ℕ → Option Text → M (List PartUrl)
urls_of env upload_id numbers upload none id = fail invalid_upload_parts
urls_of env upload_id numbers upload (some count) none = fail invalid_upload_parts
urls_of env upload_id numbers upload (some count) (some id) =
    if is_multipart upload.upload_type
    then sign_and_mark env upload_id upload id count numbers
    else fail invalid_upload_parts

unfoldable pub part_urls : Env → ℕ → ℕ → List ℤ → M (List PartUrl)
unfolding mark_started sign_parts
part_urls env identity_id upload_id numbers = do
  require (not (ltb (length numbers) 1 || ltb max_parts_batch (length numbers)))
      invalid_upload_parts
  upload ← load_upload env identity_id upload_id
  urls_of env upload_id numbers upload upload.parts_count upload.storage_upload_id
