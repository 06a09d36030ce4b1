-- ===== src/HttpApi/Uploads.antt =====
-- internal/httpapi/upload_handler.go. A handler takes the principal of the context,
-- the texts of the path and the header, and the decoded body.
use zhyvo.Base.{ℕ, List, [], Option, none, some, if◌then◌else◌}
use zhyvo.Base.Int.{ℤ, pos}
use zhyvo.Base.Text.{Text, codes, text_eq}
use zhyvo.Exec.{
  Env, Error, CompletedPart, invalid_input, room_not_found, room_expired, not_member,
  uploads_closed, room_limit_reached, upload_not_found, upload_expired, upload_completed,
  upload_not_ready, media_not_ready, media_not_found, media_access_denied, invalid_upload_parts,
  uploaded_size_mismatch, idempotency_conflict,
}
use zhyvo.Media.Types.{InitiateInput, Upload, PartUrl, MediaResult}
use zhyvo.Media.Initiate.{initiate}
use zhyvo.Media.PartUrls.{part_urls}
use zhyvo.Media.Complete.{complete}
use zhyvo.Media.Release.{abort}
use zhyvo.Media.Gallery.Membership.{Download, download}
use zhyvo.Media.Gallery.Delete.{delete}
use zhyvo.Media.Gallery.Page.{GalleryCursor, GalleryPage}
use zhyvo.Media.Gallery.Browse.{gallery}
use zhyvo.Auth.Telegram.{parse_int}
use zhyvo.Auth.Types.{Jwt, Principal}
use zhyvo.HttpApi.Respond.{
  Response, Handler, reply, refusal, no_body, upload_body, parts_body, media_body, download_body,
  page_body, refuse, answer, with_principal, with_input, with_id,
}

-- `uploadHandler.writeError`.
unfoldable pub upload_error : Error → Response
upload_error invalid_input = refusal 422 (codes "VALIDATION_ERROR")
upload_error room_not_found = refusal 404 (codes "ROOM_NOT_FOUND")
upload_error room_expired = refusal 410 (codes "ROOM_EXPIRED")
upload_error not_member = refusal 403 (codes "ROOM_MEMBERSHIP_REQUIRED")
upload_error uploads_closed = refusal 409 (codes "ROOM_UPLOADS_CLOSED")
upload_error room_limit_reached = refusal 409 (codes "ROOM_STORAGE_LIMIT_REACHED")
upload_error upload_not_found = refusal 404 (codes "UPLOAD_NOT_FOUND")
upload_error upload_expired = refusal 410 (codes "UPLOAD_EXPIRED")
upload_error upload_completed = refusal 409 (codes "UPLOAD_ALREADY_COMPLETED")
upload_error upload_not_ready = refusal 409 (codes "UPLOAD_NOT_READY")
upload_error invalid_upload_parts = refusal 422 (codes "INVALID_UPLOAD_PARTS")
upload_error uploaded_size_mismatch = refusal 422 (codes "UPLOADED_SIZE_MISMATCH")
upload_error idempotency_conflict = refusal 409 (codes "IDEMPOTENCY_CONFLICT")
upload_error media_not_found = refusal 404 (codes "MEDIA_NOT_FOUND")
upload_error media_not_ready = refusal 409 (codes "MEDIA_NOT_READY")
upload_error media_access_denied = refusal 403 (codes "MEDIA_DELETE_FORBIDDEN")
upload_error _ = refusal 502 (codes "STORAGE_ERROR")

module _ (jwt : Jwt) (env : Env) (context : Option Principal) where
  -- `principalAndUploadID`.
  abbrev pub with_upload : Text → (ℕ → ℕ → Handler) → Handler
  with_upload raw next =
      with_principal context
        λ p. with_id (jwt.uuid_parse raw) 404 (codes "UPLOAD_NOT_FOUND") (next p.identity_id)

  -- `principalAndMediaID`.
  abbrev pub with_media : Text → (ℕ → ℕ → Handler) → Handler
  with_media raw next =
      with_principal context
        λ p. with_id (jwt.uuid_parse raw) 404 (codes "MEDIA_NOT_FOUND") (next p.identity_id)

  unfoldable pub handle_initiate : Text → Text → Option InitiateInput → Handler
  handle_initiate slug key body = with_principal context λ p.
      with_id (jwt.uuid_parse key) 400 (codes "INVALID_IDEMPOTENCY_KEY") λ k.
        with_input body λ input.
          answer (initiate env p.identity_id k slug input) upload_error
            (λ (u : Upload). reply 201 (upload_body u u.media_id))

  unfoldable pub handle_parts : Text → Option (List ℤ) → Handler
  handle_parts upload body = with_upload upload λ identity_id upload_id. with_input body λ numbers.
      answer (part_urls env identity_id upload_id numbers) upload_error
        (λ (urls : List PartUrl). reply 200 (parts_body urls))

  unfoldable pub handle_complete : Text → Option (List CompletedPart) → Handler
  handle_complete upload body = with_upload upload λ identity_id upload_id. with_input body λ parts.
      answer (complete env identity_id upload_id parts) upload_error
        (λ (m : MediaResult). reply 200 (media_body m))

  unfoldable pub handle_abort : Text → Handler
  handle_abort upload = with_upload upload λ identity_id upload_id.
      answer (abort env identity_id upload_id) upload_error (λ _. reply 204 no_body)

  -- `limit` and `cursor` are the values of the query; an empty limit is the default.
  abbrev pub limit_of : Text → Option ℤ
  limit_of raw = if text_eq raw [] then some (pos 50) else parse_int raw

  abbrev pub with_limit : Option ℤ → (ℤ → Handler) → Handler
  with_limit none next = refuse 422 (codes "VALIDATION_ERROR")
  with_limit (some n) next = next n

  unfoldable pub handle_gallery : (Text → Option GalleryCursor) → Text → Text → Text → Handler
  handle_gallery decode slug limit cursor = with_principal context λ p.
      with_limit (limit_of limit) λ n.
        answer (gallery decode env p.identity_id slug n cursor) upload_error
          (λ (page : GalleryPage). reply 200 (page_body page))

  unfoldable pub handle_download : Text → Handler
  handle_download media = with_media media λ identity_id media_id.
      answer (download env identity_id media_id) upload_error
        (λ (d : Download). reply 200 (download_body d))

  unfoldable pub handle_delete : Text → Handler
  handle_delete media = with_media media λ identity_id media_id.
      answer (delete env identity_id media_id) upload_error (λ _. reply 204 no_body)
