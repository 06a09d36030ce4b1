-- ===== src/Media/PartUrls/Sound.antt =====
-- Handing out part URLs keeps the counters true.
use zhyvo.Base.{
  ℕ, ◌≡◌, refl, sym, ap, ◌∙◌, ◌⊎◌, inl, inr, List, [], ◌∷◌, Option, none, some, ◌||◌, not, ltb,
  length, Bool-cases, subst, arith,
}
use zhyvo.Base.Int.{ℤ}
use zhyvo.Base.Table.Modify.{All-modify, Distinct-modify}
use zhyvo.Base.Text.{Text}
use zhyvo.Schema.{
  Db, MediaRow, UploadRow, UploadStatus, initiated, uploading, completed, aborted, expired, is_open,
  is_multipart,
}
use zhyvo.Exec.{Env, World, bind_post, require, invalid_upload_parts}
use zhyvo.Capacity.{IsSound, UploadFits}
use zhyvo.Media.Types.{Upload, max_parts_batch}
use zhyvo.Media.Queries.{load_upload}
use zhyvo.Media.PartUrls.{
  sign_part, sign_parts, started, start_upload, mark_started, sign_and_mark, urls_of, part_urls,
}

started_open : (s : UploadStatus) → is_open (started s) ≡ is_open s
started_open initiated = refl
started_open uploading = refl
started_open completed = refl
started_open aborted = refl
started_open expired = refl

start-UploadFits :
    (media : List MediaRow) (u : UploadRow) → UploadFits media u → UploadFits media (start_upload u)
start-UploadFits media u (m, found, same) = (m, found, started_open u.status ∙ same)

mark_started-IsSound : (upload_id : ℕ) (db : Db) → IsSound db → IsSound (mark_started upload_id db)
unfolding mark_started
mark_started-IsSound upload_id db sound = record {
  room_ids = sound.room_ids;
  media_ids = sound.media_ids;
  upload_ids =
      Distinct-modify (λ u. u.id) upload_id start_upload (λ u. u.id) db.uploads (λ u. refl)
        sound.upload_ids;
  upload_media =
      Distinct-modify (λ u. u.id) upload_id start_upload (λ u. u.media_id) db.uploads (λ u. refl)
        sound.upload_media;
  rooms = sound.rooms;
  uploads =
      All-modify (λ u. u.id) upload_id start_upload db.uploads
        (λ u _ fits. start-UploadFits db.media u fits) (λ u _ fits. fits) sound.uploads;
}

sign_part-world :
    (env : Env) (upload : Upload) (id : Text) (number : ℤ) (w : World)
    → (sign_part env upload id number w).1 ≡ w
sign_part-world env upload id number w = ground arith

pub sign_parts-world :
    (env : Env) (upload : Upload) (id : Text) (count : ℕ) (seen numbers : List ℤ) (w : World)
    → (sign_parts env upload id count seen numbers w).1 ≡ w
unfolding sign_parts
sign_parts-world env upload id count seen [] w = refl
sign_parts-world env upload id count seen (number ∷ numbers) w = ground (
  arith,
  sign_part-world env upload id number w,
  sign_parts-world env upload id count (number ∷ seen) numbers w,
)

load_upload-world :
    (env : Env) (identity_id upload_id : ℕ) (w : World)
    → (load_upload env identity_id upload_id w).1 ≡ w
unfolding load_upload
load_upload-world env identity_id upload_id w = ground arith

sign_and_mark-db :
    (env : Env) (upload_id : ℕ) (upload : Upload) (id : Text) (count : ℕ) (numbers : List ℤ)
    (w : World)
    → ((sign_and_mark env upload_id upload id count numbers w).1.db ≡ w.db)
      ⊎ ((sign_and_mark env upload_id upload id count numbers w).1.db ≡ mark_started upload_id w.db)
sign_and_mark-db env upload_id upload id count numbers w =
    ground (arith, sign_parts-world env upload id count [] numbers w)

urls_of-db :
    (env : Env) (upload_id : ℕ) (numbers : List ℤ) (upload : Upload) (count : Option ℕ)
    (id : Option Text) (w : World)
    → ((urls_of env upload_id numbers upload count id w).1.db ≡ w.db)
      ⊎ ((urls_of env upload_id numbers upload count id w).1.db ≡ mark_started upload_id w.db)
urls_of-db env upload_id numbers upload none id w = inl refl
urls_of-db env upload_id numbers upload (some count) none w = inl refl
urls_of-db env upload_id numbers upload (some count) (some id) w =
    elim (Bool-cases (is_multipart upload.upload_type)) [
      | inl large ↦ rw large (sign_and_mark-db env upload_id upload id count numbers w)
      | inr small ↦ rw small (inl refl)
    ]

-- Asking for part URLs keeps the counters of every room true, and its sessions in step with their
-- media.
pub part_urls-IsSound :
    (env : Env) (identity_id upload_id : ℕ) (numbers : List ℤ) (w : World)
    → IsSound w.db
    → IsSound (part_urls env identity_id upload_id numbers w).1.db
unfolding part_urls
part_urls-IsSound env identity_id upload_id numbers w sound =
    bind_post (λ _ v. IsSound v.db)
      (require (not (ltb (length numbers) 1 || ltb max_parts_batch (length numbers)))
        invalid_upload_parts)
      _ w (λ _ _. sound)
      (λ _ _.
        let loaded = ap (λ v. v.db) (load_upload-world env identity_id upload_id w) in
        let sound' = subst IsSound (sym loaded) sound in
        bind_post (λ _ v. IsSound v.db) (load_upload env identity_id upload_id) _ w (λ _ _. sound')
          (λ upload _.
            let v = (load_upload env identity_id upload_id w).1 in
            elim (urls_of-db env upload_id numbers upload upload.parts_count
              upload.storage_upload_id v) [
                | inl same ↦ subst IsSound (sym same) sound'
                | inr marked ↦
                    subst IsSound (sym marked) (mark_started-IsSound upload_id v.db sound')
              ]))
