-- ===== src/Media/Current.antt =====
-- What a handler knows of the rows behind an `Upload` that it has read.
use zhyvo.Base.{ℕ, ◌≡◌, inl, inr, some, Bool, ◌&&◌, ◌==◌, Option-cases, arith}
use zhyvo.Base.Table.Find.{find-find_key}
use zhyvo.Base.Table.{find, find_key}
use zhyvo.Schema.{Db, MediaRow, UploadRow}
use zhyvo.Exec.{Env, World, M, ok, ◌>>=◌, bind_post}
use zhyvo.Capacity.{IsSound}
use zhyvo.Media.Types.{Upload}
use zhyvo.Media.Queries.{scan_upload, load_upload}

-- The columns that an `Upload` was read from, and that no statement changes.
pub record IsCurrent (db : Db) (upload : Upload) : Type 0 where
  pub media_id :
      (u : UploadRow)
      → find_key (λ a. a.id) upload.id db.uploads ≡ some u
      → u.media_id ≡ upload.media_id
  pub size_bytes :
      (m : MediaRow)
      → find_key (λ a. a.id) upload.media_id db.media ≡ some m
      → m.size_bytes ≡ upload.size_bytes

abbrev at_upload : ℕ → ℕ → UploadRow → Bool
at_upload identity_id upload_id u = u.id == upload_id && u.identity_id == identity_id

-- The rows behind an upload that was read.
pub record Read (db : Db) (identity_id upload_id : ℕ) (upload : Upload) : Type 0 where
  pub session : UploadRow
  pub row : MediaRow
  pub found : find (at_upload identity_id upload_id) db.uploads ≡ some session
  pub joined : find_key (λ m. m.id) session.media_id db.media ≡ some row
  pub scanned : upload ≡ scan_upload session row

module _ (env : Env) (identity_id upload_id : ℕ) (w : World) (upload : Upload) where
  Read-joined :
      (u : UploadRow)
      → find (at_upload identity_id upload_id) w.db.uploads ≡ some u
      → (load_upload env identity_id upload_id w).0 ≡ ok upload
      → Read w.db identity_id upload_id upload
  unfolding load_upload
  Read-joined u e h = elim (Option-cases (find_key (λ m. m.id) u.media_id w.db.media)) [
    | inl missing ↦ ground arith
    | inr (m, row) ↦ record {
      session = u;
      row = m;
      found = e;
      joined = row;
      scanned = ground arith;
    }
  ]

  pub load_upload-Read :
      (load_upload env identity_id upload_id w).0 ≡ ok upload
      → Read w.db identity_id upload_id upload
  unfolding load_upload
  load_upload-Read h = elim (Option-cases (find (at_upload identity_id upload_id) w.db.uploads)) [
    | inl missing ↦ ground arith
    | inr (u, e) ↦ Read-joined u e h
  ]

pub Read-IsCurrent :
    (db : Db) (identity_id upload_id : ℕ) (upload : Upload)
    → IsSound db
    → Read db identity_id upload_id upload
    → IsCurrent db upload
Read-IsCurrent db identity_id upload_id upload sound r =
    let unique =
      find-find_key (λ u. u.id) (at_upload identity_id upload_id) db.uploads r.session
        sound.upload_ids r.found in
    record {
      media_id = λ u e. ground (arith, unique);
      size_bytes = λ m e. ground (arith, r.joined);
    }

pub load_upload-world :
    (env : Env) (identity_id upload_id : ℕ) (w : World)
    → (load_upload env identity_id upload_id w).1 ≡ w
unfolding load_upload
load_upload-world env identity_id upload_id w = ground arith

-- A property of the rows read, and of the database, passes to what follows the read.
pub after_load :
    {A : Type 0} (env : Env) (identity_id upload_id : ℕ) (f : Upload → M A) (w : World)
    → IsSound w.db
    → ((upload : Upload) → IsCurrent w.db upload → IsSound (f upload w).1.db)
    → IsSound ((load_upload env identity_id upload_id >>= f) w).1.db
after_load env identity_id upload_id f w sound next =
    bind_post (λ r w'. IsSound w'.db) (load_upload env identity_id upload_id) f w
      (λ e _. rw load_upload-world sound)
      (λ upload read. rw load_upload-world (
        next upload (
          Read-IsCurrent w.db identity_id upload_id upload sound
            (load_upload-Read env identity_id upload_id w upload read))))
