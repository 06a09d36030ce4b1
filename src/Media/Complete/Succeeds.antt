-- ===== src/Media/Complete/Succeeds.antt =====
-- A completion that the database and the store let through succeeds.
use zhyvo.Base.{
  ℕ, List, [], ◌∷◌, ◌≡◌, refl, sym, ap, ◌∙◌, some, true, false, ◌&&◌, ◌==◌, ==_iff, any, All,
  Bool-cases, inl, inr, subst, arith,
}
use zhyvo.Base.Table.{find_key, modify}
use zhyvo.Base.Table.Find.{find_key-All}
use zhyvo.Base.Table.Modify.{find_key-modify}
use zhyvo.Schema.{
  Db, RoomRow, MediaRow, UploadRow, is_completed, is_ready, is_open, is_over, is_pending,
  UploadStatus, initiated, uploading, completed, aborted, expired,
}
use zhyvo.Exec.{
  Env, World, Stage, ok, begin, lock_upload, commit, complete_upload, mark_ready, settle_capacity,
  database_clock,
}
use zhyvo.Capacity.{UploadFits, RoomFits, IsSound}
use zhyvo.Capacity.Change.{Includes, includes}
use zhyvo.Media.Types.{Upload}
use zhyvo.Media.Current.{IsCurrent}
use zhyvo.Media.Complete.{
  finished, published, finish_upload, publish_media, settle_refused, cannot_settle, write_complete,
  commit_upload, media_ready,
}
use zhyvo.Media.Complete.Sound.{completed_db, completed_db-changed, commit_upload-IsSound}

-- A room that counts the pending file can turn its reservation into use.
can_settle :
    (m : MediaRow) (media : List MediaRow) (r : RoomRow)
    → is_pending m.status ≡ true
    → RoomFits media r
    → Includes m r
    → cannot_settle m.size_bytes r ≡ false
can_settle m media r pending fits has =
    ground (arith, fits.files, fits.bytes, has.reserved_files, has.reserved_bytes)

any_settle :
    (m : MediaRow) (media : List MediaRow) (rooms : List RoomRow)
    → is_pending m.status ≡ true
    → ((r : RoomRow) → m.room_id ≡ r.id → RoomFits media r → Includes m r)
    → All (RoomFits media) rooms
    → any (λ r. r.id == m.room_id && cannot_settle m.size_bytes r) rooms ≡ false
any_settle m media [] pending has fits = refl
any_settle m media (r ∷ rooms) pending has fits = elim (Bool-cases (r.id == m.room_id)) [
  | inl here ↦
      let same = sym ((==_iff r.id m.room_id).0 here) in
      rw (here, can_settle m media r pending fits.0 (has r same fits.0))
        (any_settle m media rooms pending has fits.1)
  | inr away ↦ rw away (any_settle m media rooms pending has fits.1)
]

settle_refused-row :
    (upload : Upload) (m : MediaRow) (db : Db)
    → find_key (λ a. a.id) upload.media_id db.media ≡ some m
    → settle_refused upload db
      ≡ any (λ r. r.id == m.room_id && cannot_settle upload.size_bytes r) db.rooms
unfolding settle_refused
settle_refused-row upload m db e = ground (arith, e)

module _ (env : Env) (upload : Upload) (db : Db) (u : UploadRow)
    (found : find_key (λ a. a.id) upload.id db.uploads ≡ some u) (opened : is_open u.status ≡ true)
    (current : IsCurrent db upload) (sound : IsSound db) where
  abbrev clock : ℕ
  clock = env.now database_clock

  pending_row :
      (m : MediaRow) × (find_key (λ a. a.id) upload.media_id db.media ≡ some m)
      × (is_pending m.status ≡ true)
  pending_row =
      let (m, row, opens) =
        find_key-All (UploadFits db.media) (λ a. a.id) upload.id db.uploads sound.uploads found in
      (m, rw (current.media_id u found) at row, sym opens ∙ opened)

  published_row :
      (m : MediaRow)
      → find_key (λ a. a.id) upload.media_id db.media ≡ some m
      → find_key
          (λ a. a.id)
          upload.media_id
          (modify (λ a. a.id) upload.media_id (published clock) db.media)
        ≡ some (published clock m)
  published_row m row =
      find_key-modify (λ a. a.id) upload.media_id (published clock) upload.media_id db.media
        (λ a. refl)
      ∙ ground arith

  finished_row :
      find_key (λ a. a.id) upload.id (modify (λ a. a.id) upload.id (finished clock) db.uploads)
      ≡ some (finished clock u)
  finished_row =
      find_key-modify (λ a. a.id) upload.id (finished clock) upload.id db.uploads (λ a. refl)
      ∙ ground arith

  accepted :
      settle_refused upload (publish_media clock upload.media_id (finish_upload clock upload.id db))
      ≡ false
  unfolding publish_media finish_upload
  accepted =
      let (m, row, pending) = pending_row in
      settle_refused-row upload (published clock m)
        (publish_media clock upload.media_id (finish_upload clock upload.id db))
        (published_row m row)
      ∙ rw (sym (current.size_bytes m row)) (
          any_settle m db.media db.rooms pending (includes db.media upload.media_id m row)
            sound.rooms)

-- The media is ready and the session completed.
abbrev pub IsFinished : Upload → Db → Type 0
IsFinished upload db =
    ((m : MediaRow) × (find_key (λ a. a.id) upload.media_id db.media ≡ some m)
      × (is_ready m.status ≡ true))
    × ((v : UploadRow) × (find_key (λ a. a.id) upload.id db.uploads ≡ some v)
        × (is_completed v.status ≡ true))

completed-IsFinished :
    (env : Env) (upload : Upload) (db : Db) (u : UploadRow)
    → find_key (λ a. a.id) upload.id db.uploads ≡ some u
    → is_open u.status ≡ true
    → IsCurrent db upload
    → IsSound db
    → IsFinished upload (completed_db env upload db)
completed-IsFinished env upload db u found opened current sound =
    let (m, row, pending) = pending_row env upload db u found opened current sound in
    let now = env.now database_clock in
    rw (completed_db-changed env upload db m row) (
      (published now m, published_row env upload db u found opened current sound m row, refl),
      (finished now u, finished_row env upload db u found opened current sound, refl),
    )

going : (s : UploadStatus) → is_open s ≡ true → (is_completed s ≡ false) × (is_over s ≡ false)
going initiated h = (refl, refl)
going uploading h = (refl, refl)
going completed h = absurd (ground arith)
going aborted h = absurd (ground arith)
going expired h = absurd (ground arith)

commit_upload-written :
    (env : Env) (upload : Upload) (w : World) (u : UploadRow)
    → find_key (λ a. a.id) upload.id w.db.uploads ≡ some u
    → is_open u.status ≡ true
    → settle_refused upload (
        publish_media
          (env.now database_clock)
          upload.media_id
          (finish_upload (env.now database_clock) upload.id w.db))
      ≡ false
    → ((s : Stage) → env.fails s ≡ false)
    → commit_upload env upload w ≡ (
      ok (media_ready upload),
      record w { db = completed_db env upload w.db; tx = completed_db env upload w.db },
    )
unfolding commit_upload write_complete
commit_upload-written env upload w u found opened fits works =
    let (open_yet, not_over) = going u.status opened in
    rw
      (
        works begin,
        works lock_upload,
        found,
        open_yet,
        not_over,
        works complete_upload,
        works mark_ready,
        works settle_capacity,
        fits,
        works commit,
      )
      refl

-- In a sound database, the transaction that ends a completion meets no constraint: if the session
-- is found and open, the upload has the columns of its rows, and nothing fails, it succeeds, the
-- media is ready, the session is completed, and the counters stay true.
pub commit_upload-succeeds :
    (env : Env) (upload : Upload) (w : World) (u : UploadRow)
    → find_key (λ a. a.id) upload.id w.db.uploads ≡ some u
    → is_open u.status ≡ true
    → IsCurrent w.db upload
    → IsSound w.db
    → ((s : Stage) → env.fails s ≡ false)
    → ((commit_upload env upload w).0 ≡ ok (media_ready upload))
      × IsFinished upload (commit_upload env upload w).1.db
      × IsSound (commit_upload env upload w).1.db
commit_upload-succeeds env upload w u found opened current sound works =
    let written =
      commit_upload-written env upload w u found opened
        (accepted env upload w.db u found opened current sound) works in
    (
      ap (λ x. x.0) written,
      subst (λ x. IsFinished upload x.1.db) (sym written)
          (completed-IsFinished env upload w.db u found opened current sound),
      commit_upload-IsSound env upload w sound current,
    )
