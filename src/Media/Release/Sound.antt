-- ===== src/Media/Release/Sound.antt =====
-- `releaseReservation` and `Abort` keep the counters true.
use zhyvo.Base.{
  ℕ, ◌≡◌, refl, sym, ◌∙◌, ◌⊎◌, inl, inr, Option, none, some, Bool, true, false, ◌||◌, Option-cases,
  Bool-cases, subst, arith,
}
use zhyvo.Base.Table.{find_key, modify}
use zhyvo.Base.Table.Find.{find_key-All}
use zhyvo.Base.Table.Modify.{find_key-modify}
use zhyvo.Schema.{
  Db, RoomRow, MediaRow, UploadRow, MediaStatus, UploadStatus, aborted, deleted, is_completed,
  is_over, is_open, is_pending, is_ready,
}
use zhyvo.Exec.{Env, World, bind_post, database_clock}
use zhyvo.Capacity.{UploadFits, IsSound}
use zhyvo.Capacity.Step.{Keeps, Follows}
use zhyvo.Capacity.Change.{Ends, Includes, changed, changed-IsSound}
use zhyvo.Media.Types.{Upload}
use zhyvo.Media.Current.{IsCurrent, after_load}
use zhyvo.Media.Release.{
  with_status, dropped, unreserve, set_upload_status, drop_media, release_room, write_release,
  release_reservation, abort, abort_loaded, abort_open, discard_object, multipart_id,
}
use zhyvo.Base.Text.{Text}

-- The database after the three updates.
abbrev pub released_db : Env → Upload → UploadStatus → MediaStatus → Db → Db
released_db env upload t s db =
    release_room upload
      (drop_media (env.now database_clock) upload.media_id s (set_upload_status upload.id t db))

module _ (env : Env) (upload : Upload) (t : UploadStatus) (s : MediaStatus) where
  write_release-db :
      (w : World)
      → ((write_release env upload t s w).1.db ≡ w.db)
        ⊎ ((write_release env upload t s w).1.db ≡ released_db env upload t s w.tx)
  unfolding write_release
  write_release-db w = ground arith

  release_reservation-missing :
      (w : World)
      → find_key (λ a. a.id) upload.id w.db.uploads ≡ none
      → (release_reservation env upload t s w).1.db ≡ w.db
  unfolding release_reservation
  release_reservation-missing w e = ground arith

  release_reservation-found :
      (w : World) (u : UploadRow)
      → find_key (λ a. a.id) upload.id w.db.uploads ≡ some u
      → ((release_reservation env upload t s w).1.db ≡ w.db)
        ⊎ ((is_open u.status ≡ true)
            × ((release_reservation env upload t s w).1.db ≡ released_db env upload t s w.db))
  unfolding release_reservation
  release_reservation-found w u e = ground (arith, write_release-db (record w { tx = w.db }))

pub Keeps-dropped : (now : ℕ) (s : MediaStatus) → Keeps (dropped now s) s
Keeps-dropped now s = record {
  id = λ m. refl;
  room_id = λ m. refl;
  size_bytes = λ m. refl;
  status = λ m. refl;
}

pub Ends-with_status : (t : UploadStatus) → Ends (with_status t) t
Ends-with_status t = record { id = λ u. refl; media_id = λ u. refl; status = λ u. refl }

-- A status that no counter counts.
abbrev pub is_counted : MediaStatus → Bool
is_counted s = is_pending s || is_ready s

pub Follows-unreserve :
    (m : MediaRow) (size : ℕ) (r : RoomRow) (s : MediaStatus)
    → m.size_bytes ≡ size
    → is_counted s ≡ false
    → is_pending m.status ≡ true
    → Includes m r
    → Follows m s r (unreserve size r)
Follows-unreserve m size r s e gone p includes = ground arith

module _ (env : Env) (upload : Upload) (t : UploadStatus) (s : MediaStatus) (db : Db) where
  abbrev clock : ℕ
  clock = env.now database_clock

  released_db-changed :
      (m : MediaRow)
      → find_key (λ a. a.id) upload.media_id db.media ≡ some m
      → released_db env upload t s db
        ≡ changed db upload.id
            (with_status t)
            upload.media_id
            (dropped clock s)
            m.room_id
            (unreserve upload.size_bytes)
  unfolding set_upload_status drop_media release_room
  released_db-changed m e =
      let found : find_key (λ a. a.id) upload.media_id
            (modify (λ a. a.id) upload.media_id (dropped clock s) db.media)
          ≡ some (dropped clock s m) =
        find_key-modify (λ a. a.id) upload.media_id (dropped clock s) upload.media_id db.media
          (λ a. refl)
        ∙ ground arith in
      rw found

  released_db-IsSound :
      (u : UploadRow)
      → find_key (λ a. a.id) upload.id db.uploads ≡ some u
      → is_open u.status ≡ true
      → is_over t ≡ true
      → is_counted s ≡ false
      → IsCurrent db upload
      → IsSound db
      → IsSound (released_db env upload t s db)
  released_db-IsSound u e opened over gone current sound =
      let (m, row, opens) =
        find_key-All (UploadFits db.media) (λ a. a.id) upload.id db.uploads sound.uploads e in
      let link = current.media_id u e in
      let row' : find_key (λ a. a.id) upload.media_id db.media ≡ some m = rw link at row in
      rw (released_db-changed m row') (
        rw link at (
          changed-IsSound db upload.id (with_status t) t u (dropped clock s) s m
            (unreserve upload.size_bytes) sound e row (Ends-with_status t) (Keeps-dropped clock s)
            (λ r. refl)
            (λ r here fits includes.
              Follows-unreserve m upload.size_bytes r s (current.size_bytes m row') gone
                (sym opens ∙ opened) includes)
            (ground arith)))

-- In whatever sound state it starts, if the columns of the upload that never change are still
-- those of its rows, a release to a final status of the session and a status of the media that is
-- not counted keeps every room's counters equal to the sums over its media and within the room's
-- limits.
pub release_reservation-IsSound :
    (env : Env) (upload : Upload) (t : UploadStatus) (s : MediaStatus) (w : World)
    → is_over t ≡ true
    → is_counted s ≡ false
    → IsSound w.db
    → IsCurrent w.db upload
    → IsSound (release_reservation env upload t s w).1.db
release_reservation-IsSound env upload t s w over gone sound current =
    elim (Option-cases (find_key (λ a. a.id) upload.id w.db.uploads)) [
      | inl missing ↦
          subst IsSound (sym (release_reservation-missing env upload t s w missing)) sound
      | inr (u, e) ↦ elim (release_reservation-found env upload t s w u e) [
        | inl same ↦ subst IsSound (sym same) sound
        | inr (opened, done) ↦
            subst IsSound (sym done)
              (released_db-IsSound env upload t s w.db u e opened over gone current sound)
      ]
    ]

discard_object-db :
    (env : Env) (upload : Upload) (id : Option Text) (w : World)
    → (discard_object env upload id w).1.db ≡ w.db
discard_object-db env upload none w = refl
discard_object-db env upload (some id) w = refl

abort_open-IsSound :
    (env : Env) (upload : Upload) (w : World)
    → IsSound w.db
    → IsCurrent w.db upload
    → IsSound (abort_open env upload w).1.db
abort_open-IsSound env upload w sound current =
    let id = multipart_id upload in
    let same = sym (discard_object-db env upload id w) in
    bind_post (λ r w'. IsSound w'.db) (discard_object env upload id)
      (λ _. release_reservation env upload aborted deleted) w (λ e _. subst IsSound same sound)
      (λ _ _.
        release_reservation-IsSound env upload aborted deleted (discard_object env upload id w).1
          refl refl (subst IsSound same sound) (subst (λ d. IsCurrent d upload) same current))

abort_loaded-IsSound :
    (env : Env) (upload : Upload) (w : World)
    → IsSound w.db
    → IsCurrent w.db upload
    → IsSound (abort_loaded env upload w).1.db
abort_loaded-IsSound env upload w sound current = elim (Bool-cases (is_completed upload.status)) [
  | inl done ↦ rw done sound
  | inr undone ↦ elim (Bool-cases (is_over upload.status)) [
    | inl over ↦ rw (undone, over) sound
    | inr open_still ↦ rw (undone, open_still) (abort_open-IsSound env upload w sound current)
  ]
]

-- An abort keeps the counters of every room true, on every path.
pub abort-IsSound :
    (env : Env) (identity_id upload_id : ℕ) (w : World)
    → IsSound w.db
    → IsSound (abort env identity_id upload_id w).1.db
unfolding abort
abort-IsSound env identity_id upload_id w sound =
    after_load env identity_id upload_id (abort_loaded env) w sound
      (λ upload current. abort_loaded-IsSound env upload w sound current)
