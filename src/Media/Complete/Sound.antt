-- ===== src/Media/Complete/Sound.antt =====
-- `Complete` keeps the counters true.
use zhyvo.Base.{
  ℕ, ltb, List, ◌≡◌, refl, sym, ◌∙◌, ◌⊎◌, inl, inr, Option, none, some, true, ◌||◌, not, ◌==◌,
  Option-cases, Bool-cases, subst, arith,
}
use zhyvo.Base.Table.{find_key, modify}
use zhyvo.Base.Table.Find.{find_key-All}
use zhyvo.Base.Table.Modify.{find_key-modify}
use zhyvo.Schema.{
  Db, RoomRow, MediaRow, UploadRow, completed, ready, aborted, failed, is_completed, is_multipart,
  is_over, is_open, is_pending,
}
use zhyvo.Exec.{
  Env, World, CompletedPart, lift, ObjectInfo, size_of, object_missing, stat_failed, call, ignore,
  fail, remove, remove_object, uploaded_size_mismatch, bind_post, database_clock, service_clock,
}
use zhyvo.Base.Text.{Text}
use zhyvo.Capacity.{UploadFits, IsSound}
use zhyvo.Capacity.Step.{Keeps, Follows}
use zhyvo.Capacity.Change.{Ends, Includes, changed, changed-IsSound}
use zhyvo.Media.Types.{Upload}
use zhyvo.Media.Parts.{validate_completed_parts}
use zhyvo.Media.Current.{IsCurrent, after_load}
use zhyvo.Media.Release.Sound.{release_reservation-IsSound}
use zhyvo.Media.Release.{release_reservation}
use zhyvo.Media.Complete.{
  finished, published, settle, finish_upload, publish_media, settle_room, write_complete,
  commit_upload, assemble, accept_object, refuse_size, complete_loaded, complete_open, complete,
  join_parts,
}

-- The database after the three updates.
abbrev pub completed_db : Env → Upload → Db → Db
completed_db env upload db = settle_room upload (
    publish_media (env.now database_clock) upload.media_id
      (finish_upload (env.now database_clock) upload.id db))

write_complete-db :
    (env : Env) (upload : Upload) (w : World)
    → ((write_complete env upload w).1.db ≡ w.db)
      ⊎ ((write_complete env upload w).1.db ≡ completed_db env upload w.tx)
unfolding write_complete
write_complete-db env upload w = ground arith

module _ (env : Env) (upload : Upload) (w : World) where
  commit_upload-missing :
      find_key (λ a. a.id) upload.id w.db.uploads ≡ none → (commit_upload env upload w).1.db ≡ w.db
  unfolding commit_upload
  commit_upload-missing e = ground arith

  commit_upload-found :
      (u : UploadRow)
      → find_key (λ a. a.id) upload.id w.db.uploads ≡ some u
      → ((commit_upload env upload w).1.db ≡ w.db)
        ⊎ ((is_open u.status ≡ true)
            × ((commit_upload env upload w).1.db ≡ completed_db env upload w.db))
  unfolding commit_upload
  commit_upload-found u e = ground (arith, write_complete-db env upload (record w { tx = w.db }))

Keeps-published : (now : ℕ) → Keeps (published now) ready
Keeps-published now = record {
  id = λ m. refl;
  room_id = λ m. refl;
  size_bytes = λ m. refl;
  status = λ m. refl;
}

Ends-finished : (now : ℕ) → Ends (finished now) completed
Ends-finished now = record { id = λ u. refl; media_id = λ u. refl; status = λ u. refl }

Follows-settle :
    (m : MediaRow) (size : ℕ) (r : RoomRow)
    → m.size_bytes ≡ size
    → is_pending m.status ≡ true
    → Includes m r
    → Follows m ready r (settle size r)
Follows-settle m size r e p includes = ground arith

module _ (env : Env) (upload : Upload) (db : Db) where
  abbrev clock : ℕ
  clock = env.now database_clock

  pub completed_db-changed :
      (m : MediaRow)
      → find_key (λ a. a.id) upload.media_id db.media ≡ some m
      → completed_db env upload db
        ≡ changed db upload.id
            (finished clock)
            upload.media_id
            (published clock)
            m.room_id
            (settle upload.size_bytes)
  unfolding finish_upload publish_media settle_room
  completed_db-changed m e =
      let found : find_key (λ a. a.id) upload.media_id
            (modify (λ a. a.id) upload.media_id (published clock) db.media)
          ≡ some (published clock m) =
        find_key-modify (λ a. a.id) upload.media_id (published clock) upload.media_id db.media
          (λ a. refl)
        ∙ ground arith in
      rw found

  completed_db-IsSound :
      (u : UploadRow)
      → find_key (λ a. a.id) upload.id db.uploads ≡ some u
      → is_open u.status ≡ true
      → IsCurrent db upload
      → IsSound db
      → IsSound (completed_db env upload db)
  completed_db-IsSound u e opened current sound =
      let (m, row, opens) =
        find_key-All (UploadFits db.media) (λ a. a.id) upload.id db.uploads sound.uploads e in
      let link = current.media_id u e in
      let row' : find_key (λ a. a.id) upload.media_id db.media ≡ some m = rw link at row in
      rw (completed_db-changed m row') (
        rw link at (
          changed-IsSound db upload.id (finished clock) completed u (published clock) ready m
            (settle upload.size_bytes) sound e row (Ends-finished clock) (Keeps-published clock)
            (λ r. refl)
            (λ r here fits includes.
              Follows-settle m upload.size_bytes r (current.size_bytes m row') (sym opens ∙ opened)
                includes)
            refl))

-- In whatever sound state the transaction that ends a completion starts, also after other requests
-- have run since the upload was read, if the columns of the upload that never change are still
-- those of its rows, it leaves every room's counters equal to the sums over its media, within the
-- room's limits.
pub commit_upload-IsSound :
    (env : Env) (upload : Upload) (w : World)
    → IsSound w.db
    → IsCurrent w.db upload
    → IsSound (commit_upload env upload w).1.db
commit_upload-IsSound env upload w sound current =
    elim (Option-cases (find_key (λ a. a.id) upload.id w.db.uploads)) [
      | inl missing ↦ subst IsSound (sym (commit_upload-missing env upload w missing)) sound
      | inr (u, e) ↦ elim (commit_upload-found env upload w u e) [
        | inl same ↦ subst IsSound (sym same) sound
        | inr (opened, done) ↦
            subst IsSound (sym done) (completed_db-IsSound env upload w.db u e opened current sound)
      ]
    ]

join_parts-db :
    (env : Env) (upload : Upload) (parts : List CompletedPart) (id : Option Text) (w : World)
    → (join_parts env upload parts id w).1.db ≡ w.db
join_parts-db env upload parts none w = refl
join_parts-db env upload parts (some id) w = ground arith

pub assemble-db :
    (env : Env) (upload : Upload) (parts : List CompletedPart) (w : World)
    → (assemble env upload parts w).1.db ≡ w.db
unfolding assemble
assemble-db env upload parts w = elim (Bool-cases (is_multipart upload.upload_type)) [
  | inl many ↦ rw many (
      bind_post (λ r w'. w'.db ≡ w.db) (lift (validate_completed_parts parts upload.parts_count))
        (λ storage_parts. join_parts env upload storage_parts upload.storage_upload_id) w
        (λ e _. refl)
        (λ storage_parts _. join_parts-db env upload storage_parts upload.storage_upload_id w))
  | inr one ↦ rw one refl
]

refuse_size-IsSound :
    (env : Env) (upload : Upload) (w : World)
    → IsSound w.db
    → IsCurrent w.db upload
    → IsSound (refuse_size env upload w).1.db
refuse_size-IsSound env upload w sound current =
    bind_post (λ r w'. IsSound w'.db) (release_reservation env upload aborted failed)
      (λ _. fail uploaded_size_mismatch)
      (ignore (call env remove (remove_object upload.object_key)) w).1 (λ e _. kept) (λ _ _. kept)
  where
    kept :
        IsSound
          (release_reservation env upload aborted failed
            (ignore (call env remove (remove_object upload.object_key)) w).1).1.db
    kept =
        release_reservation-IsSound env upload aborted failed
          (ignore (call env remove (remove_object upload.object_key)) w).1 refl refl sound current

accept_object-IsSound :
    (env : Env) (upload : Upload) (info : ObjectInfo) (w : World)
    → IsSound w.db
    → IsCurrent w.db upload
    → IsSound (accept_object env upload info w).1.db
accept_object-IsSound env upload object_missing w sound current = sound
accept_object-IsSound env upload stat_failed w sound current = sound
accept_object-IsSound env upload (size_of n) w sound current =
    elim (Bool-cases (n == upload.size_bytes)) [
      | inl same ↦ rw same (commit_upload-IsSound env upload w sound current)
      | inr other ↦ rw other (refuse_size-IsSound env upload w sound current)
    ]

complete_open-IsSound :
    (env : Env) (upload : Upload) (parts : List CompletedPart) (w : World)
    → IsSound w.db
    → IsCurrent w.db upload
    → IsSound (complete_open env upload parts w).1.db
complete_open-IsSound env upload parts w sound current =
    let same = sym (assemble-db env upload parts w) in
    bind_post (λ r w'. IsSound w'.db) (assemble env upload parts)
      (λ _. accept_object env upload env.last_stat) w (λ e _. subst IsSound same sound)
      (λ _ _.
        accept_object-IsSound env upload env.last_stat (assemble env upload parts w).1
          (subst IsSound same sound) (subst (λ d. IsCurrent d upload) same current))

complete_loaded-IsSound :
    (env : Env) (upload : Upload) (parts : List CompletedPart) (w : World)
    → IsSound w.db
    → IsCurrent w.db upload
    → IsSound (complete_loaded env upload parts w).1.db
unfolding complete_loaded
complete_loaded-IsSound env upload parts w sound current =
    elim (Bool-cases (is_completed upload.status)) [
      | inl done ↦ rw done sound
      | inr undone ↦
          elim (Bool-cases
            (is_over upload.status || not (ltb (env.now service_clock) upload.expires_at))) [
              | inl over ↦ rw (undone, over) sound
              | inr open_still ↦
                  rw (undone, open_still) (complete_open-IsSound env upload parts w sound current)
            ]
    ]

-- A completion keeps the counters of every room true, on every path: the part list, the store and
-- the database may fail at any step, and the size may not match.
pub complete-IsSound :
    (env : Env) (identity_id upload_id : ℕ) (parts : List CompletedPart) (w : World)
    → IsSound w.db
    → IsSound (complete env identity_id upload_id parts w).1.db
unfolding complete
complete-IsSound env identity_id upload_id parts w sound =
    after_load env identity_id upload_id (λ upload. complete_loaded env upload parts) w sound
      (λ upload current. complete_loaded-IsSound env upload parts w sound current)
