-- ===== src/Thumbnail.antt =====
-- internal/thumbnail/service.go: the worker that renders thumbnails of the ready media. ffmpeg and the
-- temporary file are answers of `Env`.
pub mod Process
pub mod Sound
pub mod Ends
use zhyvo.Base.{
  ℕ, ◌+◌, ◌-◌, List, [], ◌∷◌, ◌++◌, Option, none, some, Bool, true, false, ◌&&◌, ◌||◌, not, ltb,
  leb, ◌==◌, any, if◌then◌else◌,
}
use zhyvo.Base.Table.{find_key, modify, least}
use zhyvo.Base.Text.{Text, codes, trim_space, byte_length}
use zhyvo.Schema.{
  Db, RoomRow, MediaRow, MediaType, image, video, ThumbnailStatus, waiting, working, done, broken,
  ObjectKey, thumbnail, is_ready, is_active,
}
use zhyvo.Exec.{
  Env, M, World, Result, ok, err, Error, internal, pure, fail, lift, attempt, begin_tx, commit_tx,
  query, exec, call, ignore, ◌>>=◌, ◌>>◌, claim_thumbnail, mark_working, presign_source, temp_file,
  close_temp, put_thumbnail, set_thumbnail, mark_broken, remove, put_file, remove_object,
  no_thumbnail, media_disappeared, ffmpeg_failed, database_clock,
}
use zhyvo.Cleanup.{repeat}

abbrev pub max_attempts : ℕ
max_attempts = 3

abbrev pub max_error_length : ℕ
max_error_length = 1000

-- Ten minutes.
abbrev pub stale_after : ℕ
stale_after = 600

pub record Job : Type 0 where
  pub media_id : ℕ
  pub room_id : ℕ
  pub media_type : MediaType
  pub storage_key : ObjectKey

-- The three ways in which a thumbnail is due, by its status, its attempts and its last change.
abbrev pub due_by : ℕ → ThumbnailStatus → ℕ → ℕ → Bool
due_by now waiting attempts updated = true
due_by now working attempts updated = ltb (updated + stale_after) now
due_by now done attempts updated = false
due_by now broken attempts updated = ltb attempts max_attempts

unfoldable pub is_due : ℕ → MediaRow → Bool
is_due now m = due_by now m.thumbnail_status m.thumbnail_attempts m.thumbnail_updated_at

abbrev pub is_missing {ℓ} : {A : Type ℓ} → Option A → Bool
is_missing none = true
is_missing (some a) = false

abbrev pub shows : ℕ → Option RoomRow → Bool
shows now none = false
shows now (some r) = is_active r.status && ltb now r.expires_at

unfoldable pub is_job : Env → Db → MediaRow → Bool
unfolding is_due
is_job env db m =
    is_ready m.status
    && is_missing m.thumbnail_key
    && shows (env.now database_clock) (find_key (λ r. r.id) m.room_id db.rooms)
    && is_due (env.now database_clock) m
    && not (env.locked m.id)

unfoldable pub select_job : Env → Db → Option MediaRow
unfolding is_job
select_job env db = least (is_job env db) (λ m. m.created_at) db.media

abbrev pub taken : ℕ → MediaRow → MediaRow
taken now m = record m {
  thumbnail_status = working;
  thumbnail_attempts = m.thumbnail_attempts + 1;
  thumbnail_error = none;
  thumbnail_updated_at = now;
}

unfoldable pub take_job : ℕ → ℕ → Db → Db
take_job now id db = record db { media = modify (λ m. m.id) id (taken now) db.media }

abbrev pub job_of : MediaRow → Job
job_of m = record {
  media_id = m.id;
  room_id = m.room_id;
  media_type = m.media_type;
  storage_key = m.storage_key;
}

-- `none` is `pgx.ErrNoRows`.
abbrev pub claim_found : Env → Option MediaRow → M (Option Job)
claim_found env none = pure none
claim_found env (some m) = do
  exec env mark_working (λ _. false) (take_job (env.now database_clock) m.id)
  commit_tx env
  pure (some (job_of m))

unfoldable pub claim : Env → M (Option Job)
unfolding take_job
claim env = do begin_tx env; row ← query env claim_thumbnail (select_job env); claim_found env row

abbrev pub is_video : MediaType → Bool
is_video image = false
is_video video = true

abbrev pub quiet : List Text
quiet = codes "-hide_banner" ∷ codes "-loglevel" ∷ codes "error" ∷ codes "-y" ∷ []

abbrev pub scaled : Text → Text → List Text
scaled source path =
    codes "-i"
    ∷ source
    ∷ codes "-vf"
    ∷ codes "scale=480:-2:force_original_aspect_ratio=decrease"
    ∷ codes "-frames:v"
    ∷ codes "1"
    ∷ codes "-q:v"
    ∷ codes "4"
    ∷ path
    ∷ []

-- A video is tried at its first second, and then from its start.
unfoldable pub run_ffmpeg : Env → MediaType → Text → Text → Result (Unit {0})
run_ffmpeg env media_type source path =
    let base = if is_video media_type then quiet ++ (codes "-ss" ∷ codes "1" ∷ []) else quiet in
    elim (env.ffmpeg (base ++ scaled source path)) [
      | none ↦ ok tt
      | some output ↦
          if is_video media_type
          then (elim (env.ffmpeg (quiet ++ scaled source path)) [
            | none ↦ ok tt
            | some again ↦ err (ffmpeg_failed (trim_space again))
          ])
          else err (ffmpeg_failed (trim_space output))
    ]

-- `os.Stat` of the output.
abbrev pub check_output : Option ℕ → Result (Unit {0})
check_output none = err no_thumbnail
check_output (some size) = if size == 0 then err no_thumbnail else ok tt

abbrev pub shown : ObjectKey → ℕ → MediaRow → MediaRow
shown key now m =
    if is_ready m.status
    then record m {
      thumbnail_key = some key;
      thumbnail_status = done;
      thumbnail_error = none;
      thumbnail_updated_at = now;
    }
    else m

-- `UPDATE media … WHERE id = $2 AND status = 'ready'`.
unfoldable pub show_thumbnail : ObjectKey → ℕ → ℕ → Db → Db
show_thumbnail key now id db = record db { media = modify (λ m. m.id) id (shown key now) db.media }

abbrev pub is_ready_row : ℕ → MediaRow → Bool
is_ready_row id m = m.id == id && is_ready m.status

abbrev pub thumbnail_key_of : Job → ObjectKey
thumbnail_key_of j = thumbnail j.room_id j.media_id

-- The object is removed again, and the error of that is dropped.
abbrev pub withdraw : Env → ObjectKey → Error → M (Unit {0})
withdraw env key e = do ignore (call env remove (remove_object key)); fail e

-- The statement, the number of rows that it met, and what is left when it fails or meets none.
unfoldable pub publish : Env → Job → M (Unit {0})
unfolding show_thumbnail
publish env j w =
    let key = thumbnail_key_of j in
    if env.fails set_thumbnail
    then withdraw env key (internal set_thumbnail) w
    else if any (is_ready_row j.media_id) w.db.media
    then (ok tt, record w { db = show_thumbnail key (env.now database_clock) j.media_id w.db })
    else withdraw env key media_disappeared w

unfoldable pub process : Env → Job → M (Unit {0})
unfolding run_ffmpeg publish
process env j = do
  attempt env presign_source
  attempt env temp_file
  attempt env close_temp
  lift (run_ffmpeg env j.media_type (env.source_url j.storage_key) env.temp_path)
  lift (check_output env.temp_size)
  call env put_thumbnail (put_file (thumbnail_key_of j))
  publish env j

-- The number of bytes of one character.
abbrev pub char_size : ℕ → ℕ
char_size c = if ltb c 0x80 then 1 else if ltb c 0x800 then 2 else if ltb c 0x10000 then 3 else 4

-- `message[:n]`: the whole characters of the first `n` bytes, and whether the cut falls between two
-- characters; PostgreSQL refuses a text that ends within one.
unfoldable pub cut : ℕ → Text → Text
cut n [] = []
cut n (c ∷ s) = let rest = cut (n - char_size c) s in if leb (char_size c) n then c ∷ rest else []

unfoldable pub cuts_clean : ℕ → Text → Bool
cuts_clean n [] = true
cuts_clean n (c ∷ s) =
    let rest = cuts_clean (n - char_size c) s in if leb (char_size c) n then rest else n == 0

abbrev pub is_working : ThumbnailStatus → Bool
is_working working = true
is_working _ = false

abbrev pub failed_with : Text → ℕ → MediaRow → MediaRow
failed_with message now m =
    if is_working m.thumbnail_status
    then record m {
      thumbnail_status = broken;
      thumbnail_error = some message;
      thumbnail_updated_at = now;
    }
    else m

unfoldable pub fail_job : Text → ℕ → ℕ → Db → Db
fail_job message now id db = record db {
  media = modify (λ m. m.id) id (failed_with message now) db.media;
}

unfoldable pub mark_failed : Env → ℕ → Error → M (Unit {0})
unfolding cut cuts_clean fail_job
mark_failed env id cause w =
    let message = env.error_text cause in
    if env.fails mark_broken || not (cuts_clean max_error_length message)
    then (err (internal mark_broken), w)
    else (
      ok tt,
      record w { db = fail_job (cut max_error_length message) (env.now database_clock) id w.db },
    )

abbrev pub recover : Env → ℕ → Result (Unit {0}) × World → Result (Unit {0}) × World
recover env id (ok u, w) = (ok u, w)
recover env id (err e, w) = ignore (mark_failed env id e) w

abbrev pub run_claimed : Env → Result (Option Job) × World → Result Bool × World
run_claimed env (err e, w) = (ok false, w)
run_claimed env (ok none, w) = (ok false, w)
run_claimed env (ok (some j), w) =
    let (_, w') = recover env j.media_id (process env j w) in (ok true, w')

-- One round of the loop of `runBatch`: whether it goes on.
unfoldable pub run_job : Env → M Bool
unfolding claim process mark_failed
run_job env w = run_claimed env (claim env w)

unfoldable pub run_batch : (ℕ → Env) → ℕ → M Bool
unfolding repeat run_job
run_batch = repeat run_job
