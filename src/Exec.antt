-- ===== src/Exec.antt =====
-- How the services run: statements on PostgreSQL, transactions and calls of the object store.
--
-- An action takes the world and returns a result and the world it leaves. `db` is the committed
-- state, `tx` the working copy of the open transaction: `begin_tx` copies, `commit_tx` writes back,
-- and a handler that returns before its commit leaves `db` alone, as `defer tx.Rollback` does.
pub mod Reads
use zhyvo.Base.{ℕ, List, ◌∷◌, ◌≡◌, refl, ◌⊎◌, inl, inr, Option, Bool, if◌then◌else◌}
use zhyvo.Base.Int.{ℤ}
use zhyvo.Base.Text.{Text}
use zhyvo.Schema.{Db, ObjectKey}

-- A statement or step that can fail on its own, by the wrap that its error gets.
pub data Stage : Type 0 where
  begin commit lock_key find_upload lock_room room_exists insert_media insert_upload : Stage
  reserve_capacity get_upload mark_uploading lock_upload complete_upload mark_ready : Stage
  settle_capacity set_upload set_media release_capacity membership get_media lock_media : Stage
  delete_media uncount claim_upload claim_room delete_room presign start multipart_abort : Stage
  multipart_complete stat remove insert_request insert_member finish_request : Stage
  get_room update_room read_request remove_thumbnail no_upload_id no_secret verify : Stage
  find_room join_room list_rooms list_members make_salt unique_slug : Stage
  make_token create_identity create_session find_session rotate get_identity revoke : Stage
  check_session sign claim_thumbnail mark_working presign_source temp_file close_temp : Stage
  put_thumbnail set_thumbnail mark_broken ping find_bucket : Stage
  insert_room random : ℕ → Stage

-- The errors of packages `media`, `room`, `auth` and `thumbnail`; `internal` is a failure of the database or
-- of the object store, `violation` a constraint of the schema that a statement broke.
pub data Error : Type 0 where
  invalid_input room_not_found room_expired not_member uploads_closed room_limit_reached : Error
  upload_not_found upload_expired upload_completed upload_not_ready media_not_ready : Error
  media_not_found media_access_denied invalid_upload_parts uploaded_size_mismatch : Error
  idempotency_conflict not_found access_denied owner_required : Error
  invalid_refresh_token identity_missing no_thumbnail media_disappeared : Error
  ffmpeg_failed : Text → Error
  internal violation : Stage → Error

pub data Result {ℓ} (A : Type ℓ) : Type ℓ where
  ok : A → Result A
  err : Error → Result A

-- `CompletedPart` of both `media` and `objectstore`.
pub record CompletedPart : Type 0 where
  pub part_number : ℤ
  pub etag : Text

-- A change of the bucket; reads and presigning leave it alone.
pub data StoreCall : Type 0 where
  start_multipart : ObjectKey → StoreCall
  complete_multipart : ObjectKey → Text → List CompletedPart → StoreCall
  abort_multipart : ObjectKey → Text → StoreCall
  remove_object : ObjectKey → StoreCall
  put_file : ObjectKey → StoreCall
  remove_room : ℕ → StoreCall

-- What `Stat` answers.
pub data ObjectInfo : Type 0 where
  size_of : ℕ → ObjectInfo
  object_missing stat_failed : ObjectInfo

-- The readings of a clock in one request, in the order in which they can be taken.
pub data Moment : Type 0 where
  service_clock room_clock url_clock database_clock : Moment

-- What one request meets: which statements and calls fail, the clocks, fresh identifiers, and the
-- answers of the object store, of PostgreSQL's functions and of the hash functions. `locked` are the
-- identifiers of rows that other transactions hold, which SKIP LOCKED passes over; `slug_bytes` are the random bytes of each
-- attempt at a room's slug, and `id_key` is `argon2.IDKey`. `ffmpeg` answers a command with `none`, or
-- with its output when it fails; `error_text` is the text of an error.
pub record Env : Type 0 where
  pub fails : Stage → Bool
  pub now : Moment → ℕ
  pub media_id : ℕ
  pub upload_id : ℕ
  pub storage_upload_id : Text
  pub put_url : ObjectKey → Text → ℕ → Text × ℕ
  pub part_url : ObjectKey → Text → ℤ → ℕ → Option (Text × ℕ)
  pub get_url : ObjectKey → Text → Text × ℕ
  pub first_stat : ObjectInfo
  pub last_stat : ObjectInfo
  pub sql_upper_trim : Text → Text
  pub sha256 : Text → ℕ
  pub format_time : ℕ → Text
  pub locked : ℕ → Bool
  pub room_id : ℕ
  pub slug_bytes : ℕ → List ℕ
  pub salt : List ℕ
  pub id_key : Text → List ℕ → ℕ → ℕ → ℕ → ℕ → List ℕ
  pub refresh_bytes : List ℕ
  pub identity_id : ℕ
  pub session_id : ℕ
  pub token_id : Text
  pub source_url : ObjectKey → Text
  pub temp_path : Text
  pub ffmpeg : List Text → Option Text
  pub temp_size : Option ℕ
  pub error_text : Error → Text

-- The calls stand newest first.
pub record World : Type 0 where
  pub db : Db
  pub tx : Db
  pub calls : List StoreCall

abbrev pub M : Type 0 → Type 0
M A = World → Result A × World

abbrev pub pure : {A : Type 0} → A → M A
pure a w = (ok a, w)

abbrev pub fail : {A : Type 0} → Error → M A
fail e w = (err e, w)

abbrev pub lift : {A : Type 0} → Result A → M A
lift r w = (r, w)

abbrev pub resume : {A B : Type 0} → Result A → (A → M B) → M B
resume (ok a) f w = f a w
resume (err e) f w = (err e, w)

infixl 5 ◌>>=◌ ◌>>◌
abbrev pub ◌>>=◌ : {A B : Type 0} → M A → (A → M B) → M B
◌>>=◌ m f w = let (r, w') = m w in resume r f w'

abbrev pub ◌>>◌ : {B : Type 0} → M (Unit {0}) → M B → M B
m >> k = m >>= λ _. k

-- `return err` under a test that is not met.
abbrev pub require : Bool → Error → M (Unit {0})
require b e w = ((if b then ok tt else err e), w)

-- A step that may fail on its own and changes nothing.
abbrev pub attempt : Env → Stage → M (Unit {0})
attempt env s w = ((if env.fails s then err (internal s) else ok tt), w)

abbrev pub begin_tx : Env → M (Unit {0})
begin_tx env w =
    if env.fails begin then (err (internal begin), w) else (ok tt, record w { tx = w.db })

abbrev pub commit_tx : Env → M (Unit {0})
commit_tx env w =
    if env.fails commit then (err (internal commit), w) else (ok tt, record w { db = w.tx })

-- A statement of the open transaction that reads.
abbrev pub query : {A : Type 0} → Env → Stage → (Db → A) → M A
query env s f w = ((if env.fails s then err (internal s) else ok (f w.tx)), w)

-- A statement of the open transaction that writes, unless it breaks a constraint.
abbrev pub exec : Env → Stage → (Db → Bool) → (Db → Db) → M (Unit {0})
exec env s broken f w =
    if env.fails s
    then (err (internal s), w)
    else if broken w.tx
    then (err (violation s), w)
    else (ok tt, record w { tx = f w.tx })

-- Statements outside a transaction: each is one of its own.
abbrev pub query_db : {A : Type 0} → Env → Stage → (Db → A) → M A
query_db env s f w = ((if env.fails s then err (internal s) else ok (f w.db)), w)

abbrev pub exec_db : Env → Stage → (Db → Db) → M (Unit {0})
exec_db env s f w = if env.fails s then (err (internal s), w) else (ok tt, record w { db = f w.db })

-- A call that changes the bucket is recorded, also when it reports an error.
abbrev pub call : Env → Stage → StoreCall → M (Unit {0})
call env s c w =
    ((if env.fails s then err (internal s) else ok tt), record w { calls = c ∷ w.calls })

-- `_ = f()`: the result is dropped.
abbrev pub ignore : M (Unit {0}) → M (Unit {0})
ignore m w = let (_, w') = m w in (ok tt, w')

pub Result-cases {ℓ} :
    {A : Type ℓ} (r : Result A) → ((e : Error) × (r ≡ err e)) ⊎ ((a : A) × (r ≡ ok a))
Result-cases (ok a) = inr (a, refl)
Result-cases (err e) = inl (e, refl)

resume_post {ℓ} :
    {A B : Type 0} (P : Result B → World → Type ℓ) (r : Result A) (f : A → M B) (w : World)
    → ((e : Error) → r ≡ err e → P (err e) w)
    → ((a : A) → r ≡ ok a → P (f a w).0 (f a w).1)
    → P (resume r f w).0 (resume r f w).1
resume_post P (ok a) f w failed done = done a refl
resume_post P (err e) f w failed done = failed e refl

-- What holds of the result and the world after a block: it holds where the first step fails, and
-- after the rest where that succeeds.
pub bind_post {ℓ} :
    {A B : Type 0} (P : Result B → World → Type ℓ) (m : M A) (f : A → M B) (w : World)
    → ((e : Error) → (m w).0 ≡ err e → P (err e) (m w).1)
    → ((a : A) → (m w).0 ≡ ok a → P (f a (m w).1).0 (f a (m w).1).1)
    → P ((m >>= f) w).0 ((m >>= f) w).1
bind_post P m f w failed done = resume_post P (m w).0 f (m w).1 failed done
