-- ===== src/Media/Initiate/Sound.antt =====
-- `Initiate` keeps the counters true, and reserves only what the room has left.
use zhyvo.Base.{
  ℕ, List, [], ◌∷◌, ◌≡◌, refl, sym, ◌⊎◌, inl, inr, Option, none, some, false, ◌&&◌, ◌==◌, any, All,
  subst, arith,
}
use zhyvo.Base.Int.{pos_part}
use zhyvo.Base.Text.{Text}
use zhyvo.Schema.{Db, RoomRow, MediaType, ObjectKey}
use zhyvo.Exec.{Env, World, M, ok, lift, begin_tx, attempt, lock_key, ◌>>◌, bind_post}
use zhyvo.Capacity.{IsSound}
use zhyvo.Capacity.Insert.{Grows, inserted-IsSound}
use zhyvo.Media.Types.{Upload, InitiateInput}
use zhyvo.Media.Validate.{validate_initiate}
use zhyvo.Media.Validate.Canonical.{hash_initiate_input}
use zhyvo.Media.Queries.{find_idempotent_upload, lock_room_for_upload, attach_single_url}
use zhyvo.Media.Initiate.{
  Draft, draft_media, draft_session, media_refused, add_media, session_refused, add_session,
  reserve, is_over_limit, reserve_refused, reserve_room, write_draft, write_or_abort,
  unless_committed, object_key, draft_of, draft_upload, start_large, create_upload, resume_upload,
  create_or_resume, initiate,
}

-- The database after the three writes.
abbrev pub drafted_db : Draft → Db → Db
drafted_db d db = reserve_room d.room_id d.size (add_session d (add_media d db))

-- None of the three writes met a constraint.
pub record IsAccepted (d : Draft) (db : Db) : Type 0 where
  pub media : media_refused d db ≡ false
  pub session : session_refused d (add_media d db) ≡ false
  pub room : reserve_refused d.room_id d.size (add_session d (add_media d db)) ≡ false

write_draft-db :
    (env : Env) (d : Draft) (w : World)
    → ((write_draft env d w).1.db ≡ w.db)
      ⊎ (IsAccepted d w.tx × ((write_draft env d w).1.db ≡ drafted_db d w.tx))
unfolding write_draft
write_draft-db env d w = ground arith

-- The room's own check of the totals, row by row.
Grows-rooms :
    (d : Draft) (rooms : List RoomRow)
    → any (λ r. r.id == d.room_id && is_over_limit (reserve d.size r)) rooms ≡ false
    → All (λ r. r.id ≡ d.room_id → Grows (draft_media d) r (reserve d.size r)) rooms
unfolding draft_media
Grows-rooms d [] h = tt
Grows-rooms d (r ∷ rooms) h = ((λ here. ground arith), Grows-rooms d rooms (ground arith))

drafted_db-IsSound :
    (d : Draft) (db : Db) → IsSound db → IsAccepted d db → IsSound (drafted_db d db)
unfolding draft_media draft_session media_refused session_refused reserve_refused add_media
    add_session reserve_room
drafted_db-IsSound d db sound accepted =
    inserted-IsSound db (draft_session d) (draft_media d) (reserve d.size) sound
      (ground (arith, accepted.media)) (ground (arith, accepted.session))
      (ground (arith, accepted.session)) refl refl refl (λ r. refl)
      (Grows-rooms d db.rooms accepted.room)

pub unless_committed-db :
    (k : ObjectKey) (id : Option Text) (m : M (Unit {0})) (w : World)
    → (unless_committed k id m w).1.db ≡ (m w).1.db
unless_committed-db k none m w = refl
unless_committed-db k (some id) m w = ground arith

-- The state of a transaction that has written nothing.
abbrev pub IsUnwritten : World → Type 0
IsUnwritten w = w.tx ≡ w.db

write_or_abort-IsSound :
    (env : Env) (d : Draft) (w : World)
    → IsUnwritten w
    → IsSound w.db
    → IsSound (write_or_abort env d w).1.db
unfolding write_or_abort
write_or_abort-IsSound env d w unwritten sound =
    subst IsSound
      (sym (unless_committed-db (object_key d) d.storage_upload_id (write_draft env d) w))
      (elim (write_draft-db env d w) [
        | inl same ↦ subst IsSound (sym same) sound
        | inr (accepted, done) ↦
            subst IsSound (sym done)
              (drafted_db-IsSound d w.tx (subst IsSound (sym unwritten) sound) accepted)
      ])

pub attach_single_url-world :
    (env : Env) (upload : Upload) (w : World) → (attach_single_url env upload w).1 ≡ w
unfolding attach_single_url
attach_single_url-world env upload w = ground arith

pub lock_room-world :
    (env : Env) (identity_id : ℕ) (slug : Text) (size : ℕ) (w : World)
    → (lock_room_for_upload env identity_id slug size w).1 ≡ w
unfolding lock_room_for_upload
lock_room-world env identity_id slug size w = ground arith

pub find_idempotent_upload-world :
    (env : Env) (identity_id key hash : ℕ) (w : World)
    → (find_idempotent_upload env identity_id key hash w).1 ≡ w
unfolding find_idempotent_upload
find_idempotent_upload-world env identity_id key hash w = ground arith

pub start_large-db : (env : Env) (d : Draft) (w : World) → (start_large env d w).1.db ≡ w.db
unfolding start_large
start_large-db env d w = ground arith

pub start_large-IsUnwritten :
    (env : Env) (d : Draft) (w : World) → IsUnwritten w → IsUnwritten (start_large env d w).1
unfolding start_large
start_large-IsUnwritten env d w h = ground arith

create_upload-IsSound :
    (env : Env) (identity_id key hash : ℕ) (slug : Text) (t : MediaType) (input : InitiateInput)
    (w : World)
    → IsUnwritten w
    → IsSound w.db
    → IsSound (create_upload env identity_id key hash slug t input w).1.db
unfolding create_upload
create_upload-IsSound env identity_id key hash slug t input w unwritten sound =
    let size = pos_part input.size_bytes in
    bind_post (λ _ w'. IsSound w'.db) (lock_room_for_upload env identity_id slug size) _ w
      (λ e _. rw lock_room-world sound)
      (λ r _. rw lock_room-world (rest (draft_of env identity_id key hash t input r)))
  where
    started : (d : Draft) → IsSound (start_large env d w).1.db
    started d = rw start_large-db sound

    rest :
        (d : Draft)
        → IsSound
            ((do start_large env d; write_or_abort env d; attach_single_url env (draft_upload d))
              w).1.db
    rest d =
        bind_post (λ _ w'. IsSound w'.db) (start_large env d)
          (λ _. do write_or_abort env d; attach_single_url env (draft_upload d)) w
          (λ _ _. started d)
          (λ _ _.
            bind_post (λ _ w'. IsSound w'.db) (write_or_abort env d)
              (λ _. attach_single_url env (draft_upload d)) (start_large env d w).1
              (λ _ _. written d) (λ _ _. rw attach_single_url-world (written d)))
      where
        written : (d : Draft) → IsSound (write_or_abort env d (start_large env d w).1).1.db
        written d =
            write_or_abort-IsSound env d (start_large env d w).1
              (start_large-IsUnwritten env d w unwritten) (started d)

pub resume_upload-db :
    (env : Env) (existing : Upload) (w : World)
    → IsUnwritten w
    → (resume_upload env existing w).1.db ≡ w.db
unfolding attach_single_url
resume_upload-db env existing w unwritten = ground arith

create_or_resume-IsSound :
    (env : Env) (identity_id key hash : ℕ) (slug : Text) (t : MediaType) (input : InitiateInput)
    (existing : Option Upload) (w : World)
    → IsUnwritten w
    → IsSound w.db
    → IsSound (create_or_resume env identity_id key hash slug t input existing w).1.db
create_or_resume-IsSound env identity_id key hash slug t input none w unwritten sound =
    create_upload-IsSound env identity_id key hash slug t input w unwritten sound
create_or_resume-IsSound env identity_id key hash slug t input (some existing) w unwritten sound =
    subst IsSound (sym (resume_upload-db env existing w unwritten)) sound

pub begin_tx-IsUnwritten :
    (env : Env) (w : World) (a : Unit {0})
    → (begin_tx env w).0 ≡ ok a
    → IsUnwritten (begin_tx env w).1
begin_tx-IsUnwritten env w a e = ground arith

pub begin_tx-db : (env : Env) (w : World) → (begin_tx env w).1.db ≡ w.db
begin_tx-db env w = ground arith

-- Starting an upload keeps the counters of every room true and within its limits, on every path:
-- a refused or repeated request, a full room, a constraint that is met, a failure at any step.
pub initiate-IsSound :
    (env : Env) (identity_id key : ℕ) (slug : Text) (raw : InitiateInput) (w : World)
    → IsSound w.db
    → IsSound (initiate env identity_id key slug raw w).1.db
unfolding initiate
initiate-IsSound env identity_id key slug raw w sound =
    bind_post (λ _ w'. IsSound w'.db) (lift (validate_initiate raw)) _ w (λ _ _. sound)
      (λ valid _.
        let hash = hash_initiate_input env slug valid.1 in
        let begun = subst IsSound (sym (begin_tx-db env w)) sound in
        bind_post (λ _ w'. IsSound w'.db) (begin_tx env) _ w (λ _ _. begun)
          (λ a started.
            let w' = (begin_tx env w).1 in
            bind_post (λ _ w''. IsSound w''.db) (attempt env lock_key) _ w' (λ _ _. begun)
              (λ _ _.
                bind_post (λ _ w''. IsSound w''.db)
                  (find_idempotent_upload env identity_id key hash) _ w'
                  (λ _ _. rw find_idempotent_upload-world begun)
                  (λ existing _. rw find_idempotent_upload-world (
                    create_or_resume-IsSound env identity_id key hash slug valid.0 valid.1 existing
                      w' (begin_tx-IsUnwritten env w a started) begun)))))
