-- ===== src/Media/Initiate/Outcome.antt =====
-- What `Initiate` writes and returns.
use zhyvo.Base.{
  ℕ, ◌+◌, ◌*◌, ◌≤◌, ◌<◌, ◌≡◌, refl, ◌∙◌, inl, inr, Option, none, some, true, ==_refl, Option-cases,
  arith,
}
use zhyvo.Base.Table.{find, find_key}
use zhyvo.Base.Int.{pos_part}
use zhyvo.Base.Text.{Text}
use zhyvo.Schema.{Db, UploadRow, MediaType, ObjectKey, holds}
use zhyvo.Exec.{Env, World, M, Result, ok, ◌>>◌, bind_post}
use zhyvo.Media.Types.{Upload, InitiateInput, multipart_part_size}
use zhyvo.Media.Queries.{
  select_idempotent, attach_single_url, find_idempotent_upload, lock_room_for_upload,
}
use zhyvo.Media.Initiate.{
  Draft, draft_media, draft_session, add_media, add_session, reserve_room, draft_upload, object_key,
  write_draft, write_or_abort, start_large, draft_of, parts_of, unless_committed, create_upload,
  resume_upload,
}
use zhyvo.Media.Initiate.Sound.{drafted_db, unless_committed-db, attach_single_url-world}

-- The parts of a large upload are just enough: all but the last are full, and no part is empty.
pub parts_of_bounds :
    (size : ℕ)
    → 0 < size
    → (size ≤ parts_of size * multipart_part_size)
      × (parts_of size * multipart_part_size < size + multipart_part_size)
unfolding parts_of
parts_of_bounds size h = omega arith

-- A lookup with the same identity and key finds the session that was just written.
pub select_idempotent-drafted :
    (d : Draft) (db : Db)
    → select_idempotent d.identity_id d.key (drafted_db d db)
      ≡ some (draft_session d, draft_upload d)
unfolding select_idempotent add_media add_session reserve_room draft_session draft_media
    draft_upload find find_key
select_idempotent-drafted d db =
    ground (arith, ==_refl d.identity_id, ==_refl d.key, ==_refl d.media_id)

-- Two answers about one upload session; the presigned URL and the status may differ.
pub record SameSession (a b : Upload) : Type 0 where
  pub id : a.id ≡ b.id
  pub media_id : a.media_id ≡ b.media_id
  pub upload_type : a.upload_type ≡ b.upload_type
  pub storage_upload_id : a.storage_upload_id ≡ b.storage_upload_id
  pub parts_count : a.parts_count ≡ b.parts_count
  pub expires_at : a.expires_at ≡ b.expires_at
  pub object_key : a.object_key ≡ b.object_key
  pub size_bytes : a.size_bytes ≡ b.size_bytes

pub SameSession-trans : (a b c : Upload) → SameSession a b → SameSession b c → SameSession a c
SameSession-trans a b c p q = ground arith

pub SameSession-sym : (a b : Upload) → SameSession a b → SameSession b a
SameSession-sym a b p = ground arith

pub attach_single_url-SameSession :
    (env : Env) (upload answer : Upload) (w : World)
    → (attach_single_url env upload w).0 ≡ ok answer
    → SameSession upload answer
unfolding attach_single_url
attach_single_url-SameSession env upload answer w e = ground arith

-- The database has the session of `upload` under this key, for a request with this hash.
pub record Remembers (identity_id key hash : ℕ) (db : Db) (upload : Upload) : Type 0 where
  pub session : UploadRow
  pub stored : Upload
  pub selected : select_idempotent identity_id key db ≡ some (session, stored)
  pub hash_held : holds session.request_hash hash ≡ true
  pub same : SameSession stored upload

-- The form in which it passes through a block.
abbrev pub Recorded : ℕ → ℕ → ℕ → Result Upload → World → Type 0
Recorded identity_id key hash r w =
    (upload : Upload) → r ≡ ok upload → Remembers identity_id key hash w.db upload

write_draft-ok :
    (env : Env) (d : Draft) (w : World) (a : Unit {0})
    → (write_draft env d w).0 ≡ ok a
    → (write_draft env d w).1.db ≡ drafted_db d w.tx
unfolding write_draft
write_draft-ok env d w a e = ground arith

unless_committed-ok :
    (k : ObjectKey) (id : Option Text) (m : M (Unit {0})) (w : World) (a : Unit {0})
    → (unless_committed k id m w).0 ≡ ok a
    → (m w).0 ≡ ok a
unless_committed-ok k none m w a e = e
unless_committed-ok k (some id) m w a e = ground arith

write_or_abort-ok :
    (env : Env) (d : Draft) (w : World) (a : Unit {0})
    → (write_or_abort env d w).0 ≡ ok a
    → (write_or_abort env d w).1.db ≡ drafted_db d w.tx
unfolding write_or_abort
write_or_abort-ok env d w a e =
    let id = d.storage_upload_id in
    unless_committed-db (object_key d) id (write_draft env d) w
    ∙ write_draft-ok env d w a (unless_committed-ok (object_key d) id (write_draft env d) w a e)

pub drafted-Remembers :
    (d : Draft) (db : Db) (upload : Upload)
    → SameSession (draft_upload d) upload
    → Remembers d.identity_id d.key d.hash (drafted_db d db) upload
unfolding draft_session
drafted-Remembers d db upload same = record {
  session = draft_session d;
  stored = draft_upload d;
  selected = select_idempotent-drafted d db;
  hash_held = ==_refl d.hash;
  same = same;
}

module _ (env : Env) (identity_id key hash : ℕ) where
  -- What stands behind the lock, for one draft.
  reserve_rest : Draft → M Upload
  reserve_rest d = do
    start_large env d
    write_or_abort env d
    attach_single_url env (draft_upload d)

  attached :
      (d : Draft) (w : World)
      → d.identity_id ≡ identity_id
      → d.key ≡ key
      → d.hash ≡ hash
      → (db : Db) → w.db ≡ drafted_db d db
      → Recorded identity_id key hash
          (attach_single_url env (draft_upload d) w).0
          (attach_single_url env (draft_upload d) w).1
  attached d w i k h db written upload e =
      rw (← i, ← k, ← h, attach_single_url-world, written)
        (drafted-Remembers d db upload
          (attach_single_url-SameSession env (draft_upload d) upload w e))

  reserve_rest-Recorded :
      (d : Draft) (w : World)
      → d.identity_id ≡ identity_id
      → d.key ≡ key
      → d.hash ≡ hash
      → Recorded identity_id key hash (reserve_rest d w).0 (reserve_rest d w).1
  unfolding reserve_rest
  reserve_rest-Recorded d w i k h =
      bind_post (Recorded identity_id key hash) (start_large env d) _ w (λ e _ upload r. cc)
        (λ a _.
          bind_post (Recorded identity_id key hash) (write_or_abort env d) _ (start_large env d w).1
            (λ e _ upload r. cc)
            (λ b wrote.
              attached d (write_or_abort env d (start_large env d w).1).1 i k h
                (start_large env d w).1.tx
                (write_or_abort-ok env d (start_large env d w).1 b wrote)))

  pub create_upload-Recorded :
      (slug : Text) (t : MediaType) (input : InitiateInput) (w : World)
      → Recorded identity_id key hash
          (create_upload env identity_id key hash slug t input w).0
          (create_upload env identity_id key hash slug t input w).1
  unfolding create_upload reserve_rest draft_of
  create_upload-Recorded slug t input w =
      bind_post (Recorded identity_id key hash)
        (lock_room_for_upload env identity_id slug (pos_part input.size_bytes)) _ w
        (λ e _ upload r. cc)
        (λ r _.
          reserve_rest-Recorded (draft_of env identity_id key hash t input r)
            (lock_room_for_upload env identity_id slug (pos_part input.size_bytes) w).1 refl refl
            refl)

  -- An earlier session that the lookup returned.
  pub find_idempotent_upload-Remembers :
      (w : World) (existing : Upload)
      → (find_idempotent_upload env identity_id key hash w).0 ≡ ok (some existing)
      → Remembers identity_id key hash w.tx existing
  unfolding find_idempotent_upload
  find_idempotent_upload-Remembers w existing e =
      elim (Option-cases (select_idempotent identity_id key w.tx)) [
        | inl missing ↦ absurd (ground arith)
        | inr (found, selected) ↦ record {
          session = found.0;
          stored = found.1;
          selected = selected;
          hash_held = ground arith;
          same = ground arith;
        }
      ]

  pub resume_upload-SameSession :
      (existing answer : Upload) (w : World)
      → (resume_upload env existing w).0 ≡ ok answer
      → SameSession existing answer
  unfolding attach_single_url
  resume_upload-SameSession existing answer w e = ground arith
