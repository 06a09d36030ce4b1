-- ===== src/Cleanup/Ends.antt =====
-- The loops of the worker end: each round takes an open session, or a room, away.
use zhyvo.Base.{
  ℕ, ◌+◌, ◌<◌, ◌≡◌, ◌≢◌, refl, ap, ◌∙◌, inl, inr, none, some, length, true, false, Option-cases,
  arith, if◌then◌else◌,
}
use zhyvo.Base.Table.{sum}
use zhyvo.Base.Table.Modify.{sum-modify}
use zhyvo.Schema.{Db, MediaRow, UploadRow, expired, is_open}
use zhyvo.Exec.{Env, World, ok, pure, bind_post}
use zhyvo.Capacity.{IsSound}
use zhyvo.Media.Release.{set_upload_status, drop_media, unreserve, unreserve_room, with_status}
use zhyvo.Cleanup.{
  ExpiredUpload, is_expired, select_expired, write_expired, claim_expired_upload, expire_found,
  expire_one, repeat, expire_uploads, delete_one, run_batch,
}
use zhyvo.Cleanup.Sound.{
  claim_expired-none, claim_expired-some, expired_db, Selects, select_expired-Selects,
  expire_found-db, expire_one-IsSound, repeat_keeps,
}
use zhyvo.Cleanup.Rooms.{delete_one-IsSound}
use zhyvo.Cleanup.Loops.{repeat_ends}
use zhyvo.Cleanup.Doomed.{length-modify, delete_one-lt}

abbrev open_weight : UploadRow → ℕ
open_weight u = if is_open u.status then 1 else 0

-- The number of upload sessions that are open.
unfoldable pub open_count : Db → ℕ
open_count db = sum open_weight db.uploads

expired_db-count :
    (env : Env) (u : UploadRow) (m : MediaRow) (db : Db)
    → IsSound db
    → Selects env db u m
    → open_count (expired_db env u m db) + 1 ≡ open_count db
unfolding open_count set_upload_status drop_media unreserve_room is_expired
expired_db-count env u m db sound selects =
    let opened : is_open u.status ≡ true = ground (arith, selects.expired) in
    let count =
      sum-modify (λ a. a.id) u.id (with_status expired) open_weight db.uploads u sound.upload_ids
        selects.session in
    ground (arith, count)

claim_expired-ok :
    (env : Env) (w : World) (u : UploadRow) (m : MediaRow) (e : ExpiredUpload)
    → select_expired env w.db ≡ some (u, m)
    → (claim_expired_upload env w).0 ≡ ok (some e)
    → (claim_expired_upload env w).1.db ≡ expired_db env u m w.db
unfolding claim_expired_upload write_expired
claim_expired-ok env w u m e selected done = ground arith

claim_expired-nothing :
    (env : Env) (w : World) (e : ExpiredUpload)
    → select_expired env w.db ≡ none
    → (claim_expired_upload env w).0 ≢ ok (some e)
unfolding claim_expired_upload
claim_expired-nothing env w e selected done = ground arith

claim_expired-count :
    (env : Env) (w : World) (e : ExpiredUpload)
    → IsSound w.db
    → (claim_expired_upload env w).0 ≡ ok (some e)
    → open_count (claim_expired_upload env w).1.db + 1 ≡ open_count w.db
claim_expired-count env w e sound done = elim (Option-cases (select_expired env w.db)) [
  | inl missing ↦ absurd (claim_expired-nothing env w e missing done)
  | inr (row, selected) ↦
      ap (λ db. open_count db + 1) (claim_expired-ok env w row.0 row.1 e selected done)
      ∙ expired_db-count env row.0 row.1 w.db sound
          (select_expired-Selects env w.db row.0 row.1 sound selected)
]

expire_one-count :
    (env : Env) (w : World)
    → IsSound w.db
    → (expire_one env w).0 ≡ ok true
    → open_count (expire_one env w).1.db < open_count w.db
unfolding expire_one
expire_one-count env w sound =
    bind_post (λ r w'. r ≡ ok true → open_count w'.db < open_count w.db) (claim_expired_upload env)
      (expire_found env) w (λ e _ q. cc)
      (λ found claimed.
        elim found
            as (λ o.
              (claim_expired_upload env w).0 ≡ ok o
              → (expire_found env o (claim_expired_upload env w).1).0 ≡ ok true
              → open_count (expire_found env o (claim_expired_upload env w).1).1.db
                < open_count w.db) [
                  | none ↦ λ c q. cc
                  | some u ↦ λ c q.
                      rw (expire_found-db env (some u))
                        (omega (arith, claim_expired-count env w u sound c))
                ]
          claimed)

length-expired_db :
    (env : Env) (u : UploadRow) (m : MediaRow) (db : Db)
    → length (expired_db env u m db).rooms ≡ length db.rooms
unfolding set_upload_status drop_media unreserve_room
length-expired_db env u m db = length-modify m.room_id (unreserve m.size_bytes) db.rooms

-- The first loop leaves the rooms there.
expire_one-rooms :
    (env : Env) (k : ℕ) (w : World)
    → length w.db.rooms ≡ k
    → length (expire_one env w).1.db.rooms ≡ k
unfolding expire_one
expire_one-rooms env k w e =
    bind_post (λ _ w'. length w'.db.rooms ≡ k) (claim_expired_upload env) (expire_found env) w
      (λ _ _. claimed) (λ found _. rw expire_found-db claimed)
  where
    claimed : length (claim_expired_upload env w).1.db.rooms ≡ k
    claimed = elim (Option-cases (select_expired env w.db)) [
      | inl missing ↦ rw (claim_expired-none env w missing) e
      | inr (row, selected) ↦ elim (claim_expired-some env w row.0 row.1 selected) [
        | inl same ↦ rw same e
        | inr done ↦ rw done (length-expired_db env row.0 row.1 w.db ∙ e)
      ]
    ]

-- In a sound database a batch ends by itself: with more rounds allowed than there are open
-- sessions, and than there are rooms, it never stops for want of rounds, whatever it meets.
pub run_batch_ends :
    (envs : ℕ → Env) (n : ℕ) (envs' : ℕ → Env) (n' : ℕ) (w : World)
    → IsSound w.db
    → open_count w.db < n
    → length w.db.rooms < n'
    → (run_batch envs n envs' n' w).0 ≢ ok true
unfolding run_batch expire_uploads
run_batch_ends envs n envs' n' w sound enough enough' =
    bind_post (λ r _. r ≢ ok true) (expire_uploads envs n) _ w (λ e _ q. cc)
      (λ more went.
        elim more
            as (λ b.
              (expire_uploads envs n w).0 ≡ ok b
              → ((if b then pure true else repeat delete_one envs' n')
                  (expire_uploads envs n w).1).0
                ≢ ok true) [
                  | true ↦ λ r. absurd (
                      repeat_ends (λ v. IsSound v.db) (λ env. Unit) (λ v. open_count v.db)
                        expire_one (λ env v _. expire_one-IsSound env v)
                        (λ env v _. expire_one-count env v) envs n w (λ k. tt) sound enough r)
                  | false ↦ λ r.
                      repeat_ends (λ v. IsSound v.db) (λ env. Unit) (λ v. length v.db.rooms)
                        delete_one (λ env v _. delete_one-IsSound env v)
                        (λ env v _. delete_one-lt env v) envs' n' (expire_uploads envs n w).1
                        (λ k. tt)
                        (repeat_keeps (λ v. IsSound v.db) expire_one expire_one-IsSound envs n w
                          sound)
                        (omega (
                          arith,
                          repeat_keeps (λ v. length v.db.rooms ≡ length w.db.rooms) expire_one
                              (λ env v. expire_one-rooms env (length w.db.rooms) v) envs n w refl,
                        ))
                ]
          went)
