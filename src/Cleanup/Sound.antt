-- ===== src/Cleanup/Sound.antt =====
-- The worker keeps the counters true.
use zhyvo.Base.{
  ℕ, zero, suc, ◌≡◌, refl, sym, ap, ◌∙◌, ◌⊎◌, inl, inr, Option, none, some, Bool, true, false,
  Option-cases, Bool-cases, subst, arith,
}
use zhyvo.Base.Table.{find_key, least}
use zhyvo.Base.Table.Find.{find_key-All, find_key-key}
use zhyvo.Base.Table.Least.{least-test, least-find_key}
use zhyvo.Schema.{Db, MediaRow, UploadRow, failed, expired, is_open, is_pending}
use zhyvo.Exec.{Env, World, M, bind_post, database_clock}
use zhyvo.Capacity.{UploadFits, IsSound}
use zhyvo.Capacity.Change.{changed, changed-IsSound}
use zhyvo.Media.Release.{
  set_upload_status, drop_media, unreserve, unreserve_room, with_status, dropped,
}
use zhyvo.Media.Release.Sound.{Follows-unreserve, Keeps-dropped, Ends-with_status}
use zhyvo.Cleanup.{
  ExpiredUpload, is_expired, select_expired, write_expired, claim_expired_upload, discard_expired,
  open_multipart, expire_found, expire_one, while_more, repeat, expire_uploads, delete_one,
  run_batch,
}
use zhyvo.Base.Text.{Text}
use zhyvo.Cleanup.Rooms.{delete_one-IsSound}

-- The database after the three updates of `claimExpiredUpload`.
abbrev pub expired_db : Env → UploadRow → MediaRow → Db → Db
expired_db env u m db =
    unreserve_room m.room_id m.size_bytes
      (drop_media (env.now database_clock) m.id failed (set_upload_status u.id expired db))

write_expired-db :
    (env : Env) (u : UploadRow) (m : MediaRow) (w : World)
    → ((write_expired env u m w).1.db ≡ w.db)
      ⊎ ((write_expired env u m w).1.db ≡ expired_db env u m w.tx)
unfolding write_expired
write_expired-db env u m w = ground arith

module _ (env : Env) (w : World) where
  pub claim_expired-none : select_expired env w.db ≡ none → (claim_expired_upload env w).1.db ≡ w.db
  unfolding claim_expired_upload
  claim_expired-none e = ground arith

  pub claim_expired-some :
      (u : UploadRow) (m : MediaRow)
      → select_expired env w.db ≡ some (u, m)
      → ((claim_expired_upload env w).1.db ≡ w.db)
        ⊎ ((claim_expired_upload env w).1.db ≡ expired_db env u m w.db)
  unfolding claim_expired_upload
  claim_expired-some u m e = ground (arith, write_expired-db env u m (record w { tx = w.db }))

-- The rows that the query returns.
pub record Selects (env : Env) (db : Db) (u : UploadRow) (m : MediaRow) : Type 0 where
  pub session : find_key (λ a. a.id) u.id db.uploads ≡ some u
  pub joined : find_key (λ a. a.id) u.media_id db.media ≡ some m
  pub expired : is_expired env db u ≡ true

pub select_expired-Selects :
    (env : Env) (db : Db) (u : UploadRow) (m : MediaRow)
    → IsSound db
    → select_expired env db ≡ some (u, m)
    → Selects env db u m
unfolding select_expired
select_expired-Selects env db u m sound e =
    elim (Option-cases (least (is_expired env db) (λ a. a.expires_at) db.uploads)) [
      | inl missing ↦ absurd (ground arith)
      | inr (v, found) ↦ elim (Option-cases (find_key (λ a. a.id) v.media_id db.media)) [
        | inl missing ↦ absurd (ground arith)
        | inr (n, row) ↦
            let same : v ≡ u = ground arith in
            let same' : n ≡ m = ground arith in
            record {
              session =
                  least-find_key (λ a. a.id) (is_expired env db) (λ a. a.expires_at) db.uploads u
                    sound.upload_ids (found ∙ ap some same);
              joined = ground arith;
              expired =
                  least-test (is_expired env db) (λ a. a.expires_at) db.uploads u
                    (found ∙ ap some same);
            }
      ]
    ]

pub expired_db-IsSound :
    (env : Env) (db : Db) (u : UploadRow) (m : MediaRow)
    → IsSound db
    → Selects env db u m
    → IsSound (expired_db env u m db)
unfolding set_upload_status drop_media unreserve_room is_expired
expired_db-IsSound env db u m sound selects =
    let clock = env.now database_clock in
    let (m', row, opens) =
      find_key-All (UploadFits db.media) (λ a. a.id) u.id db.uploads sound.uploads
        selects.session in
    let key = find_key-key (λ a. a.id) u.media_id db.media selects.joined in
    let opened : is_open u.status ≡ true = ground (arith, selects.expired) in
    let pending : is_pending m.status ≡ true = ground (arith, row, selects.joined) in
    subst
      (λ k. IsSound (
        changed db u.id (with_status expired) k (dropped clock failed) m.room_id
          (unreserve m.size_bytes)))
      (sym key)
      (changed-IsSound db u.id (with_status expired) expired u (dropped clock failed) failed m
        (unreserve m.size_bytes) sound selects.session selects.joined (Ends-with_status expired)
        (Keeps-dropped clock failed) (λ r. refl)
        (λ r here fits includes.
          Follows-unreserve m m.size_bytes r failed refl refl pending includes)
        refl)

pub claim_expired-IsSound :
    (env : Env) (w : World) → IsSound w.db → IsSound (claim_expired_upload env w).1.db
claim_expired-IsSound env w sound = elim (Option-cases (select_expired env w.db)) [
  | inl missing ↦ subst IsSound (sym (claim_expired-none env w missing)) sound
  | inr (row, e) ↦ elim (claim_expired-some env w row.0 row.1 e) [
    | inl same ↦ subst IsSound (sym same) sound
    | inr done ↦ subst IsSound (sym done) (
        expired_db-IsSound env w.db row.0 row.1 sound
          (select_expired-Selects env w.db row.0 row.1 sound e))
  ]
]

discard_expired-db :
    (env : Env) (u : ExpiredUpload) (id : Option Text) (w : World)
    → (discard_expired env u id w).1.db ≡ w.db
discard_expired-db env u none w = refl
discard_expired-db env u (some id) w = refl

pub expire_found-db :
    (env : Env) (found : Option ExpiredUpload) (w : World) → (expire_found env found w).1.db ≡ w.db
expire_found-db env none w = refl
expire_found-db env (some u) w =
    bind_post (λ _ w'. w'.db ≡ w.db) (discard_expired env u (open_multipart u)) _ w
      (λ _ _. discard_expired-db env u (open_multipart u) w)
      (λ _ _. discard_expired-db env u (open_multipart u) w)

pub expire_one-IsSound : (env : Env) (w : World) → IsSound w.db → IsSound (expire_one env w).1.db
unfolding expire_one
expire_one-IsSound env w sound =
    bind_post (λ _ w'. IsSound w'.db) (claim_expired_upload env) (expire_found env) w
      (λ _ _. claim_expired-IsSound env w sound)
      (λ found _.
        subst IsSound (sym (expire_found-db env found (claim_expired_upload env w).1))
          (claim_expired-IsSound env w sound))

-- A loop keeps what each of its rounds keeps.
pub repeat_keeps :
    (P : World → Type 0) (step : Env → M Bool)
    → ((env : Env) (w : World) → P w → P (step env w).1)
    → (envs : ℕ → Env) (n : ℕ) (w : World) → P w
    → P (repeat step envs n w).1
unfolding repeat
repeat_keeps P step keep envs zero w h = h
repeat_keeps P step keep envs (suc n) w h =
    bind_post (λ _ w'. P w') (step (envs n)) (while_more (repeat step envs n)) w
      (λ _ _. keep (envs n) w h)
      (λ more _. elim more as (λ b. P (while_more (repeat step envs n) b (step (envs n) w).1).1) [
        | true ↦ repeat_keeps P step keep envs n (step (envs n) w).1 (keep (envs n) w h)
        | false ↦ keep (envs n) w h
      ])

-- A batch of the worker keeps the counters of every room true: whatever it finds expired or doomed,
-- however many rounds it makes, and wherever the database or the object store fails.
pub run_batch-IsSound :
    (envs : ℕ → Env) (n : ℕ) (envs' : ℕ → Env) (n' : ℕ) (w : World)
    → IsSound w.db
    → IsSound (run_batch envs n envs' n' w).1.db
unfolding run_batch expire_uploads
run_batch-IsSound envs n envs' n' w sound =
    bind_post (λ _ w'. IsSound w'.db) (expire_uploads envs n) _ w (λ _ _. first)
      (λ more _. elim (Bool-cases more) [
        | inl t ↦ rw t first
        | inr f ↦ rw f (
            repeat_keeps (λ w'. IsSound w'.db) delete_one delete_one-IsSound envs' n'
              (expire_uploads envs n w).1 first)
      ])
  where
    first : IsSound (expire_uploads envs n w).1.db
    first = repeat_keeps (λ w'. IsSound w'.db) expire_one expire_one-IsSound envs n w sound
