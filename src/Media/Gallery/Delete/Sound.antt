-- ===== src/Media/Gallery/Delete/Sound.antt =====
-- A deletion keeps the counters true.
use zhyvo.Base.{
  ℕ, ◌≡◌, refl, sym, ◌⊎◌, inl, inr, Option, none, some, true, false, ◌&&◌, not, ◌==◌, Option-cases,
  Bool-cases, subst, arith,
}
use zhyvo.Base.Table.{find_key}
use zhyvo.Schema.{
  Db, RoomRow, MemberRow, MediaRow, ObjectKey, deleted, is_ready, is_failed, is_deleted, is_owner,
}
use zhyvo.Exec.{Env, World, call, remove, remove_object, get_media, bind_post, database_clock}
use zhyvo.Capacity.{IsSound}
use zhyvo.Capacity.Step.{Follows}
use zhyvo.Capacity.Change.{Includes, media_changed-IsSound, media_counted-IsSound}
use zhyvo.Media.Release.{drop_media, dropped}
use zhyvo.Media.Release.Sound.{Keeps-dropped}
use zhyvo.Media.Gallery.Delete.{
  select_locked, discount, discount_room, write_delete, commit_delete, remove_media,
  remove_thumbnail_of, delete_authorized, delete, select_authorized,
}

abbrev now_deleted : Env → ℕ → Db → Db
now_deleted env media_id = drop_media (env.now database_clock) media_id deleted

write_delete-ready :
    (env : Env) (media_id room_id : ℕ) (m : MediaRow) (w : World)
    → is_ready m.status ≡ true
    → ((write_delete env media_id room_id m w).1.db ≡ w.db)
      ⊎ ((write_delete env media_id room_id m w).1.db
          ≡ discount_room room_id m.size_bytes (now_deleted env media_id w.tx))
write_delete-ready env media_id room_id m w e = ground arith

write_delete-failed :
    (env : Env) (media_id room_id : ℕ) (m : MediaRow) (w : World)
    → is_ready m.status ≡ false
    → ((write_delete env media_id room_id m w).1.db ≡ w.db)
      ⊎ ((write_delete env media_id room_id m w).1.db ≡ now_deleted env media_id w.tx)
write_delete-failed env media_id room_id m w e = ground arith

module _ (env : Env) (media_id room_id : ℕ) (w : World) where
  commit_delete-none :
      select_locked media_id room_id w.db ≡ none
      → (commit_delete env media_id room_id w).1.db ≡ w.db
  unfolding commit_delete
  commit_delete-none e = ground arith

  commit_delete-ready :
      (m : MediaRow)
      → select_locked media_id room_id w.db ≡ some m
      → is_ready m.status ≡ true
      → ((commit_delete env media_id room_id w).1.db ≡ w.db)
        ⊎ ((commit_delete env media_id room_id w).1.db
            ≡ discount_room room_id m.size_bytes (now_deleted env media_id w.db))
  unfolding commit_delete
  commit_delete-ready m e r = ground arith

  commit_delete-other :
      (m : MediaRow)
      → select_locked media_id room_id w.db ≡ some m
      → is_ready m.status ≡ false
      → ((commit_delete env media_id room_id w).1.db ≡ w.db)
        ⊎ ((is_failed m.status ≡ true)
            × ((commit_delete env media_id room_id w).1.db ≡ now_deleted env media_id w.db))
  unfolding commit_delete
  commit_delete-other m e r = ground arith

-- The locked row is the row of the media, and lies in the room.
select_locked-found :
    (media_id room_id : ℕ) (db : Db) (m : MediaRow)
    → select_locked media_id room_id db ≡ some m
    → (find_key (λ a. a.id) media_id db.media ≡ some m) × (m.room_id ≡ room_id)
unfolding select_locked
select_locked-found media_id room_id db m e =
    elim (Option-cases (find_key (λ a. a.id) media_id db.media)) [
      | inl missing ↦ absurd (ground arith)
      | inr (a, found) ↦ ground arith
    ]

Follows-discount :
    (m : MediaRow) (r : RoomRow)
    → is_ready m.status ≡ true
    → Includes m r
    → Follows m deleted r (discount m.size_bytes r)
Follows-discount m r ready includes = ground arith

Follows-failed : (m : MediaRow) (r : RoomRow) → is_failed m.status ≡ true → Follows m deleted r r
Follows-failed m r failed = ground arith

-- In whatever state it starts, the transaction that ends a deletion keeps the counters of every
-- room true: a ready file leaves the used ones, a failed one was in none.
pub commit_delete-IsSound :
    (env : Env) (media_id room_id : ℕ) (w : World)
    → IsSound w.db
    → IsSound (commit_delete env media_id room_id w).1.db
unfolding drop_media discount_room
commit_delete-IsSound env media_id room_id w sound =
    elim (Option-cases (select_locked media_id room_id w.db)) [
      | inl missing ↦ subst IsSound (sym (commit_delete-none env media_id room_id w missing)) sound
      | inr (m, e) ↦
          let (row, here) = select_locked-found media_id room_id w.db m e in
          let clock = env.now database_clock in
          elim (Bool-cases (is_ready m.status)) [
            | inl ready ↦ elim (commit_delete-ready env media_id room_id w m e ready) [
              | inl same ↦ subst IsSound (sym same) sound
              | inr done ↦
                  rw (done, ← here)
                    (media_counted-IsSound w.db media_id (dropped clock deleted) deleted m sound row
                      (Keeps-dropped clock deleted) (ground arith) (discount m.size_bytes)
                      (λ r. refl) (λ r includes. Follows-discount m r ready includes))
            ]
            | inr other ↦ elim (commit_delete-other env media_id room_id w m e other) [
              | inl same ↦ subst IsSound (sym same) sound
              | inr (failed, done) ↦ rw done (
                  media_changed-IsSound w.db media_id (dropped clock deleted) deleted m sound row
                    (Keeps-dropped clock deleted) (ground arith) (λ r. Follows-failed m r failed))
            ]
          ]
    ]

remove_thumbnail-db :
    (env : Env) (key : Option ObjectKey) (w : World) → (remove_thumbnail_of env key w).1.db ≡ w.db
remove_thumbnail-db env none w = refl
remove_thumbnail-db env (some key) w = refl

remove_media-IsSound :
    (env : Env) (media_id : ℕ) (m : MediaRow) (w : World)
    → IsSound w.db
    → IsSound (remove_media env media_id m w).1.db
remove_media-IsSound env media_id m w sound =
    let removed = (call env remove (remove_object m.storage_key) w).1 in
    bind_post (λ _ w'. IsSound w'.db) (call env remove (remove_object m.storage_key)) _ w
      (λ _ _. sound)
      (λ _ _.
        let cleared = subst IsSound (sym (remove_thumbnail-db env m.thumbnail_key removed)) sound in
        bind_post (λ _ w'. IsSound w'.db) (remove_thumbnail_of env m.thumbnail_key) _ removed
          (λ _ _. cleared)
          (λ _ _.
            commit_delete-IsSound env media_id m.room_id
              (remove_thumbnail_of env m.thumbnail_key removed).1 cleared))

delete_authorized-IsSound :
    (env : Env) (identity_id media_id : ℕ) (row : Option (MediaRow × MemberRow)) (w : World)
    → IsSound w.db
    → IsSound (delete_authorized env identity_id media_id row w).1.db
delete_authorized-IsSound env identity_id media_id none w sound = sound
delete_authorized-IsSound env identity_id media_id (some (m, a)) w sound =
    elim (Bool-cases (not (is_owner a.role) && not (m.uploader_identity_id == identity_id))) [
      | inl stranger ↦ rw stranger sound
      | inr allowed ↦ elim (Bool-cases (is_deleted m.status)) [
        | inl gone ↦ rw (allowed, gone) sound
        | inr there ↦ elim (Bool-cases (not (is_ready m.status) && not (is_failed m.status))) [
          | inl early ↦ rw (allowed, there, early) sound
          | inr due ↦ rw (allowed, there, due) (remove_media-IsSound env media_id m w sound)
        ]
      ]
    ]

-- Deleting a file keeps the counters of every room true, on every path.
pub delete-IsSound :
    (env : Env) (identity_id media_id : ℕ) (w : World)
    → IsSound w.db
    → IsSound (delete env identity_id media_id w).1.db
unfolding delete
delete-IsSound env identity_id media_id w sound = elim (Bool-cases (env.fails get_media)) [
  | inl broken ↦ rw broken sound
  | inr works ↦ rw works (
      delete_authorized-IsSound env identity_id media_id
        (select_authorized identity_id media_id w.db) w sound)
]
