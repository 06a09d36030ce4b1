-- ===== src/Room/Sound.antt =====
-- Joining, changing and deleting a room keep the counters true.
use zhyvo.Base.{
  ℕ, ◌≡◌, ◌≢◌, refl, sym, inl, inr, List, [], ◌∷◌, Option, none, some, Bool, false, All, Bool-cases,
  subst,
}
use zhyvo.Base.Table.{Distinct}
use zhyvo.Base.Table.Modify.{All-modify, Distinct-modify}
use zhyvo.Base.Text.{Text}
use zhyvo.Schema.{Db, RoomRow, MemberRow, MediaRow, deleting}
use zhyvo.Exec.{Env, World}
use zhyvo.Capacity.{IsSound, RoomFits}
use zhyvo.Room.Types.{UpdateInput}
use zhyvo.Room.Access.{join-Entered}
use zhyvo.Room.Owner.{update-Changed, delete-Scheduled}
use zhyvo.Room.Join.{join, put_member}
use zhyvo.Room.Manage.{update, updated, set_room, schedule, schedule_rows, is_scheduled, delete}

-- The counters do not depend on the members.
members-IsSound :
    (db : Db) (rows : List MemberRow) → IsSound db → IsSound (record db { members = rows })
members-IsSound db rows sound = record {
  room_ids = sound.room_ids;
  media_ids = sound.media_ids;
  upload_ids = sound.upload_ids;
  upload_media = sound.upload_media;
  rooms = sound.rooms;
  uploads = sound.uploads;
}

updated-RoomFits :
    (media : List MediaRow) (name : Option Text) (accepting : Option Bool)
    (access : Option (Text × Option Text)) (r : RoomRow)
    → RoomFits media r
    → RoomFits media (updated name accepting access r)
unfolding updated
updated-RoomFits media name accepting none r fits = record {
  reserved_files = fits.reserved_files;
  reserved_bytes = fits.reserved_bytes;
  used_files = fits.used_files;
  used_bytes = fits.used_bytes;
  files = fits.files;
  bytes = fits.bytes;
  max_files = fits.max_files;
  max_bytes = fits.max_bytes;
}
updated-RoomFits media name accepting (some (mode, hash)) r fits = record {
  reserved_files = fits.reserved_files;
  reserved_bytes = fits.reserved_bytes;
  used_files = fits.used_files;
  used_bytes = fits.used_bytes;
  files = fits.files;
  bytes = fits.bytes;
  max_files = fits.max_files;
  max_bytes = fits.max_bytes;
}

updated_id :
    (name : Option Text) (accepting : Option Bool) (access : Option (Text × Option Text))
    (r : RoomRow)
    → (updated name accepting access r).id ≡ r.id
unfolding updated
updated_id name accepting none r = refl
updated_id name accepting (some (mode, hash)) r = refl

set_room-IsSound :
    (room_id : ℕ) (name : Option Text) (accepting : Option Bool)
    (access : Option (Text × Option Text)) (db : Db)
    → IsSound db
    → IsSound (set_room room_id name accepting access db)
unfolding set_room
set_room-IsSound room_id name accepting access db sound = record {
  room_ids =
      Distinct-modify (λ r. r.id) room_id (updated name accepting access) (λ r. r.id) db.rooms
        (updated_id name accepting access) sound.room_ids;
  media_ids = sound.media_ids;
  upload_ids = sound.upload_ids;
  upload_media = sound.upload_media;
  rooms =
      All-modify (λ r. r.id) room_id (updated name accepting access) db.rooms
        (λ r _ fits. updated-RoomFits db.media name accepting access r fits) (λ r _ fits. fits)
        sound.rooms;
  uploads = sound.uploads;
}

schedule_rows-All :
    (P : RoomRow → Type 0) (slug : Text) (identity_id : ℕ) (rows : List RoomRow)
    → ((r : RoomRow) → P r → P (record r { status = deleting; accepting_uploads = false }))
    → All P rows
    → All P (schedule_rows slug identity_id rows)
unfolding schedule_rows
schedule_rows-All P slug identity_id [] keep h = tt
schedule_rows-All P slug identity_id (r ∷ rows) keep h = (
  elim (Bool-cases (is_scheduled slug identity_id r)) [
    | inl due ↦ rw due (keep r h.0)
    | inr other ↦ rw other h.0
  ],
  schedule_rows-All P slug identity_id rows keep h.1,
)

schedule_rows-Distinct :
    (slug : Text) (identity_id : ℕ) (rows : List RoomRow)
    → Distinct (λ r. r.id) rows
    → Distinct (λ r. r.id) (schedule_rows slug identity_id rows)
unfolding schedule_rows
schedule_rows-Distinct slug identity_id [] h = tt
schedule_rows-Distinct slug identity_id (r ∷ rows) h =
    let others = schedule_rows-All (λ q. q.id ≢ r.id) slug identity_id rows (λ q n. n) h.0 in
    let rest = schedule_rows-Distinct slug identity_id rows h.1 in
    elim (Bool-cases (is_scheduled slug identity_id r)) [
      | inl due ↦ rw due (others, rest)
      | inr other ↦ rw other (others, rest)
    ]

scheduled-RoomFits :
    (media : List MediaRow) (r : RoomRow)
    → RoomFits media r
    → RoomFits media (record r { status = deleting; accepting_uploads = false })
scheduled-RoomFits media r fits = record {
  reserved_files = fits.reserved_files;
  reserved_bytes = fits.reserved_bytes;
  used_files = fits.used_files;
  used_bytes = fits.used_bytes;
  files = fits.files;
  bytes = fits.bytes;
  max_files = fits.max_files;
  max_bytes = fits.max_bytes;
}

schedule-IsSound :
    (slug : Text) (identity_id : ℕ) (db : Db) → IsSound db → IsSound (schedule slug identity_id db)
unfolding schedule
schedule-IsSound slug identity_id db sound = record {
  room_ids = schedule_rows-Distinct slug identity_id db.rooms sound.room_ids;
  media_ids = sound.media_ids;
  upload_ids = sound.upload_ids;
  upload_media = sound.upload_media;
  rooms =
      schedule_rows-All (RoomFits db.media) slug identity_id db.rooms (scheduled-RoomFits db.media)
        sound.rooms;
  uploads = sound.uploads;
}

-- Joining a room keeps the counters of every room true.
pub join-IsSound :
    (env : Env) (identity_id : ℕ) (slug secret : Text) (w : World)
    → IsSound w.db
    → IsSound (join env identity_id slug secret w).1.db
unfolding put_member
join-IsSound env identity_id slug secret w sound =
    elim (join-Entered env identity_id slug secret w) [
      | inl same ↦ subst (λ v. IsSound v.db) (sym same) sound
      | inr (r, found, live, opens, written) ↦
          subst IsSound (sym written) (members-IsSound w.db _ sound)
    ]

-- Changing a room keeps the counters of every room true.
pub update-IsSound :
    (env : Env) (identity_id : ℕ) (slug : Text) (input : UpdateInput) (w : World)
    → IsSound w.db
    → IsSound (update env identity_id slug input w).1.db
update-IsSound env identity_id slug input w sound =
    elim (update-Changed env identity_id slug input w) [
      | inl same ↦ subst IsSound (sym same) sound
      | inr (r, role, name, access, found, own, live, written) ↦
          subst IsSound (sym written)
            (set_room-IsSound r.id name input.accepting_uploads access w.db sound)
    ]

-- Scheduling the deletion of a room keeps the counters of every room true.
pub delete_room-IsSound :
    (env : Env) (identity_id : ℕ) (slug : Text) (w : World)
    → IsSound w.db
    → IsSound (delete env identity_id slug w).1.db
delete_room-IsSound env identity_id slug w sound = elim (delete-Scheduled env identity_id slug w) [
  | inl same ↦ subst (λ v. IsSound v.db) (sym same) sound
  | inr (r, role, found, own, live, written) ↦
      subst IsSound (sym written) (schedule-IsSound slug identity_id w.db sound)
]
