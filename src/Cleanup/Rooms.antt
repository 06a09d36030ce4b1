-- ===== src/Cleanup/Rooms.antt =====
-- The deletion of a room by the worker keeps the counters true.
use zhyvo.Base.{
  ℕ, ◌≡◌, ◌≢◌, refl, sym, ◌∙◌, inl, inr, Option, none, some, List, Bool, true, false, ◌==◌, ==_iff,
  any, All-map, All-zip, Bool-cases, arith,
}
use zhyvo.Base.Table.{sum, delete}
use zhyvo.Base.Table.Modify.{All-modify, Distinct-modify}
use zhyvo.Base.Table.Delete.{All-delete, Distinct-delete, delete_rest, sum-delete, find_key-delete}
use zhyvo.Schema.{Db, RoomRow, MediaRow, UploadRow, MediaStatus}
use zhyvo.Exec.{Env, World, bind_post}
use zhyvo.Capacity.{RoomFits, UploadFits, IsSound, weight}
use zhyvo.Cleanup.{
  doom, doom_found, select_doomed, claim_doomed, lies_in, cascade, drop_room, delete_found,
  delete_one, is_doomed_row,
}

-- A claim of a room changes nothing that the counters stand for.
RoomFits-doom : (media : List MediaRow) (r : RoomRow) → RoomFits media r → RoomFits media (doom r)
RoomFits-doom media r fits = record {
  reserved_files = fits.reserved_files;
  reserved_bytes = fits.reserved_bytes;
  used_files = fits.used_files;
  used_bytes = fits.used_bytes;
  files = fits.files;
  bytes = fits.bytes;
  max_files = fits.max_files;
  max_bytes = fits.max_bytes;
}

doom_found-IsSound : (r : Option RoomRow) (db : Db) → IsSound db → IsSound (doom_found r db)
doom_found-IsSound none db sound = sound
doom_found-IsSound (some r) db sound = record {
  room_ids = Distinct-modify (λ a. a.id) r.id doom (λ a. a.id) db.rooms (λ a. refl) sound.room_ids;
  media_ids = sound.media_ids;
  upload_ids = sound.upload_ids;
  upload_media = sound.upload_media;
  rooms =
      All-modify (λ a. a.id) r.id doom db.rooms (λ a _ fits. RoomFits-doom db.media a fits)
        (λ a _ fits. fits) sound.rooms;
  uploads = sound.uploads;
}

pub claim_doomed-IsSound :
    (env : Env) (w : World) → IsSound w.db → IsSound (claim_doomed env w).1.db
unfolding claim_doomed
claim_doomed-IsSound env w sound =
    ground (arith, doom_found-IsSound (select_doomed env w.db) w.db sound)

-- The media of another room are not touched.
weight_away :
    (counts : MediaStatus → Bool) (amount : MediaRow → ℕ) (id room_id : ℕ) (m : MediaRow)
    → room_id ≢ id
    → (m.room_id == id) ≡ true
    → weight counts amount room_id m ≡ 0
weight_away counts amount id room_id m away h = ground arith

RoomFits-cascade :
    (media : List MediaRow) (id : ℕ) (r : RoomRow)
    → r.id ≢ id
    → RoomFits media r
    → RoomFits (delete (λ m. m.room_id == id) media) r
RoomFits-cascade media id r away fits = record {
  reserved_files = fits.reserved_files ∙ sym (kept _ _);
  reserved_bytes = fits.reserved_bytes ∙ sym (kept _ _);
  used_files = fits.used_files ∙ sym (kept _ _);
  used_bytes = fits.used_bytes ∙ sym (kept _ _);
  files = fits.files;
  bytes = fits.bytes;
  max_files = fits.max_files;
  max_bytes = fits.max_bytes;
}
  where
    kept :
        (counts : MediaStatus → Bool) (amount : MediaRow → ℕ)
        → sum (weight counts amount r.id) (delete (λ m. m.room_id == id) media)
          ≡ sum (weight counts amount r.id) media
    kept counts amount =
        sum-delete (λ m. m.room_id == id) (weight counts amount r.id) media
          (λ m h. weight_away counts amount id r.id m away h)

UploadFits-cascade :
    (db : Db) (id : ℕ) (u : UploadRow)
    → lies_in db id u ≡ false
    → UploadFits db.media u
    → UploadFits (delete (λ m. m.room_id == id) db.media) u
UploadFits-cascade db id u outside (m, row, opens) = (
  m,
  find_key-delete (λ a. a.room_id == id) (λ a. a.id) u.media_id db.media m row (ground arith),
  opens,
)

cascade-IsSound : (id : ℕ) (db : Db) → IsSound db → IsSound (cascade id db)
unfolding cascade
cascade-IsSound id db sound = record {
  room_ids = Distinct-delete (λ r. r.id == id) (λ r. r.id) db.rooms sound.room_ids;
  media_ids = Distinct-delete (λ m. m.room_id == id) (λ m. m.id) db.media sound.media_ids;
  upload_ids = Distinct-delete (lies_in db id) (λ u. u.id) db.uploads sound.upload_ids;
  upload_media = Distinct-delete (lies_in db id) (λ u. u.media_id) db.uploads sound.upload_media;
  rooms =
      All-map (delete (λ r. r.id == id) db.rooms)
        (λ r p. RoomFits-cascade db.media id r (λ e. cc ((==_iff r.id id).1 e, p.0)) p.1)
        (All-zip (λ r. (r.id == id) ≡ false) (RoomFits db.media) (delete (λ r. r.id == id) db.rooms)
          (delete_rest (λ r. r.id == id) db.rooms)
          (All-delete (λ r. r.id == id) (RoomFits db.media) db.rooms sound.rooms));
  uploads =
      All-map (delete (lies_in db id) db.uploads) (λ u p. UploadFits-cascade db id u p.0 p.1)
        (All-zip (λ u. lies_in db id u ≡ false) (UploadFits db.media)
          (delete (lies_in db id) db.uploads) (delete_rest (lies_in db id) db.uploads)
          (All-delete (lies_in db id) (UploadFits db.media) db.uploads sound.uploads));
}

drop_room-IsSound : (id : ℕ) (db : Db) → IsSound db → IsSound (drop_room id db)
unfolding drop_room
drop_room-IsSound id db sound = elim (Bool-cases (any (is_doomed_row id) db.rooms)) [
  | inl t ↦ rw t (cascade-IsSound id db sound)
  | inr n ↦ rw n sound
]

delete_found-IsSound :
    (env : Env) (found : Option ℕ) (w : World)
    → IsSound w.db
    → IsSound (delete_found env found w).1.db
delete_found-IsSound env none w sound = sound
delete_found-IsSound env (some id) w sound = ground (arith, drop_room-IsSound id w.db sound)

pub delete_one-IsSound : (env : Env) (w : World) → IsSound w.db → IsSound (delete_one env w).1.db
unfolding delete_one
delete_one-IsSound env w sound =
    bind_post (λ _ w'. IsSound w'.db) (claim_doomed env) (delete_found env) w
      (λ _ _. claim_doomed-IsSound env w sound)
      (λ found _.
        delete_found-IsSound env found (claim_doomed env w).1 (claim_doomed-IsSound env w sound))
