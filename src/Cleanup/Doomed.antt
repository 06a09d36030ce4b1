-- ===== src/Cleanup/Doomed.antt =====
-- A round of the loop over the rooms takes one away.
use zhyvo.Base.{
  ℕ, ◌≤◌, ◌<◌, ◌≡◌, ◌≢◌, refl, inl, inr, Option, none, some, List, [], ◌∷◌, length, true, ◌==◌, any,
  Option-cases, arith,
}
use zhyvo.Base.Table.{find_key, modify, delete}
use zhyvo.Base.Table.Least.{least-find_key}
use zhyvo.Schema.{Db, RoomRow}
use zhyvo.Exec.{Env, World, ok}
use zhyvo.Capacity.{IsSound}
use zhyvo.Cleanup.{
  doom, doom_found, is_doomed, select_doomed, claim_doomed, cascade, drop_room, delete_one,
  is_doomed_row,
}

pub length-modify :
    (id : ℕ) (f : RoomRow → RoomRow) (rooms : List RoomRow)
    → length (modify (λ r. r.id) id f rooms) ≡ length rooms
unfolding modify
length-modify id f [] = refl
length-modify id f (r ∷ rooms) = omega (arith, length-modify id f rooms)

length-doom_found :
    (r : Option RoomRow) (db : Db) → length (doom_found r db).rooms ≡ length db.rooms
length-doom_found none db = refl
length-doom_found (some r) db = length-modify r.id doom db.rooms

length-delete-le :
    (id : ℕ) (rooms : List RoomRow) → length (delete (λ r. r.id == id) rooms) ≤ length rooms
unfolding delete
length-delete-le id [] = omega arith
length-delete-le id (r ∷ rooms) = ground (arith, length-delete-le id rooms)

-- The deletion of a claimed room takes at least one row away.
length-delete-lt :
    (id : ℕ) (rooms : List RoomRow)
    → any (is_doomed_row id) rooms ≡ true
    → length (delete (λ r. r.id == id) rooms) < length rooms
unfolding delete
length-delete-lt id [] h = cc
length-delete-lt id (r ∷ rooms) h =
    ground (arith, length-delete-lt id rooms, length-delete-le id rooms)

-- The room that was claimed is marked.
any-doomed :
    (id : ℕ) (r : RoomRow) (rooms : List RoomRow)
    → find_key (λ a. a.id) id rooms ≡ some r
    → any (is_doomed_row id) (modify (λ a. a.id) id doom rooms) ≡ true
unfolding modify find_key
any-doomed id r [] e = cc
any-doomed id r (a ∷ rooms) e = ground (arith, any-doomed id r rooms)

select_doomed-find_key :
    (env : Env) (db : Db) (r : RoomRow)
    → IsSound db
    → select_doomed env db ≡ some r
    → find_key (λ a. a.id) r.id db.rooms ≡ some r
unfolding select_doomed
select_doomed-find_key env db r sound e =
    least-find_key (λ a. a.id) (is_doomed env) (λ a. a.expires_at) db.rooms r sound.room_ids e

drop_room-lt :
    (id : ℕ) (db : Db)
    → any (is_doomed_row id) db.rooms ≡ true
    → length (drop_room id db).rooms < length db.rooms
unfolding drop_room cascade
drop_room-lt id db h = rw h (length-delete-lt id db.rooms h)

-- One round over the rooms, for the room that the claim finds.
delete_one-doomed :
    (env : Env) (w : World) (r : RoomRow)
    → IsSound w.db
    → select_doomed env w.db ≡ some r
    → (delete_one env w).0 ≡ ok true
    → (delete_one env w).1.db ≡ drop_room r.id (doom_found (some r) w.db)
unfolding delete_one claim_doomed
delete_one-doomed env w r sound selected done = ground arith

delete_one-nothing :
    (env : Env) (w : World) → select_doomed env w.db ≡ none → (delete_one env w).0 ≢ ok true
unfolding delete_one claim_doomed
delete_one-nothing env w selected done = ground arith

pub delete_one-lt :
    (env : Env) (w : World)
    → IsSound w.db
    → (delete_one env w).0 ≡ ok true
    → length (delete_one env w).1.db.rooms < length w.db.rooms
delete_one-lt env w sound done = elim (Option-cases (select_doomed env w.db)) [
  | inl missing ↦ absurd (delete_one-nothing env w missing done)
  | inr (r, selected) ↦
      let marked =
        any-doomed r.id r w.db.rooms (select_doomed-find_key env w.db r sound selected) in
      let fewer = drop_room-lt r.id (doom_found (some r) w.db) marked in
      rw (delete_one-doomed env w r sound selected done)
        (omega (arith, fewer, length-doom_found (some r) w.db))
]
