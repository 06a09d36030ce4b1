-- ===== src/Room/Create.antt =====
-- `Create` of internal/room/service.go, with `insertRoom` and `existingIdempotentRoom`.
pub mod Attempts
pub mod Effect
pub mod Sound
pub mod Repeat
use zhyvo.Base.{
  ℕ, zero, suc, ◌+◌, ◌-◌, ◌*◌, List, [], ◌∷◌, Option, none, some, Bool, true, false, ◌&&◌, ◌||◌,
  not, ltb, ◌==◌, any, if◌then◌else◌,
}
use zhyvo.Base.Int.{pos_part}
use zhyvo.Base.Table.{find, find_key}
use zhyvo.Base.Text.{Text, codes, text_eq, trim_space}
use zhyvo.Schema.{Db, RoomRow, MemberRow, RequestRow, Role, active, owner}
use zhyvo.Exec.{
  Env, World, M, Error, Stage, Result, ok, err, pure, fail, lift, require, attempt, begin_tx,
  commit_tx, query, exec, ◌>>=◌, ◌>>◌, internal, violation, insert_request, insert_room,
  insert_member, finish_request, read_request, get_room, make_salt, unique_slug, random,
  idempotency_conflict, room_clock,
}
use zhyvo.Room.Types.{CreateInput, Room, scan_room}
use zhyvo.Room.Validate.{validate_create, hash_create_input}
use zhyvo.Room.Slug.{new_slug}
use zhyvo.Room.Password.{hash_secret}
use zhyvo.Room.Queries.{with_member}

abbrev day : ℕ
day = 24 * 60 * 60

-- `hashSecret`, unless the room is public.
unfoldable pub hash_access : Env → Text → Text → M (Option Text)
hash_access env mode secret =
    if text_eq mode (codes "public")
    then pure none
    else do attempt env make_salt; pure (some (hash_secret env.id_key env.salt secret))

abbrev pub same_request : ℕ → ℕ → RequestRow → Bool
same_request identity_id key q = q.identity_id == identity_id && q.idempotency_key == key

-- `INSERT INTO room_creation_requests … ON CONFLICT DO NOTHING`: whether a row went in.
unfoldable pub reserve_key : Env → ℕ → ℕ → ℕ → M Bool
reserve_key env owner_id key hash w =
    if env.fails insert_request
    then (err (internal insert_request), w)
    else if any (same_request owner_id key) w.tx.requests
    then (ok false, w)
    else (
      ok true,
      record w {
        tx = record (w.tx) {
          requests =
              record {
                identity_id = owner_id;
                idempotency_key = key;
                request_hash = hash;
                room_id = none;
              }
              ∷ w.tx.requests;
        };
      },
    )

abbrev pub draft_room : Env → Text → ℕ → CreateInput → Option Text → RoomRow
draft_room env slug owner_id input secret_hash = record {
  id = env.room_id;
  slug = slug;
  name = input.name;
  owner_identity_id = owner_id;
  access_mode = input.access_mode;
  access_secret_hash = secret_hash;
  status = active;
  accepting_uploads = true;
  max_files = 1000;
  max_storage_bytes = 21474836480;
  used_files = 0;
  used_storage_bytes = 0;
  reserved_files = 0;
  reserved_storage_bytes = 0;
  created_at = env.now room_clock;
  expires_at = env.now room_clock + pos_part input.lifetime_days * day;
}

-- `INSERT INTO rooms … ON CONFLICT (slug) DO NOTHING RETURNING …`; no row for a slug that is taken.
unfoldable pub insert_row : Env → ℕ → RoomRow → M (Option Room)
insert_row env n r w =
    if env.fails (insert_room n)
    then (err (internal (insert_room n)), w)
    else if any (λ q. text_eq q.slug r.slug) w.tx.rooms
    then (ok none, w)
    else if any (λ q. q.id == r.id) w.tx.rooms
    then (err (violation (insert_room n)), w)
    else (ok (some (scan_room r owner)), record w { tx = record (w.tx) { rooms = r ∷ w.tx.rooms } })

abbrev pub unless_inserted : M Room → Option Room → M Room
unless_inserted next none = next
unless_inserted next (some created) = pure created

-- The loop over the slugs, `left` attempts before the end of it.
unfoldable pub insert_attempts : Env → ℕ → CreateInput → Option Text → ℕ → M Room
unfolding insert_row
insert_attempts env owner_id input secret_hash zero = fail (internal unique_slug)
insert_attempts env owner_id input secret_hash (suc left) =
    let next = insert_attempts env owner_id input secret_hash left in
    let n = 7 - left in
    do
      attempt env (random n)
      inserted ←
          insert_row env n (draft_room env (new_slug (env.slug_bytes n)) owner_id input secret_hash)
      unless_inserted next inserted

abbrev pub owner_member : Env → ℕ → ℕ → MemberRow
owner_member env room_id owner_id = record {
  room_id = room_id;
  identity_id = owner_id;
  role = owner;
  joined_at = env.now room_clock;
  last_seen_at = env.now room_clock;
}

abbrev pub add_member : MemberRow → Db → Db
add_member a db = record db { members = a ∷ db.members }

abbrev pub set_request_room : ℕ → ℕ → ℕ → List RequestRow → List RequestRow
set_request_room owner_id key room_id [] = []
set_request_room owner_id key room_id (q ∷ qs) =
    (if same_request owner_id key q then record q { room_id = some room_id } else q)
    ∷ set_request_room owner_id key room_id qs

abbrev pub finish : ℕ → ℕ → ℕ → Db → Db
finish owner_id key room_id db = record db {
  requests = set_request_room owner_id key room_id db.requests;
}

abbrev pub member_exists : ℕ → ℕ → Db → Bool
member_exists room_id identity_id db =
    any (λ a. a.room_id == room_id && a.identity_id == identity_id) db.members

-- The owner's membership, the request's room, and the commit.
unfoldable pub finish_create : Env → ℕ → ℕ → Room → M Room
finish_create env owner_id key created = do
  exec env insert_member (member_exists created.id owner_id)
      (add_member (owner_member env created.id owner_id))
  exec env finish_request (λ _. false) (finish owner_id key created.id)
  commit_tx env
  pure created

-- `rooms r JOIN room_members rm WHERE r.id = …`; a request whose room is NULL reads as the zero
-- identifier, which no row has.
unfoldable pub select_by_id : ℕ → Option ℕ → Db → Option (RoomRow × Role)
select_by_id identity_id none db = none
select_by_id identity_id (some room_id) db =
    with_member identity_id (find_key (λ r. r.id) room_id db.rooms) db

abbrev existing_row : Option (RoomRow × Role) → M Room
existing_row none = fail (internal get_room)
existing_row (some (r, role)) = pure (scan_room r role)

abbrev existing_request : Env → ℕ → ℕ → Option RequestRow → M Room
existing_request env identity_id expected none = fail (internal read_request)
existing_request env identity_id expected (some q) = do
  require (q.request_hash == expected) idempotency_conflict
  row ← query env get_room (select_by_id identity_id q.room_id)
  existing_row row

unfoldable pub existing_idempotent_room : Env → ℕ → ℕ → ℕ → M Room
unfolding select_by_id
existing_idempotent_room env identity_id key expected = do
  row ← query env read_request (λ db. find (same_request identity_id key) db.requests)
  existing_request env identity_id expected row

abbrev pub reuse_room : Env → ℕ → ℕ → ℕ → M Room
reuse_room env owner_id key hash = do
  existing ← existing_idempotent_room env owner_id key hash
  commit_tx env
  pure existing

abbrev pub create_new : Env → ℕ → ℕ → CreateInput → Option Text → M Room
create_new env owner_id key input secret_hash = do
  created ← insert_attempts env owner_id input secret_hash 8
  finish_create env owner_id key created

unfoldable pub create : Env → ℕ → ℕ → CreateInput → M Room
create env owner_id key raw = do
  let input = record raw { name = trim_space raw.name }
  lift (validate_create input)
  let hash = hash_create_input env input
  secret_hash ← hash_access env input.access_mode input.secret
  begin_tx env
  reserved ← reserve_key env owner_id key hash
  if reserved
      then create_new env owner_id key input secret_hash
      else reuse_room env owner_id key hash
