-- ===== src/Room/Join.antt =====
-- `Join` of internal/room/service.go.
use zhyvo.Base.{ℕ, List, [], ◌∷◌, Option, none, some, Bool, ◌&&◌, ◌==◌, any, if◌then◌else◌}
use zhyvo.Base.Text.{Text, codes, text_eq}
use zhyvo.Schema.{Db, RoomRow, MemberRow, member}
use zhyvo.Exec.{
  Env, M, pure, fail, require, query_db, exec_db, ◌>>=◌, ◌>>◌, internal, find_room, join_room,
  no_secret, verify, not_found, room_expired, access_denied, database_clock,
}
use zhyvo.Room.Types.{Room}
use zhyvo.Room.Password.{verify_secret}
use zhyvo.Room.Queries.{select_slug, is_live, get}

abbrev seen : ℕ → MemberRow → MemberRow
seen now a = record a { last_seen_at = now }

abbrev pub is_member_row : ℕ → ℕ → MemberRow → Bool
is_member_row room_id identity_id a = a.room_id == room_id && a.identity_id == identity_id

unfoldable pub see_member : ℕ → ℕ → ℕ → List MemberRow → List MemberRow
see_member now room_id identity_id [] = []
see_member now room_id identity_id (a ∷ rows) =
    (if is_member_row room_id identity_id a then seen now a else a)
    ∷ see_member now room_id identity_id rows

abbrev pub new_member : ℕ → ℕ → ℕ → MemberRow
new_member now room_id identity_id = record {
  room_id = room_id;
  identity_id = identity_id;
  role = member;
  joined_at = now;
  last_seen_at = now;
}

-- `INSERT INTO room_members … ON CONFLICT DO UPDATE SET last_seen_at = now()`.
unfoldable pub put_member : ℕ → ℕ → ℕ → Db → Db
unfolding see_member
put_member now room_id identity_id db = record db {
  members =
      if any (is_member_row room_id identity_id) db.members
      then see_member now room_id identity_id db.members
      else new_member now room_id identity_id ∷ db.members;
}

abbrev pub check_match : Option Bool → M (Unit {0})
check_match none = fail (internal verify)
check_match (some matches) = require matches access_denied

abbrev pub check_hash : Env → Text → Option Text → M (Unit {0})
check_hash env secret none = fail (internal no_secret)
check_hash env secret (some encoded) = check_match (verify_secret env.id_key encoded secret)

unfoldable pub check_secret : Env → Text → RoomRow → M (Unit {0})
check_secret env secret r =
    if text_eq r.access_mode (codes "public")
    then pure tt
    else check_hash env secret r.access_secret_hash

abbrev pub enter : Env → ℕ → Text → Text → Option RoomRow → M Room
enter env identity_id slug secret none = fail not_found
enter env identity_id slug secret (some r) = do
  require (is_live env r) room_expired
  check_secret env secret r
  exec_db env join_room (put_member (env.now database_clock) r.id identity_id)
  get env identity_id slug

unfoldable pub join : Env → ℕ → Text → Text → M Room
unfolding put_member check_secret
join env identity_id slug secret = do
  row ← query_db env find_room (select_slug slug)
  enter env identity_id slug secret row
