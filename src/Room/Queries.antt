-- ===== src/Room/Queries.antt =====
-- The reads of internal/room/service.go: `Preview`, `Get`, `List` and `Members`.
pub mod Reads
use zhyvo.Base.{
  ℕ, List, [], ◌∷◌, Option, none, some, Bool, true, false, ◌&&◌, ◌||◌, not, ltb, ◌==◌, take,
  if◌then◌else◌,
}
use zhyvo.Base.Table.{find, find_key}
use zhyvo.Base.Order.{order_by}
use zhyvo.Base.Text.{Text, text_eq}
use zhyvo.Schema.{Db, RoomRow, MemberRow, IdentityRow, Role, is_active, is_owner}
use zhyvo.Exec.{
  Env, M, pure, fail, require, query_db, ◌>>=◌, ◌>>◌, find_room, get_room, room_exists, list_rooms,
  list_members, not_found, not_member, room_expired, owner_required, room_clock,
}
use zhyvo.Room.Slug.{normalize_slug}
use zhyvo.Room.Types.{Room, Preview, Member, scan_room, scan_preview, scan_member}

-- `rooms WHERE slug = …`, a unique column.
unfoldable pub select_slug : Text → Db → Option RoomRow
select_slug slug db = find (λ r. text_eq r.slug (normalize_slug slug)) db.rooms

abbrev pub member_of : ℕ → ℕ → Db → Option MemberRow
member_of identity_id room_id db =
    find (λ a. a.room_id == room_id && a.identity_id == identity_id) db.members

abbrev pub with_member : ℕ → Option RoomRow → Db → Option (RoomRow × Role)
with_member identity_id none db = none
with_member identity_id (some r) db = elim (member_of identity_id r.id db) [
  | none ↦ none
  | some a ↦ some (r, a.role)
]

-- `rooms r JOIN room_members rm`, for one identity.
unfoldable pub select_room : ℕ → Text → Db → Option (RoomRow × Role)
select_room identity_id slug db = with_member identity_id (select_slug slug db) db

-- `status == "active" && expiresAt.After(s.now())`.
abbrev pub is_live : Env → RoomRow → Bool
is_live env r = is_active r.status && ltb (env.now room_clock) r.expires_at

abbrev pub found_preview : Env → Option RoomRow → M Preview
found_preview env none = fail not_found
found_preview env (some r) = do require (is_live env r) room_expired; pure (scan_preview r)

unfoldable pub preview : Env → Text → M Preview
preview env slug = do row ← query_db env find_room (select_slug slug); found_preview env row

abbrev is_some : Option RoomRow → Bool
is_some none = false
is_some (some r) = true

abbrev pub get_missing : Env → Text → M Room
get_missing env slug = do
  exists ← query_db env room_exists (λ db. is_some (select_slug slug db))
  if exists then fail not_member else fail not_found

abbrev pub found_room : Env → Text → Option (RoomRow × Role) → M Room
found_room env slug none = get_missing env slug
found_room env slug (some (r, role)) = do
  require (is_live env r) room_expired
  pure (scan_room r role)

unfoldable pub get : Env → ℕ → Text → M Room
get env identity_id slug = do
  row ← query_db env get_room (select_room identity_id slug)
  found_room env slug row

-- `last_seen_at DESC, created_at DESC`.
abbrev pub seen_later : MemberRow × RoomRow → MemberRow × RoomRow → Bool
seen_later (a, r) (b, s) =
    ltb b.last_seen_at a.last_seen_at
    || (a.last_seen_at == b.last_seen_at && ltb s.created_at r.created_at)

abbrev join_room_row :
    Env → MemberRow → Option RoomRow → List (MemberRow × RoomRow) → List (MemberRow × RoomRow)
join_room_row env a none rest = rest
join_room_row env a (some r) rest = if is_live env r then (a, r) ∷ rest else rest

-- `room_members rm JOIN rooms r`, for the live rooms of an identity.
unfoldable pub join_rooms : Env → ℕ → List RoomRow → List MemberRow → List (MemberRow × RoomRow)
join_rooms env identity_id rooms [] = []
join_rooms env identity_id rooms (a ∷ members) =
    let rest = join_rooms env identity_id rooms members in
    if a.identity_id == identity_id
    then join_room_row env a (find_key (λ r. r.id) a.room_id rooms) rest
    else rest

abbrev scan_rooms : List (MemberRow × RoomRow) → List Room
scan_rooms [] = []
scan_rooms ((a, r) ∷ rows) = scan_room r a.role ∷ scan_rooms rows

unfoldable pub list : Env → ℕ → M (List Room)
unfolding join_rooms
list env identity_id = do
  rows ← query_db env list_rooms (λ db. join_rooms env identity_id db.rooms db.members)
  pure (scan_rooms (take 50 (order_by seen_later rows)))

-- The owner first, then by the time of joining.
abbrev pub joined_before : Member → Member → Bool
joined_before a b =
    (is_owner a.role && not (is_owner b.role))
    || (not (is_owner b.role && not (is_owner a.role)) && ltb a.joined_at b.joined_at)

abbrev join_identity : MemberRow → Option IdentityRow → List Member → List Member
join_identity a none rest = rest
join_identity a (some i) rest = scan_member a i ∷ rest

-- `room_members rm JOIN identities i`, for a room.
unfoldable pub join_members : ℕ → List IdentityRow → List MemberRow → List Member
join_members room_id identities [] = []
join_members room_id identities (a ∷ members) =
    let rest = join_members room_id identities members in
    if a.room_id == room_id
    then join_identity a (find_key (λ i. i.id) a.identity_id identities) rest
    else rest

abbrev pub members_of : Env → Room → M (List Member)
members_of env current = do
  require (is_owner current.role) owner_required
  rows ← query_db env list_members (λ db. join_members current.id db.identities db.members)
  pure (order_by joined_before rows)

unfoldable pub members : Env → ℕ → Text → M (List Member)
unfolding join_members
members env identity_id slug = do current ← get env identity_id slug; members_of env current
