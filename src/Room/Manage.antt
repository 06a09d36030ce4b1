-- ===== src/Room/Manage.antt =====
-- `Update` and `Delete` of internal/room/service.go.
use zhyvo.Base.{
  ℕ, List, [], ◌∷◌, Option, none, some, Bool, true, false, ◌&&◌, ◌||◌, not, ltb, ◌==◌, any,
  if◌then◌else◌,
}
use zhyvo.Base.Table.{modify}
use zhyvo.Base.Text.{Text, text_eq, trim_space}
use zhyvo.Schema.{Db, RoomRow, Role, deleting, is_active, is_owner}
use zhyvo.Exec.{
  Env, M, pure, fail, lift, require, begin_tx, commit_tx, query, exec, query_db, exec_db, ◌>>=◌,
  ◌>>◌, lock_room, update_room, delete_room, get_room, invalid_input, not_found, owner_required,
  room_expired, room_clock,
}
use zhyvo.Room.Types.{UpdateInput, AccessUpdate, Room}
use zhyvo.Room.Validate.{validate_access, bad_name}
use zhyvo.Room.Slug.{normalize_slug}
use zhyvo.Room.Create.{hash_access}
use zhyvo.Room.Queries.{select_room, is_live, get}

abbrev pub has {ℓ} : {A : Type ℓ} → Option A → Bool
has none = false
has (some a) = true

abbrev pub check_name : Option Text → M (Option Text)
check_name none = pure none
check_name (some raw) = do
  require (not (bad_name (trim_space raw))) invalid_input
  pure (some (trim_space raw))

-- The mode and the hash that an update sets.
abbrev pub check_access : Env → Option AccessUpdate → M (Option (Text × Option Text))
check_access env none = pure none
check_access env (some a) = do
  lift (validate_access a.mode a.secret)
  hash ← hash_access env a.mode a.secret
  pure (some (a.mode, hash))

abbrev or_else {ℓ} : {A : Type ℓ} → Option A → A → A
or_else none old = old
or_else (some new) old = new

abbrev set_access : Option (Text × Option Text) → RoomRow → RoomRow
set_access none r = r
set_access (some (mode, hash)) r = record r { access_mode = mode; access_secret_hash = hash }

-- The row after the `CASE WHEN` assignments.
unfoldable pub updated : Option Text → Option Bool → Option (Text × Option Text) → RoomRow → RoomRow
updated name accepting access r = set_access access (record r {
  name = or_else name r.name;
  accepting_uploads = or_else accepting r.accepting_uploads;
})

unfoldable pub set_room : ℕ → Option Text → Option Bool → Option (Text × Option Text) → Db → Db
unfolding updated
set_room room_id name accepting access db = record db {
  rooms = modify (λ r. r.id) room_id (updated name accepting access) db.rooms;
}

abbrev pub update_owned :
    Env
    → Option Text
    → Option Bool
    → Option (Text × Option Text)
    → Option (RoomRow × Role)
    → M (Unit {0})
update_owned env name accepting access none = fail not_found
update_owned env name accepting access (some (r, role)) = do
  require (is_owner role) owner_required
  require (is_live env r) room_expired
  exec env update_room (λ _. false) (set_room r.id name accepting access)
  commit_tx env

-- The transaction of an update.
unfoldable pub update_locked :
    Env → ℕ → Text → Option Text → Option Bool → Option (Text × Option Text) → M (Unit {0})
unfolding set_room
update_locked env identity_id slug name accepting access = do
  begin_tx env
  row ← query env lock_room (select_room identity_id slug)
  update_owned env name accepting access row

unfoldable pub update : Env → ℕ → Text → UpdateInput → M Room
update env identity_id slug input = do
  require (has input.name || has input.accepting_uploads || has input.access) invalid_input
  name ← check_name input.name
  access ← check_access env input.access
  update_locked env identity_id slug name input.accepting_uploads access
  get env identity_id slug

abbrev pub is_scheduled : Text → ℕ → RoomRow → Bool
is_scheduled slug identity_id r =
    text_eq r.slug (normalize_slug slug) && r.owner_identity_id == identity_id && is_active r.status

unfoldable pub schedule_rows : Text → ℕ → List RoomRow → List RoomRow
schedule_rows slug identity_id [] = []
schedule_rows slug identity_id (r ∷ rows) =
    (if is_scheduled slug identity_id r
      then record r { status = deleting; accepting_uploads = false }
      else r)
    ∷ schedule_rows slug identity_id rows

unfoldable pub schedule : Text → ℕ → Db → Db
unfolding schedule_rows
schedule slug identity_id db = record db { rooms = schedule_rows slug identity_id db.rooms }

-- `UPDATE rooms SET status = 'deleting' …`, and whether it met a row; slugs are unique.
abbrev pub schedule_deletion : Env → ℕ → Text → M (Unit {0})
schedule_deletion env identity_id slug = do
  met ← query_db env delete_room (λ db. any (is_scheduled slug identity_id) db.rooms)
  exec_db env delete_room (schedule slug identity_id)
  require met not_found

abbrev pub delete_owned : Env → ℕ → Text → Option (RoomRow × Role) → M (Unit {0})
delete_owned env identity_id slug none = fail not_found
delete_owned env identity_id slug (some (r, role)) = do
  require (is_owner role) owner_required
  if not (is_active r.status) then pure tt else do
    require (ltb (env.now room_clock) r.expires_at) room_expired
    schedule_deletion env identity_id slug

unfoldable pub delete : Env → ℕ → Text → M (Unit {0})
unfolding schedule
delete env identity_id slug = do
  row ← query_db env get_room (select_room identity_id slug)
  delete_owned env identity_id slug row
