-- ===== src/Tests/Rooms.antt =====
-- Rooms: the theorems at the sample room and at a new one.
use zhyvo.Base.{[], ◌≡◌, ◌⊎◌, refl, none, some, true, arith}
use zhyvo.Base.Int.{pos}
use zhyvo.Base.Text.{codes, text_eq, trim_space, to_lower}
use zhyvo.Schema.{RoomRow, Role, active, owner, is_owner}
use zhyvo.Exec.{Env, World, ok}
use zhyvo.Room.Types.{CreateInput, UpdateInput, Room}
use zhyvo.Room.Validate.{validate_access, validate_create, pin_pattern}
use zhyvo.Room.Slug.{new_slug}
use zhyvo.Room.Queries.{get, select_room, is_live}
use zhyvo.Room.Create.{create, reserve_key, insert_row, insert_attempts, finish_create, hash_access}
use zhyvo.Room.Create.Effect.{Created, create-Created}
use zhyvo.Room.Create.Sound.{begun}
use zhyvo.Room.Create.Repeat.{create_repeated, create-get}
use zhyvo.Room.Join.{join}
use zhyvo.Room.Manage.{update, schedule, delete}
use zhyvo.Room.Access.{Entered, join-Entered}
use zhyvo.Room.Owner.{Changed, update-Changed, delete-Scheduled}
use zhyvo.Tests.Sample.{calm, start}

abbrev pub party : CreateInput
party = record {
  name = codes " Party ";
  lifetime_days = pos 2;
  access_mode = codes "pin";
  secret = codes "1234";
}

abbrev new_room : Room
new_room = record {
  id = 2;
  slug = codes "2Z2A96";
  name = codes "Party";
  access_mode = codes "pin";
  role = owner;
  status = active;
  accepting_uploads = true;
  max_files = 1000;
  max_storage_bytes = 21474836480;
  used_files = 0;
  used_storage_bytes = 0;
  created_at = 100;
  expires_at = 172900;
}

made : (create calm 11 60 party start).0 ≡ ok new_room
unfolding create validate_create validate_access trim_space hash_access reserve_key insert_attempts
    insert_row finish_create new_slug text_eq pin_pattern
made = refl

abbrev after : World
after = (create calm 11 60 party start).1

abbrev later : Env
later = record calm { now = λ m. 5000; room_id = 9; slug_bytes = λ n. [] }

create-Created_example :
    Created calm 11 60 (record party { name = trim_space party.name }) new_room start.db after.db
create-Created_example = create-Created calm 11 60 party start new_room refl made

create_repeated_example : create later 11 60 party after ≡ (ok new_room, begun after)
create_repeated_example =
    create_repeated calm later 11 60 party start new_room refl made (λ s. refl) (λ t. refl)

create-get_example :
    (get later 11 (codes "2Z2A96") after ≡ (ok new_room, after))
    × (get later 11 (to_lower (codes "2Z2A96")) after ≡ (ok new_room, after))
create-get_example =
    create-get calm later 11 60 party start new_room refl made (λ s. refl) (omega arith)

join-Entered_example :
    ((join calm 12 (codes " abc234") [] start).1 ≡ start)
    ⊎ Entered calm 12 (codes " abc234") [] start.db (join calm 12 (codes " abc234") [] start).1.db
join-Entered_example = join-Entered calm 12 (codes " abc234") [] start

abbrev rename : UpdateInput
rename = record { name = some (codes "Alps"); accepting_uploads = none; access = none }

update-Changed_example :
    ((update calm 10 (codes "ABC234") rename start).1.db ≡ start.db)
    ⊎ Changed calm 10
        (codes "ABC234")
        none
        start.db
        (update calm 10 (codes "ABC234") rename start).1.db
update-Changed_example = update-Changed calm 10 (codes "ABC234") rename start

delete-Scheduled_example :
    ((delete calm 10 (codes "ABC234") start).1 ≡ start)
    ⊎ ((r : RoomRow) × (role : Role) × (select_room 10 (codes "ABC234") start.db ≡ some (r, role))
        × (is_owner role ≡ true)
        × (is_live calm r ≡ true)
        × ((delete calm 10 (codes "ABC234") start).1.db ≡ schedule (codes "ABC234") 10 start.db))
delete-Scheduled_example = delete-Scheduled calm 10 (codes "ABC234") start
