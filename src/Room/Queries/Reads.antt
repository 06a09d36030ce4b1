-- ===== src/Room/Queries/Reads.antt =====
-- The queries of rooms write nothing.
use zhyvo.Base.{ℕ, none, some, Option, arith}
use zhyvo.Base.Text.{Text}
use zhyvo.Schema.{RoomRow, Role}
use zhyvo.Exec.{Env}
use zhyvo.Exec.Reads.{Reads, bind-Reads}
use zhyvo.Room.Queries.{preview, get, list, members, found_room, members_of}

pub preview-Reads : (env : Env) (slug : Text) → Reads (preview env slug)
unfolding preview
preview-Reads env slug w = ground arith

found_room-Reads :
    (env : Env) (slug : Text) (o : Option (RoomRow × Role)) → Reads (found_room env slug o)
found_room-Reads env slug none w = ground arith
found_room-Reads env slug (some (r, role)) w = ground arith

pub get-Reads : (env : Env) (identity_id : ℕ) (slug : Text) → Reads (get env identity_id slug)
unfolding get
get-Reads env identity_id slug w = ground (arith, found_room-Reads env slug)

pub list-Reads : (env : Env) (identity_id : ℕ) → Reads (list env identity_id)
unfolding list
list-Reads env identity_id w = ground arith

pub members-Reads :
    (env : Env) (identity_id : ℕ) (slug : Text) → Reads (members env identity_id slug)
unfolding members
members-Reads env identity_id slug =
    bind-Reads (get env identity_id slug) (members_of env) (get-Reads env identity_id slug)
      (λ current w. ground arith)
