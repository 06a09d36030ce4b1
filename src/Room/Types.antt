-- ===== src/Room/Types.antt =====
-- The input and output types of internal/room/service.go.
use zhyvo.Base.{ℕ, Option, Bool}
use zhyvo.Base.Int.{ℤ}
use zhyvo.Base.Text.{Text}
use zhyvo.Schema.{RoomRow, MemberRow, IdentityRow, RoomStatus, Role}

pub record CreateInput : Type 0 where
  pub name : Text
  pub lifetime_days : ℤ
  pub access_mode : Text
  pub secret : Text

pub record AccessUpdate : Type 0 where
  pub mode : Text
  pub secret : Text

pub record UpdateInput : Type 0 where
  pub name : Option Text
  pub accepting_uploads : Option Bool
  pub access : Option AccessUpdate

pub record Room : Type 0 where
  pub id : ℕ
  pub slug : Text
  pub name : Text
  pub access_mode : Text
  pub role : Role
  pub status : RoomStatus
  pub accepting_uploads : Bool
  pub max_files : ℕ
  pub max_storage_bytes : ℕ
  pub used_files : ℕ
  pub used_storage_bytes : ℕ
  pub created_at : ℕ
  pub expires_at : ℕ

pub record Preview : Type 0 where
  pub slug : Text
  pub name : Text
  pub access_mode : Text
  pub status : RoomStatus
  pub expires_at : ℕ

pub record Member : Type 0 where
  pub id : ℕ
  pub display_name : Text
  pub role : Role
  pub joined_at : ℕ
  pub last_seen_at : ℕ

-- The columns that every query of a room selects, as `Scan` stores them.
abbrev pub scan_room : RoomRow → Role → Room
scan_room r role = record {
  id = r.id;
  slug = r.slug;
  name = r.name;
  access_mode = r.access_mode;
  role = role;
  status = r.status;
  accepting_uploads = r.accepting_uploads;
  max_files = r.max_files;
  max_storage_bytes = r.max_storage_bytes;
  used_files = r.used_files;
  used_storage_bytes = r.used_storage_bytes;
  created_at = r.created_at;
  expires_at = r.expires_at;
}

abbrev pub scan_preview : RoomRow → Preview
scan_preview r = record {
  slug = r.slug;
  name = r.name;
  access_mode = r.access_mode;
  status = r.status;
  expires_at = r.expires_at;
}

abbrev pub scan_member : MemberRow → IdentityRow → Member
scan_member a i = record {
  id = i.id;
  display_name = i.display_name;
  role = a.role;
  joined_at = a.joined_at;
  last_seen_at = a.last_seen_at;
}
