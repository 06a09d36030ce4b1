-- ===== src/Tests/Sample.antt =====
-- A room with one ready photo and one video on its way, and a request in which nothing fails.
use zhyvo.Base.{ℕ, List, [], ◌∷◌, ◌++◌, take, none, some, true, false, refl, arith}
use zhyvo.Base.Int.{pos}
use zhyvo.Base.Text.{codes}
use zhyvo.Base.Table.{sum, find_key}
use zhyvo.Schema.{
  Db, RoomRow, MemberRow, MediaRow, UploadRow, active, owner, member, image, video, pending, ready,
  uploading, completed, single, multipart, original, waiting, IdentityRow, SessionRow,
}
use zhyvo.Exec.{Env, World, CompletedPart, size_of, object_missing}
use zhyvo.Capacity.{IsSound}
use zhyvo.Media.Types.{InitiateInput, Upload}
use zhyvo.Media.Queries.{scan_upload}
use zhyvo.Media.Current.{IsCurrent}

abbrev pub room : RoomRow
room = record {
  id = 1;
  slug = codes "ABC234";
  name = codes "Trip";
  owner_identity_id = 10;
  access_mode = codes "public";
  access_secret_hash = none;
  status = active;
  accepting_uploads = true;
  max_files = 1000;
  max_storage_bytes = 21474836480;
  used_files = 1;
  used_storage_bytes = 5000;
  reserved_files = 1;
  reserved_storage_bytes = 209715200;
  created_at = 0;
  expires_at = 100000;
}

abbrev pub owner_row : MemberRow
owner_row = record { room_id = 1; identity_id = 10; role = owner; joined_at = 0; last_seen_at = 0 }

abbrev pub guest_row : MemberRow
guest_row = record { room_id = 1; identity_id = 11; role = member; joined_at = 5; last_seen_at = 5 }

abbrev pub photo : MediaRow
photo = record {
  id = 20;
  room_id = 1;
  uploader_identity_id = 10;
  status = ready;
  media_type = image;
  original_filename = codes "a.jpg";
  mime_type = codes "image/jpeg";
  size_bytes = 5000;
  storage_key = original 1 20;
  thumbnail_key = none;
  captured_at = none;
  created_at = 1;
  ready_at = some 2;
  deleted_at = none;
  thumbnail_status = waiting;
  thumbnail_attempts = 0;
  thumbnail_error = none;
  thumbnail_updated_at = 1;
}

abbrev pub clip : MediaRow
clip = record {
  id = 21;
  room_id = 1;
  uploader_identity_id = 11;
  status = pending;
  media_type = video;
  original_filename = codes "b.mp4";
  mime_type = codes "video/mp4";
  size_bytes = 209715200;
  storage_key = original 1 21;
  thumbnail_key = none;
  captured_at = none;
  created_at = 6;
  ready_at = none;
  deleted_at = none;
  thumbnail_status = waiting;
  thumbnail_attempts = 0;
  thumbnail_error = none;
  thumbnail_updated_at = 1;
}

abbrev pub photo_session : UploadRow
photo_session = record {
  id = 30;
  media_id = 20;
  identity_id = 10;
  storage_upload_id = none;
  upload_type = single;
  status = completed;
  part_size_bytes = none;
  parts_count = none;
  expires_at = 86401;
  created_at = 1;
  completed_at = some 2;
  idempotency_key = some 40;
  request_hash = some 7;
}

abbrev pub clip_session : UploadRow
clip_session = record {
  id = 31;
  media_id = 21;
  identity_id = 11;
  storage_upload_id = some (codes "s3-1");
  upload_type = multipart;
  status = uploading;
  part_size_bytes = some 16777216;
  parts_count = some 13;
  expires_at = 86406;
  created_at = 6;
  completed_at = none;
  idempotency_key = some 41;
  request_hash = some 8;
}

abbrev pub ann : IdentityRow
ann = record {
  id = 10;
  kind = codes "anonymous";
  display_name = codes "Ann";
  telegram_user_id = none;
  created_at = 0;
  last_seen_at = 0;
}

abbrev pub bob : IdentityRow
bob = record {
  id = 11;
  kind = codes "telegram";
  display_name = codes "Bob";
  telegram_user_id = some 777;
  created_at = 0;
  last_seen_at = 0;
}

abbrev pub ann_session : SessionRow
ann_session = record {
  id = 50;
  identity_id = 10;
  token_hash = 500;
  client_type = codes "web";
  expires_at = 2592000;
  revoked_at = none;
  created_at = 0;
  last_used_at = 0;
}

abbrev pub bob_session : SessionRow
bob_session = record {
  id = 51;
  identity_id = 11;
  token_hash = 510;
  client_type = codes "telegram";
  expires_at = 2592000;
  revoked_at = none;
  created_at = 0;
  last_used_at = 0;
}

abbrev pub shared : Db
shared = record {
  rooms = room ∷ [];
  members = owner_row ∷ guest_row ∷ [];
  media = clip ∷ photo ∷ [];
  uploads = clip_session ∷ photo_session ∷ [];
  requests = [];
  identities = ann ∷ bob ∷ [];
  sessions = ann_session ∷ bob_session ∷ [];
}

abbrev pub calm : Env
calm = record {
  fails = λ s. false;
  now = λ m. 100;
  media_id = 22;
  upload_id = 32;
  storage_upload_id = codes "s3-2";
  put_url = λ k t e. (codes "https://put", e);
  part_url = λ k t n e. some (codes "https://part", e);
  get_url = λ k t. (codes "https://get", 1000);
  first_stat = object_missing;
  last_stat = size_of 209715200;
  sql_upper_trim = λ s. s;
  sha256 = λ s. 9;
  format_time = λ t. [];
  locked = λ i. false;
  room_id = 2;
  slug_bytes = λ n. n ∷ 255 ∷ 0 ∷ 40 ∷ 7 ∷ 100 ∷ [];
  salt = 1 ∷ 2 ∷ 3 ∷ 4 ∷ 5 ∷ 6 ∷ 7 ∷ 8 ∷ 9 ∷ 10 ∷ 11 ∷ 12 ∷ 13 ∷ 14 ∷ 15 ∷ 16 ∷ [];
  id_key = λ s salt t m p n.
      take 32 (s ++ (salt ++ (0 ∷ 0 ∷ 0 ∷ 0 ∷ 0 ∷ 0 ∷ 0 ∷ 0 ∷ 0 ∷ 0 ∷ 0 ∷ 0 ∷ 0 ∷ 0 ∷ 0 ∷ 0 ∷ [])));
  refresh_bytes =
      0 ∷ 1 ∷ 2 ∷ 3 ∷ 4 ∷ 5 ∷ 6 ∷ 7 ∷ 8 ∷ 9 ∷ 10 ∷ 11 ∷ 12 ∷ 13 ∷ 14 ∷ 15 ∷ 240 ∷ 241 ∷ 242 ∷ 243
      ∷ 244 ∷ 245 ∷ 246 ∷ 247 ∷ 248 ∷ 249 ∷ 250 ∷ 251 ∷ 252 ∷ 253 ∷ 254 ∷ 255 ∷ [];
  identity_id = 12;
  session_id = 52;
  token_id = codes "t";
  source_url = λ k. codes "https://s3";
  temp_path = codes "/tmp/x.jpg";
  ffmpeg = λ a. none;
  temp_size = some 900;
  error_text = λ e. codes "failed";
}

abbrev pub start : World
start = record { db = shared; tx = shared; calls = [] }

abbrev pub small_photo : InitiateInput
small_photo = record {
  filename = codes " c.png ";
  mime_type = codes "Image/PNG; q=1";
  size_bytes = pos 7000;
  captured_at = none;
}

pub shared-IsSound : IsSound shared
unfolding sum find_key
shared-IsSound = record {
  room_ids = omega arith;
  media_ids = omega arith;
  upload_ids = omega arith;
  upload_media = omega arith;
  rooms = omega arith;
  uploads = ((clip, refl, refl), ((photo, refl, refl), tt));
}

abbrev pub clip_upload : Upload
clip_upload = scan_upload clip_session clip

pub clip-IsCurrent : IsCurrent shared clip_upload
unfolding find_key
clip-IsCurrent = record { media_id = λ u e. ground arith; size_bytes = λ m e. ground arith }

abbrev pub part : ℕ → CompletedPart
part n = record { part_number = pos n; etag = codes " e" }

-- The thirteen parts of the video, out of order.
abbrev pub clip_parts : List CompletedPart
clip_parts =
    part 2
    ∷ part 1
    ∷ part 3
    ∷ part 4
    ∷ part 5
    ∷ part 6
    ∷ part 7
    ∷ part 8
    ∷ part 9
    ∷ part 10
    ∷ part 11
    ∷ part 13
    ∷ part 12
    ∷ []
