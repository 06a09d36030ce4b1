-- ===== src/Tests/Requests.antt =====
-- Requests to start an upload, repeated and compared, and the parts of a large one.
use zhyvo.Base.{[], ◌∷◌, ◌≡◌, ◌↔◌, ◌≤◌, ◌+◌, refl, none, arith}
use zhyvo.Base.Text.{Text, codes, text_eq, trim_space, to_upper, to_lower, before}
use zhyvo.Base.Table.{find, find_key, modify}
use zhyvo.Schema.{image, single, initiated, original}
use zhyvo.Exec.{Env, World, ok}
use zhyvo.Media.Types.{InitiateInput, Upload}
use zhyvo.Media.Validate.{
  validate_initiate, validate_initiate_iff, normalize_input, IsUploadable, media_type_of,
  lookup_text,
}
use zhyvo.Media.Validate.Canonical.{
  canonical, canonical_injective, captured_text, hash_initiate_input,
}
use zhyvo.Media.Queries.{
  find_idempotent_upload, select_idempotent, lock_room_for_upload, select_membership,
  attach_single_url,
}
use zhyvo.Media.Initiate.{
  initiate, create_upload, draft_of, draft_upload, draft_media, draft_session, start_large,
  write_or_abort, write_draft, add_media, add_session, reserve_room, media_refused, session_refused,
  reserve_refused, session_expiry,
}
use zhyvo.Media.Initiate.Retry.{initiate_twice, Repeats}
use zhyvo.Media.Queries.{check_room}
use zhyvo.Media.Initiate.Room.{check_room_iff}
use zhyvo.Tests.Sample.{calm, start, small_photo, room, shared, shared-IsSound}

abbrev slug : Text
slug = codes "ABC234"

-- The session that the small photo gets.
abbrev answer : Upload
answer = record {
  id = 32;
  media_id = 22;
  upload_type = single;
  status = initiated;
  part_size_bytes = none;
  parts_count = none;
  expires_at = 86500;
  url = codes "https://put";
  url_expires_at = 86500;
  http_method = codes "PUT";
  headers = (codes "Content-Type", codes "image/png") ∷ [];
  object_key = original 1 22;
  storage_upload_id = none;
  content_type = codes "image/png";
  size_bytes = 7000;
}

-- The retry: an hour later, with other identifiers.
abbrev later : Env
later = record calm { now = λ m. 3700; media_id = 77; upload_id = 78 }

answered : (initiate calm 10 50 slug small_photo start).0 ≡ ok answer
unfolding initiate validate_initiate normalize_input trim_space to_lower before media_type_of
    find_idempotent_upload select_idempotent create_upload lock_room_for_upload select_membership
    draft_of start_large write_or_abort write_draft media_refused session_refused reserve_refused
    add_media add_session draft_media draft_session reserve_room draft_upload attach_single_url
    session_expiry hash_initiate_input canonical find find_key modify text_eq lookup_text
answered = refl

abbrev after : World
after = (initiate calm 10 50 slug small_photo start).1

initiate_twice_example :
    Repeats after.db answer
      (initiate later 10 50 slug small_photo after).0
      (initiate later 10 50 slug small_photo after).1
unfolding hash_initiate_input
initiate_twice_example = initiate_twice calm later 10 50 slug small_photo answer start refl answered

abbrev photo_input : InitiateInput
photo_input = record small_photo { filename = codes "c.png"; mime_type = codes "image/png" }

validate_initiate_iff_example :
    (validate_initiate small_photo ≡ ok (image, photo_input))
    ↔ ((photo_input ≡ normalize_input small_photo) × IsUploadable image photo_input)
validate_initiate_iff_example = validate_initiate_iff small_photo image photo_input

photo_input-IsUploadable : IsUploadable image photo_input
unfolding media_type_of lookup_text text_eq
photo_input-IsUploadable = record {
  named = omega arith;
  short = omega arith;
  printable = refl;
  supported = refl;
  positive = omega arith;
  fits = omega arith;
}

canonical_injective_example :
    (to_upper (trim_space slug) ≡ to_upper (trim_space (codes " abc234")))
    × (photo_input.filename ≡ photo_input.filename)
    × (photo_input.mime_type ≡ photo_input.mime_type)
    × (photo_input.size_bytes ≡ photo_input.size_bytes)
    × (captured_text calm none ≡ captured_text calm none)
unfolding canonical to_upper trim_space
canonical_injective_example =
    canonical_injective calm slug (codes " abc234") image image photo_input photo_input refl refl
      photo_input-IsUploadable photo_input-IsUploadable refl

check_room_iff_example : ((check_room calm 7000 room start).0 ≡ ok room) ↔ (
    (room.used_files + room.reserved_files + 1 ≤ room.max_files)
    × (room.used_storage_bytes + room.reserved_storage_bytes + 7000 ≤ room.max_storage_bytes))
check_room_iff_example =
    check_room_iff calm 7000 shared.media room start shared-IsSound.rooms.0 refl (omega arith) refl
      (omega arith)
