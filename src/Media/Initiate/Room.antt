-- ===== src/Media/Initiate/Room.antt =====
-- The capacity check of `lockRoomForUpload` on machine integers.
use zhyvo.Base.{ℕ, ◌+◌, ◌^◌, ◌≤◌, ◌<◌, ◌≡◌, ◌↔◌, List, true, ltb, arith}
use zhyvo.Schema.{RoomRow, MediaRow, is_active}
use zhyvo.Exec.{Env, World, ok, room_clock}
use zhyvo.Capacity.{RoomFits}
use zhyvo.Media.Types.{max_video_size}
use zhyvo.Media.Queries.{exceeds, check_room}

-- Below 2^63 the comparison does not wrap.
exceeds_small : (a b : ℕ) → a < 2 ^ 63 → exceeds a b ≡ ltb b a
exceeds_small a b h = ground arith

-- For a live room that accepts uploads, whose counters are within its limits, and a size that passed
-- the validation, the check of the capacity passes exactly if one more file and its bytes fit: the
-- sums of 64 bits do not wrap.
pub check_room_iff :
    (env : Env) (size : ℕ) (media : List MediaRow) (r : RoomRow) (w : World)
    → RoomFits media r
    → is_active r.status ≡ true
    → env.now room_clock < r.expires_at
    → r.accepting_uploads ≡ true
    → size ≤ max_video_size
    → ((check_room env size r w).0 ≡ ok r) ↔ (
        (r.used_files + r.reserved_files + 1 ≤ r.max_files)
        × (r.used_storage_bytes + r.reserved_storage_bytes + size ≤ r.max_storage_bytes))
check_room_iff env size media r w fits live early accepting small =
    let files =
      exceeds_small (r.used_files + r.reserved_files + 1) r.max_files
        (omega (arith, fits.files, fits.max_files)) in
    let bytes =
      exceeds_small (r.used_storage_bytes + r.reserved_storage_bytes + size) r.max_storage_bytes
        (omega (arith, fits.bytes, fits.max_bytes)) in
    (
      λ h. (ground (arith, files, bytes), ground (arith, files, bytes)),
      λ (f, b). ground (arith, files, bytes),
    )
