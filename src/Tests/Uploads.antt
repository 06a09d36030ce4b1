-- ===== src/Tests/Uploads.antt =====
-- Uploads: the theorems at the sample room.
use zhyvo.Base.{ℕ, List, [], ◌∷◌, ◌≡◌, refl, some, map, length, ◌≤◌, All, true, false}
use zhyvo.Base.Int.{pos}
use zhyvo.Base.Table.{find, find_key}
use zhyvo.Base.Text.{codes, trim_space, byte_length}
use zhyvo.Schema.{aborted, failed, is_completed, is_over}
use zhyvo.Exec.{ok, CompletedPart}
use zhyvo.Capacity.{IsSound}
use zhyvo.Media.Types.{PartUrl, Upload}
use zhyvo.Media.Initiate.{initiate}
use zhyvo.Media.Initiate.Sound.{initiate-IsSound}
use zhyvo.Media.Complete.{complete, commit_upload, media_ready}
use zhyvo.Media.Complete.Succeeds.{IsFinished, commit_upload-succeeds}
use zhyvo.Media.Complete.Sound.{complete-IsSound, commit_upload-IsSound}
use zhyvo.Media.Release.{release_reservation}
use zhyvo.Media.Release.Sound.{release_reservation-IsSound}
use zhyvo.Media.Parts.{sort_parts, check_parts, validate_completed_parts, trim_part}
use zhyvo.Media.Parts.Numbered.{AreNumbered, validate_completed_parts-AreNumbered}
use zhyvo.Media.PartUrls.{part_urls, sign_parts, in_range}
use zhyvo.Media.PartUrls.Numbers.{AreDistinct, part_urls-numbers}
use zhyvo.Media.Queries.{load_upload, select_upload}
use zhyvo.Tests.Sample.{
  start, calm, small_photo, shared-IsSound, clip_session, clip_upload, clip-IsCurrent, clip_parts,
}
use mathlib.Core.List.{Perm}

initiate-IsSound_example : IsSound (initiate calm 10 50 (codes "ABC234") small_photo start).1.db
initiate-IsSound_example =
    initiate-IsSound calm 10 50 (codes "ABC234") small_photo start shared-IsSound

complete-IsSound_example : IsSound (complete calm 11 31 clip_parts start).1.db
complete-IsSound_example = complete-IsSound calm 11 31 clip_parts start shared-IsSound

commit_upload-IsSound_example : IsSound (commit_upload calm clip_upload start).1.db
commit_upload-IsSound_example =
    commit_upload-IsSound calm clip_upload start shared-IsSound clip-IsCurrent

release_reservation-IsSound_example :
    IsSound (release_reservation calm clip_upload aborted failed start).1.db
release_reservation-IsSound_example =
    release_reservation-IsSound calm clip_upload aborted failed start refl refl shared-IsSound
      clip-IsCurrent

abbrev two_urls : List PartUrl
two_urls =
    record { part_number = pos 3; url = codes "https://part"; expires_at = 86406 }
    ∷ record { part_number = pos 1; url = codes "https://part"; expires_at = 86406 }
    ∷ []

part_urls-numbers_example :
    (1 ≤ 2)
    × (2 ≤ 20)
    × ((upload : Upload) × (count : ℕ) × ((load_upload calm 11 31 start).0 ≡ ok upload)
        × (upload.parts_count ≡ some count)
        × (is_completed upload.status ≡ false)
        × (is_over upload.status ≡ false)
        × (map (λ u. u.part_number) two_urls ≡ pos 3 ∷ pos 1 ∷ [])
        × All (λ n. in_range count n ≡ true) (pos 3 ∷ pos 1 ∷ [])
        × AreDistinct (pos 3 ∷ pos 1 ∷ []))
unfolding part_urls load_upload select_upload sign_parts find find_key
part_urls-numbers_example = part_urls-numbers calm 11 31 (pos 3 ∷ pos 1 ∷ []) start two_urls refl

abbrev joined_parts : List CompletedPart
joined_parts = map trim_part (sort_parts clip_parts)

validate_completed_parts-AreNumbered_example :
    (some 13 ≡ some (length clip_parts))
    × ((sorted : List CompletedPart) × Perm sorted clip_parts
        × AreNumbered 0 sorted
        × (map trim_part sorted ≡ joined_parts))
unfolding validate_completed_parts check_parts sort_parts trim_space byte_length
validate_completed_parts-AreNumbered_example =
    validate_completed_parts-AreNumbered clip_parts (some 13) joined_parts refl

commit_upload-succeeds_example :
    ((commit_upload calm clip_upload start).0 ≡ ok (media_ready clip_upload))
    × IsFinished clip_upload (commit_upload calm clip_upload start).1.db
    × IsSound (commit_upload calm clip_upload start).1.db
unfolding find_key
commit_upload-succeeds_example =
    commit_upload-succeeds calm clip_upload start clip_session refl refl clip-IsCurrent
      shared-IsSound (λ s. refl)
