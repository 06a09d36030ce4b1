-- ===== src/Tests/Gallery.antt =====
-- The media of the sample room.
use zhyvo.Base.{◌⊎◌}
use zhyvo.Capacity.{IsSound}
use zhyvo.Media.Gallery.Delete.{delete, commit_delete}
use zhyvo.Media.Gallery.Delete.Sound.{commit_delete-IsSound}
use zhyvo.Media.Gallery.Delete.Authorized.{Kept, Removed, delete-Removed}
use zhyvo.Tests.Sample.{calm, start, shared-IsSound}

commit_delete-IsSound_example : IsSound (commit_delete calm 20 1 start).1.db
commit_delete-IsSound_example = commit_delete-IsSound calm 20 1 start shared-IsSound

delete-Removed_example :
    Kept calm 11 20 start (delete calm 11 20 start)
    ⊎ Removed calm 11 20 start (delete calm 11 20 start)
delete-Removed_example = delete-Removed calm 11 20 start
