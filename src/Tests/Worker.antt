-- ===== src/Tests/Worker.antt =====
-- The worker: the theorems at the sample room.
use zhyvo.Base.{ℕ, ◌≢◌, true, arith}
use zhyvo.Base.Table.{sum}
use zhyvo.Exec.{Env, ok}
use zhyvo.Capacity.{IsSound}
use zhyvo.Cleanup.{run_batch}
use zhyvo.Cleanup.Sound.{run_batch-IsSound}
use zhyvo.Cleanup.Ends.{open_count, run_batch_ends}
use zhyvo.Tests.Sample.{calm, start, shared-IsSound}

-- A day and two later: the video's session has expired, and then the room.
abbrev late : ℕ → Env
late n = record calm { now = λ m. 200000 }

run_batch-IsSound_example : IsSound (run_batch late 5 late 5 start).1.db
run_batch-IsSound_example = run_batch-IsSound late 5 late 5 start shared-IsSound

run_batch_ends_example : (run_batch late 5 late 5 start).0 ≢ ok true
unfolding open_count sum
run_batch_ends_example =
    run_batch_ends late 5 late 5 start shared-IsSound (omega arith) (omega arith)
