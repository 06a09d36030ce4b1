-- ===== src/Tests/Thumbnails.antt =====
-- The thumbnail worker at the sample photo.
use zhyvo.Base.{◌≢◌, ◌⊎◌, true, arith}
use zhyvo.Exec.{ok}
use zhyvo.Thumbnail.{job_of, process, run_batch}
use zhyvo.Thumbnail.Process.{Shown, Dropped, process-Done}
use zhyvo.Thumbnail.Ends.{render_batch_ends}
use zhyvo.Tests.Sample.{calm, start, photo, shared-IsSound}

process-Done_example :
    Shown calm (job_of photo) start (process calm (job_of photo) start)
    ⊎ Dropped calm (job_of photo) start (process calm (job_of photo) start)
process-Done_example = process-Done calm (job_of photo) start

render_batch_ends_example : (run_batch (λ n. calm) 9 start).0 ≢ ok true
render_batch_ends_example =
    render_batch_ends 100 (λ n. calm) 9 start (λ k. (omega arith, omega arith)) shared-IsSound
      (omega arith)
