-- ===== src/Thumbnail/Ends.antt =====
-- A batch of the thumbnail worker ends, as long as it takes less than ten minutes: each round takes a
-- due row and leaves it rendered, or closer to its last attempt.
use zhyvo.Base.{
  ℕ, ◌+◌, ◌-◌, ◌*◌, ◌≤◌, ◌<◌, ◌≡◌, ◌≢◌, refl, inl, inr, some, List, [], ◌∷◌, length, true, ltb,
  arith, if◌then◌else◌,
}
use zhyvo.Base.Table.{sum, find_key, modify, Distinct}
use zhyvo.Base.Table.Modify.{sum-modify, find_key-modify, Distinct-modify}
use zhyvo.Base.Table.Least.{least-test, least-find_key}
use zhyvo.Base.Text.{Text}
use zhyvo.Schema.{Db, MediaRow, ObjectKey, ThumbnailStatus, waiting, working, done, broken}
use zhyvo.Exec.{Env, World, ok, database_clock}
use zhyvo.Capacity.{IsSound}
use zhyvo.Cleanup.Loops.{repeat_ends}
use zhyvo.Thumbnail.{
  max_attempts, stale_after, due_by, is_due, is_job, select_job, taken, take_job, shown,
  show_thumbnail, failed_with, fail_job, run_job, run_batch,
}
use zhyvo.Thumbnail.Sound.{run_job-Round, run_job-IsSound}

-- How often a row can still be taken by the time `limit`, at most.
abbrev pub left_by : ℕ → ThumbnailStatus → ℕ → ℕ → ℕ
left_by limit waiting attempts updated = 4
left_by limit working attempts updated = if ltb (updated + stale_after) limit then 4 else 0
left_by limit done attempts updated = 0
left_by limit broken attempts updated = max_attempts - attempts

unfoldable pub rounds_left : ℕ → MediaRow → ℕ
rounds_left limit m = left_by limit m.thumbnail_status m.thumbnail_attempts m.thumbnail_updated_at

abbrev pub total_left : ℕ → World → ℕ
total_left limit w = sum (rounds_left limit) w.db.media

left_by_le :
    (limit : ℕ) (t : ThumbnailStatus) (attempts updated : ℕ) → left_by limit t attempts updated ≤ 4
left_by_le limit waiting attempts updated = omega arith
left_by_le limit working attempts updated = ground arith
left_by_le limit done attempts updated = omega arith
left_by_le limit broken attempts updated = omega arith

pub sum_left_le :
    (limit : ℕ) (media : List MediaRow) → sum (rounds_left limit) media ≤ 4 * length media
unfolding sum rounds_left
sum_left_le limit [] = omega arith
sum_left_le limit (m ∷ media) = omega (
  arith,
  left_by_le limit m.thumbnail_status m.thumbnail_attempts m.thumbnail_updated_at,
  sum_left_le limit media,
)

module _ (limit now : ℕ) (soon : now ≤ limit) (late : limit ≤ now + stale_after) where
  taken_left : (m : MediaRow) → rounds_left limit (taken now m) ≡ 0
  unfolding rounds_left
  taken_left m = ground arith

  due_by_left :
      (t : ThumbnailStatus) (attempts updated : ℕ)
      → due_by now t attempts updated ≡ true
      → max_attempts - (attempts + 1) < left_by limit t attempts updated
  due_by_left waiting attempts updated due = omega arith
  due_by_left working attempts updated due = ground arith
  due_by_left done attempts updated due = absurd (ground arith)
  due_by_left broken attempts updated due = ground arith

  module _ (m : MediaRow) (due : is_due now m ≡ true) where
    failed_left : max_attempts - (m.thumbnail_attempts + 1) < rounds_left limit m
    unfolding rounds_left is_due
    failed_left = due_by_left m.thumbnail_status m.thumbnail_attempts m.thumbnail_updated_at due

    -- The row that was taken and then left, rendered or marked as failed has fewer rounds left.
    taken_lt : rounds_left limit (taken now m) < rounds_left limit m
    taken_lt = omega (arith, taken_left m, failed_left)

    shown_lt :
        (key : ObjectKey) (t : ℕ)
        → rounds_left limit (shown key t (taken now m)) < rounds_left limit m
    unfolding rounds_left
    shown_lt key t = ground (arith, taken_lt, failed_left)

    failed_lt :
        (message : Text) (t : ℕ)
        → rounds_left limit (failed_with message t (taken now m)) < rounds_left limit m
    unfolding rounds_left
    failed_lt message t = ground (arith, failed_left)

  module _ (media : List MediaRow) (m : MediaRow) (ids : Distinct (λ a. a.id) media)
      (found : find_key (λ a. a.id) m.id media ≡ some m) where
    abbrev after_taking : List MediaRow
    after_taking = modify (λ a. a.id) m.id (taken now) media

    sum-taken :
        sum (rounds_left limit) after_taking + rounds_left limit m
        ≡ sum (rounds_left limit) media + rounds_left limit (taken now m)
    sum-taken = sum-modify (λ a. a.id) m.id (taken now) (rounds_left limit) media m ids found

    sum-handled :
        (f : MediaRow → MediaRow)
        → sum (rounds_left limit) (modify (λ a. a.id) m.id f after_taking) + rounds_left limit m
          ≡ sum (rounds_left limit) media + rounds_left limit (f (taken now m))
    sum-handled f =
        let here : find_key (λ a. a.id) m.id after_taking ≡ some (taken now m) =
          ground
            (arith, find_key-modify (λ a. a.id) m.id (taken now) m.id media (λ a. refl), found) in
        let apart =
          Distinct-modify (λ a. a.id) m.id (taken now) (λ a. a.id) media (λ a. refl) ids in
        omega (
          arith,
          sum-taken,
          sum-modify (λ a. a.id) m.id f (rounds_left limit) after_taking (taken now m) apart here,
        )

-- The clock of a round lies in the ten minutes before `limit`.
abbrev pub IsWithin : ℕ → Env → Type 0
IsWithin limit env =
    (env.now database_clock ≤ limit) × (limit ≤ env.now database_clock + stale_after)

is_job-due :
    (env : Env) (db : Db) (m : MediaRow)
    → is_job env db m ≡ true
    → is_due (env.now database_clock) m ≡ true
unfolding is_job
is_job-due env db m job = ground arith

select_job-found :
    (env : Env) (db : Db) (m : MediaRow)
    → IsSound db
    → select_job env db ≡ some m
    → (find_key (λ a. a.id) m.id db.media ≡ some m) × (is_due (env.now database_clock) m ≡ true)
unfolding select_job
select_job-found env db m sound selected =
    let job = least-test (is_job env db) (λ a. a.created_at) db.media m selected in
    (
      least-find_key (λ a. a.id) (is_job env db) (λ a. a.created_at) db.media m sound.media_ids
          selected,
      is_job-due env db m job,
    )

run_job-falls :
    (limit : ℕ) (env : Env) (w : World)
    → IsWithin limit env
    → IsSound w.db
    → (run_job env w).0 ≡ ok true
    → total_left limit (run_job env w).1 < total_left limit w
unfolding take_job show_thumbnail fail_job
run_job-falls limit env w (soon, late) sound more = elim (run_job-Round env w) [
  | inl (stopped, same) ↦ absurd (ground arith)
  | inr (m, selected, handled) ↦
      let now = env.now database_clock in
      let (found, due) = select_job-found env w.db m sound selected in
      let total = sum-handled limit now soon late w.db.media m sound.media_ids found in
      elim handled [
        | inl same ↦ rw same (
            omega (
              arith,
              sum-taken limit now soon late w.db.media m sound.media_ids found,
              taken_lt limit now soon late m due,
            ))
        | inr (inl written) ↦
            rw written
              (omega (arith, total (shown _ now), shown_lt limit now soon late m due _ now))
        | inr (inr (message, written)) ↦ rw written (
            omega (
              arith,
              total (failed_with message now),
              failed_lt limit now soon late m due message now,
            ))
      ]
]

-- A batch of the thumbnail worker comes to an end: with more fuel than four rounds for each media row
-- its result is never that the fuel ran out, provided its rounds read the clock within ten minutes.
pub render_batch_ends :
    (limit : ℕ) (envs : ℕ → Env) (n : ℕ) (w : World)
    → ((k : ℕ) → IsWithin limit (envs k))
    → IsSound w.db
    → 4 * length w.db.media < n
    → (run_batch envs n w).0 ≢ ok true
unfolding run_batch
render_batch_ends limit envs n w within sound enough =
    repeat_ends (λ v. IsSound v.db) (IsWithin limit) (total_left limit) run_job
      (λ env v _. run_job-IsSound env v) (λ env v. run_job-falls limit env v) envs n w within sound
      (omega (arith, sum_left_le limit w.db.media))
