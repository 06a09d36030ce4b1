-- ===== src/Thumbnail/Sound.antt =====
-- The thumbnail worker keeps the counters of every room true.
use zhyvo.Base.{
  ℕ, ◌≡◌, refl, sym, ◌⊎◌, inl, inr, none, some, false, Bool-cases, Option-cases, not, subst, arith,
  ◌||◌,
}
use zhyvo.Base.Text.{Text}
use zhyvo.Schema.{Db, MediaRow, ObjectKey}
use zhyvo.Exec.{
  Env, World, ok, err, Error, internal, begin, commit, claim_thumbnail, mark_working, mark_broken,
  database_clock,
}
use zhyvo.Capacity.{IsSound}
use zhyvo.Capacity.Unseen.{IsUnseen, unseen-IsSound}
use zhyvo.Cleanup.Sound.{repeat_keeps}
use zhyvo.Thumbnail.Process.{process-Done}
use zhyvo.Thumbnail.{
  job_of, select_job, taken, take_job, claim, shown, show_thumbnail, thumbnail_key_of, process, cut,
  cuts_clean, max_error_length, failed_with, fail_job, mark_failed, recover, run_job, run_batch,
}

taken-IsUnseen : (now : ℕ) → IsUnseen (taken now)
taken-IsUnseen now = record {
  id = λ a. refl;
  room_id = λ a. refl;
  status = λ a. refl;
  size_bytes = λ a. refl;
}

shown-IsUnseen : (key : ObjectKey) (now : ℕ) → IsUnseen (shown key now)
shown-IsUnseen key now = record {
  id = λ a. ground arith;
  room_id = λ a. ground arith;
  status = λ a. ground arith;
  size_bytes = λ a. ground arith;
}

failed_with-IsUnseen : (message : Text) (now : ℕ) → IsUnseen (failed_with message now)
failed_with-IsUnseen message now = record {
  id = λ a. ground arith;
  room_id = λ a. ground arith;
  status = λ a. ground arith;
  size_bytes = λ a. ground arith;
}

-- A claim changes nothing, or it takes the row that it selected.
pub claim-Taken :
    (env : Env) (w : World)
    → ((((e : Error) × ((claim env w).0 ≡ err e)) ⊎ ((claim env w).0 ≡ ok none))
        × ((claim env w).1.db ≡ w.db))
      ⊎ ((m : MediaRow) × (select_job env w.db ≡ some m)
          × ((claim env w).0 ≡ ok (some (job_of m)))
          × ((claim env w).1.db ≡ take_job (env.now database_clock) m.id w.db))
unfolding claim
claim-Taken env w = elim (Bool-cases (env.fails begin)) [
  | inl broken ↦ inl (inl (internal begin, ground arith), ground arith)
  | inr begun ↦ elim (Bool-cases (env.fails claim_thumbnail)) [
    | inl lost ↦ inl (inl (internal claim_thumbnail, ground arith), ground arith)
    | inr found ↦ elim (Option-cases (select_job env w.db)) [
      | inl missing ↦ inl (inr (ground arith), ground arith)
      | inr (m, selected) ↦ elim (Bool-cases (env.fails mark_working)) [
        | inl refused ↦ inl (inl (internal mark_working, ground arith), ground arith)
        | inr marked ↦ elim (Bool-cases (env.fails commit)) [
          | inl undone ↦ inl (inl (internal commit, ground arith), ground arith)
          | inr kept ↦ inr (m, selected, ground arith, ground arith)
        ]
      ]
    ]
  ]
]

mark_failed-db :
    (env : Env) (id : ℕ) (cause : Error) (w : World)
    → ((mark_failed env id cause w).1.db ≡ w.db)
      ⊎ ((message : Text) × ((mark_failed env id cause w).1.db
            ≡ fail_job message (env.now database_clock) id w.db))
unfolding mark_failed
mark_failed-db env id cause w =
    elim (Bool-cases
      (env.fails mark_broken || not (cuts_clean max_error_length (env.error_text cause)))) [
        | inl refused ↦ inl (ground arith)
        | inr works ↦ inr (cut max_error_length (env.error_text cause), ground arith)
      ]

-- What a round does to the row that it has taken.
abbrev pub Handled : Env → MediaRow → Db → Db → Type 0
Handled env m db db' =
    (db' ≡ db)
    ⊎ (db' ≡ show_thumbnail (thumbnail_key_of (job_of m)) (env.now database_clock) m.id db)
    ⊎ ((message : Text) × (db' ≡ fail_job message (env.now database_clock) m.id db))

recover-Handled :
    (env : Env) (m : MediaRow) (w : World)
    → Handled env m w.db (recover env m.id (process env (job_of m) w)).1.db
recover-Handled env m w = elim (process-Done env (job_of m) w) [
  | inl (done, met, written, calls) ↦ inr (inl (ground arith))
  | inr ((e, failed), same, calls) ↦ elim (mark_failed-db env m.id e (process env (job_of m) w).1) [
    | inl kept ↦ inl (ground arith)
    | inr (message, marked) ↦ inr (inr (message, ground arith))
  ]
]

-- A round of the loop stops and changes nothing, or it takes a row that is due, handles it and goes on.
pub run_job-Round :
    (env : Env) (w : World)
    → (((run_job env w).0 ≡ ok false) × ((run_job env w).1.db ≡ w.db))
      ⊎ ((m : MediaRow) × (select_job env w.db ≡ some m)
          × Handled env m (take_job (env.now database_clock) m.id w.db) (run_job env w).1.db)
unfolding run_job
run_job-Round env w = elim (claim-Taken env w) [
  | inl (inl (e, failed), same) ↦ inl (ground arith, ground arith)
  | inl (inr nothing, same) ↦ inl (ground arith, ground arith)
  | inr (m, selected, claimed, taken_db) ↦
      let v = (claim env w).1 in
      let end : (run_job env w).1.db ≡ (recover env m.id (process env (job_of m) v)).1.db =
        ground arith in
      inr (
        m,
        selected,
        subst (λ d. Handled env m d (run_job env w).1.db) taken_db
            (subst (Handled env m v.db) (sym end) (recover-Handled env m v)),
      )
]

Handled-IsSound :
    (env : Env) (m : MediaRow) (db db' : Db) → IsSound db → Handled env m db db' → IsSound db'
unfolding show_thumbnail fail_job
Handled-IsSound env m db db' sound (inl same) = subst IsSound (sym same) sound
Handled-IsSound env m db db' sound (inr (inl written)) =
    subst IsSound (sym written) (unseen-IsSound _ (shown-IsUnseen _ _) m.id db sound)
Handled-IsSound env m db db' sound (inr (inr (message, written))) =
    subst IsSound (sym written) (unseen-IsSound _ (failed_with-IsUnseen message _) m.id db sound)

pub run_job-IsSound : (env : Env) (w : World) → IsSound w.db → IsSound (run_job env w).1.db
unfolding take_job
run_job-IsSound env w sound = elim (run_job-Round env w) [
  | inl (stopped, same) ↦ subst IsSound (sym same) sound
  | inr (m, selected, handled) ↦
      Handled-IsSound env m _ _ (unseen-IsSound _ (taken-IsUnseen _) m.id w.db sound) handled
]

-- A batch of the thumbnail worker keeps the counters of every room true.
pub render_batch-IsSound :
    (envs : ℕ → Env) (n : ℕ) (w : World) → IsSound w.db → IsSound (run_batch envs n w).1.db
unfolding run_batch
render_batch-IsSound envs n w sound =
    repeat_keeps (λ v. IsSound v.db) run_job run_job-IsSound envs n w sound
