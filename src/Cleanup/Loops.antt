-- ===== src/Cleanup/Loops.antt =====
-- `repeat`, the loops of the workers, as far as their rounds make progress.
use zhyvo.Base.{ℕ, zero, suc, ◌<◌, ◌≡◌, ◌≢◌, Bool, true, false, arith}
use zhyvo.Exec.{Env, World, M, ok, bind_post}
use zhyvo.Cleanup.{while_more, repeat}

-- A loop whose rounds go on only while a measure falls ends before its fuel does.
-- The rounds may share a condition on what they meet.
module _ (P : World → Type 0) (Q : Env → Type 0) (measure : World → ℕ) (step : Env → M Bool)
    (keep : (env : Env) (w : World) → Q env → P w → P (step env w).1)
    (falls : (env : Env) (w : World)
      → Q env
      → P w
      → (step env w).0 ≡ ok true
      → measure (step env w).1 < measure w) where
  pub repeat_ends :
      (envs : ℕ → Env) (n : ℕ) (w : World)
      → ((k : ℕ) → Q (envs k))
      → P w
      → measure w < n
      → (repeat step envs n w).0 ≢ ok true
  unfolding repeat
  repeat_ends envs zero w q h m = elim m [ ]
  repeat_ends envs (suc n) w q h m =
      bind_post (λ r _. r ≢ ok true) (step (envs n)) (while_more (repeat step envs n)) w
        (λ e _ o. cc)
        (λ more went.
          elim more
              as (λ b.
                (step (envs n) w).0 ≡ ok b
                → (while_more (repeat step envs n) b (step (envs n) w).1).0 ≢ ok true) [
                  | true ↦ λ r.
                      repeat_ends envs n (step (envs n) w).1 q (keep (envs n) w (q n) h)
                        (omega (arith, falls (envs n) w (q n) h r))
                  | false ↦ λ r o. cc
                ]
            went)
