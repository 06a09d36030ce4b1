-- ===== src/HttpApi/RateLimit.antt =====
-- internal/httpapi/rate_limit.go. The token bucket of golang.org/x/time/rate is a parameter: a new one
-- and `AllowN(now, 1)`, which answers and changes it.
pub mod Isolation
pub mod Middleware
use zhyvo.Base.{
  ℕ, ◌-◌, ◌*◌, List, [], ◌∷◌, Option, none, some, Bool, true, false, leb, if◌then◌else◌,
}
use zhyvo.Base.Text.{Text, text_eq}

-- 15 minutes, in seconds.
abbrev pub ttl : ℕ
ttl = 15 * 60

pub record Visitor (Limiter : Type 0) : Type 0 where
  pub limiter : Limiter
  pub last_seen : ℕ

-- `none` is the zero time. The map is a list with one entry for a key.
pub record RateLimiter (Limiter : Type 0) : Type 0 where
  pub visitors : List (Text × Visitor Limiter)
  pub last_cleanup : Option ℕ

abbrev pub is_due : ℕ → Option ℕ → Bool
is_due now none = true
is_due now (some last) = leb ttl (now - last)

module _ {Limiter : Type 0} where
  abbrev pub lookup : Text → List (Text × Visitor Limiter) → Option (Visitor Limiter)
  lookup key [] = none
  lookup key ((k, v) ∷ rows) = if text_eq k key then some v else lookup key rows

  -- An assignment to the map.
  abbrev pub put :
      Text → Visitor Limiter → List (Text × Visitor Limiter) → List (Text × Visitor Limiter)
  put key v [] = (key, v) ∷ []
  put key v ((k, u) ∷ rows) =
      let rest = put key v rows in if text_eq k key then (k, v) ∷ rows else (k, u) ∷ rest

  abbrev pub is_stale : ℕ → Visitor Limiter → Bool
  is_stale now v = leb ttl (now - v.last_seen)

  -- The loop of the cleanup.
  abbrev pub sweep : ℕ → List (Text × Visitor Limiter) → List (Text × Visitor Limiter)
  sweep now [] = []
  sweep now ((k, v) ∷ rows) =
      let rest = sweep now rows in if is_stale now v then rest else (k, v) ∷ rest

  abbrev pub cleaned : ℕ → RateLimiter Limiter → RateLimiter Limiter
  cleaned now s =
      if is_due now s.last_cleanup
      then record { visitors = sweep now s.visitors; last_cleanup = some now }
      else s

module _ {Limiter : Type 0} (new_limiter : Limiter) (allow_n : ℕ → Limiter → Bool × Limiter) where
  abbrev pub limiter_of : Option (Visitor Limiter) → Limiter
  limiter_of none = new_limiter
  limiter_of (some v) = v.limiter

  unfoldable pub allow : ℕ → Text → RateLimiter Limiter → Bool × RateLimiter Limiter
  allow now key s =
      let swept = cleaned now s in
      let answer = allow_n now (limiter_of (lookup key swept.visitors)) in
      (
        answer.0,
        record swept {
          visitors = put key (record { limiter = answer.1; last_seen = now }) swept.visitors;
        },
      )
