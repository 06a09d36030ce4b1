-- ===== src/Tests/Limits.antt =====
-- The rate limiter with buckets of two tokens that are never refilled.
use zhyvo.Base.{ℕ, ◌-◌, [], ◌∷◌, ◌≡◌, refl, some, none, Bool, ltb, arith}
use zhyvo.Base.Text.{Text, codes, text_eq}
use zhyvo.Auth.Types.{Principal}
use zhyvo.HttpApi.RateLimit.{RateLimiter, lookup}
use zhyvo.HttpApi.RateLimit.Isolation.{IsMap, found_at}
use zhyvo.HttpApi.RateLimit.Middleware.{middleware}
use zhyvo.HttpApi.RateLimit.Middleware.Separate.{middleware-Separate}
use zhyvo.HttpApi.Respond.{Handler, refuse}
use zhyvo.Tests.Sample.{start}
use zhyvo.Tests.Tokens.{plain, plain-IsJwt}

abbrev spend : ℕ → ℕ → Bool × ℕ
spend now tokens = (ltb 0 tokens, tokens - 1)

abbrev ann : Principal
ann = record { identity_id = 10; session_id = 50; kind = codes "anonymous" }

abbrev bob : Principal
bob = record { identity_id = 11; session_id = 51; kind = codes "anonymous" }

abbrev key_of : Principal → Text
key_of p = plain.uuid_string p.identity_id

-- Ann was seen at 900 and has a token left, Bob was last seen at 10.
abbrev busy : RateLimiter ℕ
busy = record {
  visitors =
      (key_of ann, record { limiter = 1; last_seen = 900 })
      ∷ (key_of bob, record { limiter = 0; last_seen = 10 })
      ∷ [];
  last_cleanup = some 5;
}

abbrev teapot : Handler
teapot = refuse 418 (codes "TEAPOT")

one_each : IsMap busy.visitors
unfolding text_eq
one_each = (refl, (refl, tt))

middleware-Separate_example :
    let out = middleware 2 spend 1000 (key_of ann) teapot (busy, start) in
    ((out.0, out.1.1) ≡ teapot start)
    × (lookup (key_of ann) out.1.0.visitors ≡ some (record { limiter = 0; last_seen = 1000 }))
    × (lookup (key_of bob) out.1.0.visitors ≡ found_at 1000 (key_of bob) busy)
    × IsMap out.1.0.visitors
unfolding text_eq
middleware-Separate_example =
    middleware-Separate 2 spend plain plain-IsJwt none [] 1000 ann bob teapot busy start one_each
      (λ e. omega arith)
