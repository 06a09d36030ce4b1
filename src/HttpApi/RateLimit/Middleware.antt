-- ===== src/HttpApi/RateLimit/Middleware.antt =====
-- `newRateLimiter`, `middleware` and the keys of internal/httpapi/rate_limit.go. The rate and the burst
-- are those of the new bucket; what net.SplitHostPort makes of the remote address is an argument. The
-- header Retry-After is left out.
pub mod Separate
use zhyvo.Base.{ℕ, [], Option, none, some, Bool, if◌then◌else◌}
use zhyvo.Base.Text.{Text, codes}
use zhyvo.Exec.{World}
use zhyvo.Auth.Types.{Jwt, Principal}
use zhyvo.HttpApi.RateLimit.{RateLimiter, allow}
use zhyvo.HttpApi.Respond.{Response, Handler, refusal}

abbrev pub new_rate_limiter : {Limiter : Type 0} → RateLimiter Limiter
new_rate_limiter = record { visitors = []; last_cleanup = none }

abbrev pub client_ip_key : Option Text → Text → Text
client_ip_key none remote_addr = remote_addr
client_ip_key (some host) remote_addr = host

abbrev pub identity_key : Jwt → Option Text → Text → Option Principal → Text
identity_key jwt host remote_addr none = client_ip_key host remote_addr
identity_key jwt host remote_addr (some p) = jwt.uuid_string p.identity_id

module _ {Limiter : Type 0} (new_limiter : Limiter) (allow_n : ℕ → Limiter → Bool × Limiter) where
  -- A request with its key, at a time of the limiter's clock; the limiter's state goes along.
  unfoldable pub middleware :
      ℕ → Text → Handler → RateLimiter Limiter × World → Response × (RateLimiter Limiter × World)
  middleware now key next (s, w) =
      let checked = allow new_limiter allow_n now key s in
      let out = next w in
      if checked.0
      then (out.0, (checked.1, out.1))
      else (refusal 429 (codes "RATE_LIMIT_EXCEEDED"), (checked.1, w))
