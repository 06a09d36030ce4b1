-- ===== src/HttpApi/Authenticate.antt =====
-- internal/httpapi/auth_middleware.go.
pub mod Sessions
pub mod Serves
use zhyvo.Base.{ℕ, List, [], ◌∷◌, Option, none, some, Bool, true, false, if◌then◌else◌}
use zhyvo.Base.Text.{Text, codes, text_eq, is_space, to_lower}
use zhyvo.Exec.{Env, World, Result, ok, err, service_clock}
use zhyvo.Auth.Types.{Jwt, TokenManager, Principal}
use zhyvo.Auth.Token.{parse}
use zhyvo.Auth.Revoke.{session_is_active}
use zhyvo.HttpApi.Respond.{Response, Handler, refuse}

abbrev push_head : ℕ → List Text → List Text
push_head c [] = (c ∷ []) ∷ []
push_head c (s ∷ ss) = (c ∷ s) ∷ ss

-- The text between white spaces, with the empty parts.
split_spaces : Text → List Text
split_spaces [] = [] ∷ []
split_spaces (c ∷ s) =
    let rest = split_spaces s in if is_space c then [] ∷ rest else push_head c rest

drop_empty : List Text → List Text
drop_empty [] = []
drop_empty ([] ∷ ss) = drop_empty ss
drop_empty ((c ∷ s) ∷ ss) = (c ∷ s) ∷ drop_empty ss

-- `strings.Fields`.
unfoldable pub fields : Text → List Text
unfolding split_spaces drop_empty
fields s = drop_empty (split_spaces s)

-- The two fields of a bearer token, by `EqualFold` on the first.
abbrev pub bearer_of : List Text → Option Text
bearer_of (scheme ∷ token ∷ []) =
    if text_eq (to_lower scheme) (codes "bearer") then some token else none
bearer_of _ = none

module _ (jwt : Jwt) (m : TokenManager) (env : Env) (next : Principal → Handler) where
  abbrev pub pass_active : Principal → Result Bool × World → Response × World
  pass_active p (err e, w) = refuse 500 (codes "INTERNAL_ERROR") w
  pass_active p (ok false, w) = refuse 401 (codes "SESSION_INACTIVE") w
  pass_active p (ok true, w) = next p w

  abbrev pub pass_parsed : Option Principal → Handler
  pass_parsed none w = refuse 401 (codes "INVALID_ACCESS_TOKEN") w
  pass_parsed (some p) w = pass_active p (session_is_active env p w)

  abbrev pub pass_bearer : Option Text → Handler
  pass_bearer none = refuse 401 (codes "AUTH_REQUIRED")
  pass_bearer (some token) = pass_parsed (parse jwt m (env.now service_clock) token)

  -- The value of the header Authorization, and the handler behind.
  unfoldable pub require_auth : Text → Handler
  unfolding fields
  require_auth authorization = pass_bearer (bearer_of (fields authorization))
