-- ===== src/HttpApi/Router/Guarded.antt =====
-- The routes of the API that need a session.
use zhyvo.Base.{◌≡◌, ◌⊎◌, some, false}
use zhyvo.Base.Text.{Text}
use zhyvo.Exec.{Env, World}
use zhyvo.Auth.Types.{Principal}
use zhyvo.HttpApi.Respond.{Handler}
use zhyvo.HttpApi.Authenticate.Sessions.{Refused, Passes, require_auth-Passes}
use zhyvo.HttpApi.Router.{Dependencies, Route, is_public, handle, serve}

module _ (d : Dependencies) (env : Env) where
  abbrev pub handler_of : Route → Principal → Handler
  handler_of route p = handle d env (some p) route

  -- A request to any route but the health checks, the three logins and the preview is turned away as it
  -- came, with 401 if it has no bearer token, one that is not valid, or one whose session is not active,
  -- and with 500 if the session cannot be looked up; otherwise its header carries a valid token of an
  -- active session, and its handler runs as the principal of that session.
  pub serve-Guarded :
      (authorization : Text) (route : Route) (w : World)
      → is_public route ≡ false
      → let out = serve d env authorization route w in
        Refused d.jwt d.service.tokens env authorization w out
        ⊎ Passes d.jwt d.service.tokens env (handler_of route) authorization w out
  unfolding serve
  serve-Guarded authorization route w protected =
      rw protected
        (require_auth-Passes d.jwt d.service.tokens env (handler_of route) authorization w)
