-- ===== src/HttpApi/Accounts.antt =====
-- internal/httpapi/auth_handler.go: logins, refreshes and the caller's own identity.
use zhyvo.Base.{ℕ, ◌-◌, [], Option, if◌then◌else◌}
use zhyvo.Base.Text.{Text, codes, text_eq}
use zhyvo.Exec.{Env, Error, invalid_input, invalid_refresh_token, identity_missing, service_clock}
use zhyvo.Auth.Types.{Jwt, Service, Principal, Identity, SessionTokens}
use zhyvo.Auth.Telegram.{Signing, Checked, accepted, invalid, outdated, validate_init_data}
use zhyvo.Auth.Login.{create_anonymous, create_telegram}
use zhyvo.Auth.Refresh.{refresh}
use zhyvo.Auth.Revoke.{load_identity, end_session}
use zhyvo.HttpApi.Respond.{
  TokenResponse, Response, Handler, reply, refusal, no_body, tokens_body, identity_body, answer,
  with_principal, with_input, refuse,
}

-- The seconds left stop at 0.
unfoldable pub new_token_response : Env → SessionTokens → TokenResponse
new_token_response env t = record {
  identity = t.identity;
  access_token = t.access_token;
  access_token_expires_in = t.access_token_expiry - env.now service_clock;
  access_token_expires_at = t.access_token_expiry;
  refresh_token = t.refresh_token;
  refresh_token_expires_at = t.refresh_expiry;
}

abbrev pub anonymous_error : Error → Response
anonymous_error invalid_input = refusal 422 (codes "VALIDATION_ERROR")
anonymous_error _ = refusal 500 (codes "INTERNAL_ERROR")

abbrev pub refresh_error : Error → Response
refresh_error invalid_refresh_token = refusal 401 (codes "INVALID_REFRESH_TOKEN")
refresh_error _ = refusal 500 (codes "INTERNAL_ERROR")

abbrev pub identity_error : Error → Response
identity_error identity_missing = refusal 401 (codes "IDENTITY_NOT_FOUND")
identity_error _ = refusal 500 (codes "INTERNAL_ERROR")

abbrev pub logout_error : Error → Response
logout_error _ = refusal 500 (codes "INTERNAL_ERROR")

module _ (jwt : Jwt) (s : Service) (env : Env) where
  -- The body is the display name and the type of the client.
  unfoldable pub handle_anonymous : Option (Text × Text) → Handler
  unfolding new_token_response
  handle_anonymous body = with_input body λ (input : Text × Text).
      answer (create_anonymous jwt s env input.0 input.1) anonymous_error
        (λ (t : SessionTokens). reply 201 (tokens_body (new_token_response env t)))

  abbrev pub login_checked : Checked → Handler
  login_checked invalid = refuse 401 (codes "INVALID_TELEGRAM_INIT_DATA")
  login_checked outdated = refuse 401 (codes "TELEGRAM_INIT_DATA_EXPIRED")
  login_checked (accepted user) =
      answer (create_telegram jwt s env user) logout_error
        (λ (t : SessionTokens). reply 201 (tokens_body (new_token_response env t)))

  -- The bot's token and the age that its data may have are settings; the body is the data.
  unfoldable pub handle_telegram : Signing → Text → ℕ → Option Text → Handler
  unfolding new_token_response
  handle_telegram lib bot_token max_age body =
      if text_eq bot_token []
      then refuse 503 (codes "TELEGRAM_AUTH_NOT_CONFIGURED")
      else with_input body λ raw.
        login_checked (validate_init_data lib bot_token max_age (env.now service_clock) raw)

  unfoldable pub handle_refresh : Option Text → Handler
  unfolding new_token_response
  handle_refresh body = with_input body λ raw.
      answer (refresh jwt s env raw) refresh_error
        (λ (t : SessionTokens). reply 200 (tokens_body (new_token_response env t)))

unfoldable pub handle_me : Env → Option Principal → Handler
handle_me env context = with_principal context λ p.
    answer (load_identity env p.identity_id) identity_error
      (λ (i : Identity). reply 200 (identity_body i))

unfoldable pub handle_logout : Env → Option Principal → Handler
handle_logout env context =
    with_principal context
      λ p. answer (end_session env p.session_id p.identity_id) logout_error (λ _. reply 204 no_body)
