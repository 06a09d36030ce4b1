-- ===== src/Auth/Login.antt =====
-- `CreateAnonymous`, `CreateTelegram` and `issue` of internal/auth/service.go.
pub mod Opens
use zhyvo.Base.{
  ℕ, ◌+◌, Option, none, some, Bool, false, ◌&&◌, ◌||◌, not, ltb, length, if◌then◌else◌,
}
use zhyvo.Base.Int.{pos, ltb_ℤ, pos_part}
use zhyvo.Base.Text.{Text, codes, text_eq, trim_space}
use zhyvo.Base.Base64.{encode_url}
use zhyvo.Schema.{IdentityRow, SessionRow}
use zhyvo.Exec.{
  Env, M, pure, fail, require, attempt, begin_tx, commit_tx, query, exec, ◌>>=◌, ◌>>◌, internal,
  make_token, create_identity, create_session, invalid_input, service_clock,
}
use zhyvo.Auth.Types.{Identity, Jwt, Service, SessionTokens, TelegramUser}
use zhyvo.Auth.Token.{issue_token}
use zhyvo.Auth.Telegram.{display_name}
use zhyvo.Auth.Sessions.{
  identity_refused, put_identity, session_refused, put_session, upsert_telegram, select_telegram,
  identity_of,
}

-- The raw token, and its hash.
unfoldable pub new_refresh_token : Env → M (Text × ℕ)
new_refresh_token env = do
  attempt env make_token
  pure (encode_url env.refresh_bytes, env.sha256 (encode_url env.refresh_bytes))

abbrev pub is_client : Text → Bool
is_client s = text_eq s (codes "web") || text_eq s (codes "ios") || text_eq s (codes "android")

abbrev pub anonymous_row : Env → Text → IdentityRow
anonymous_row env name = record {
  id = env.identity_id;
  kind = codes "anonymous";
  display_name = name;
  telegram_user_id = none;
  created_at = env.now service_clock;
  last_seen_at = env.now service_clock;
}

abbrev pub telegram_row : Env → ℕ → Text → IdentityRow
telegram_row env telegram_id name = record {
  id = env.identity_id;
  kind = codes "telegram";
  display_name = name;
  telegram_user_id = some telegram_id;
  created_at = env.now service_clock;
  last_seen_at = env.now service_clock;
}

module _ (jwt : Jwt) (s : Service) (env : Env) where
  abbrev pub session_row : ℕ → ℕ → Text → SessionRow
  session_row identity_id hash client_type = record {
    id = env.session_id;
    identity_id = identity_id;
    token_hash = hash;
    client_type = client_type;
    expires_at = env.now service_clock + s.refresh_ttl;
    revoked_at = none;
    created_at = env.now service_clock;
    last_used_at = env.now service_clock;
  }

  unfoldable pub issue : Identity → ℕ → Text → ℕ → M SessionTokens
  issue identity session_id refresh_token refresh_expiry = do
    (access, expiry) ←
        issue_token jwt s.tokens env
          (record { identity_id = identity.id; session_id = session_id; kind = identity.kind })
    pure (record {
      identity = identity;
      access_token = access;
      access_token_expiry = expiry;
      refresh_token = refresh_token;
      refresh_expiry = refresh_expiry;
    })

  -- The session of an identity that the open transaction has stored.
  unfoldable pub open_session : Identity → Text → Text → ℕ → M SessionTokens
  unfolding issue
  open_session identity client_type token hash = do
    let row = session_row identity.id hash client_type
    exec env create_session (session_refused row) (put_session row)
    commit_tx env
    issue identity env.session_id token row.expires_at

  unfoldable pub create_anonymous : Text → Text → M SessionTokens
  unfolding open_session new_refresh_token
  create_anonymous raw_name client_type = do
    let name = trim_space raw_name
    require (not (ltb (length name) 1 || ltb 80 (length name))) invalid_input
    require (is_client client_type) invalid_input
    (token, hash) ← new_refresh_token env
    begin_tx env
    exec env create_identity (identity_refused (anonymous_row env name))
        (put_identity (anonymous_row env name))
    open_session (identity_of (anonymous_row env name)) client_type token hash

  -- The upsert returns a row, whether it inserted or updated it.
  abbrev pub open_telegram : Text → ℕ → Option IdentityRow → M SessionTokens
  open_telegram token hash none = fail (internal create_identity)
  open_telegram token hash (some i) = open_session (identity_of i) (codes "telegram") token hash

  unfoldable pub create_telegram : TelegramUser → M SessionTokens
  unfolding open_session new_refresh_token
  create_telegram user = do
    require (ltb_ℤ (pos 0) user.id) invalid_input
    (token, hash) ← new_refresh_token env
    begin_tx env
    let row = telegram_row env (pos_part user.id) (display_name user)
    exec env create_identity (λ _. false) (upsert_telegram (pos_part user.id) row)
    found ← query env create_identity (select_telegram (pos_part user.id))
    open_telegram token hash found
