-- ===== src/Auth/Token.antt =====
-- internal/auth/token.go: access tokens.
pub mod Parse
use zhyvo.Base.{ℕ, ◌+◌, [], Option, none, some, Bool, if◌then◌else◌}
use zhyvo.Base.Text.{Text, codes, text_eq}
use zhyvo.Exec.{Env, M, ok, err, internal, sign, service_clock}
use zhyvo.Auth.Types.{Principal, AccessClaims, Jwt, TokenManager}

abbrev pub api_audience : Text
api_audience = codes "photodrop-api"

abbrev pub leeway : ℕ
leeway = 5

module _ (jwt : Jwt) (m : TokenManager) where
  unfoldable pub claims_of : Env → Principal → AccessClaims
  claims_of env p = record {
    session_id = jwt.uuid_string p.session_id;
    kind = p.kind;
    issuer = m.issuer;
    subject = jwt.uuid_string p.identity_id;
    audience = api_audience;
    issued_at = env.now service_clock;
    not_before = env.now service_clock;
    expires_at = env.now service_clock + m.ttl;
    id = env.token_id;
  }

  abbrev pub signed : Env → Option Text → M (Text × ℕ)
  signed env none w = (err (internal sign), w)
  signed env (some token) w = (ok (token, env.now service_clock + m.ttl), w)

  unfoldable pub issue_token : Env → Principal → M (Text × ℕ)
  unfolding claims_of
  issue_token env p = signed env (jwt.signed_string m.secret (claims_of env p))

  abbrev pub principal_of : Option ℕ → Option ℕ → Text → Option Principal
  principal_of (some identity_id) (some session_id) kind =
      if text_eq kind []
      then none
      else some (record { identity_id = identity_id; session_id = session_id; kind = kind })
  principal_of _ _ kind = none

  abbrev pub read_claims : Option AccessClaims → Option Principal
  read_claims none = none
  read_claims (some c) =
      principal_of (jwt.uuid_parse c.subject) (jwt.uuid_parse c.session_id) c.kind

  -- `none` is `ErrInvalidAccessToken`.
  unfoldable pub parse : ℕ → Text → Option Principal
  parse now raw = read_claims (jwt.parse_with_claims m.secret api_audience m.issuer leeway now raw)
