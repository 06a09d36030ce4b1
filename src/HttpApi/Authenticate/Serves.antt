-- ===== src/HttpApi/Authenticate/Serves.antt =====
-- A client that has logged in is served.
use zhyvo.Base.{ℕ, ◌+◌, ◌≤◌, ◌<◌, ◌≡◌, refl, ◌∷◌, some, false, true, arith}
use zhyvo.Base.Text.{Text, codes, trim_space}
use zhyvo.Schema.{Db, SessionRow}
use zhyvo.Exec.{Env, World, ok, check_session, service_clock, database_clock}
use zhyvo.Auth.Types.{Jwt, IsJwt, Service, Principal, SessionTokens}
use zhyvo.Auth.Token.{leeway, parse}
use zhyvo.Auth.Token.Parse.{parse-issue_token}
use zhyvo.Auth.Sessions.{has_session, is_session_of, identity_of}
use zhyvo.Auth.Login.{create_anonymous, session_row, anonymous_row}
use zhyvo.Auth.Login.Opens.{create_anonymous-Opens}
use zhyvo.Auth.Revoke.{session_is_active}
use zhyvo.HttpApi.Respond.{Handler}
use zhyvo.HttpApi.Authenticate.{require_auth, fields, bearer_of}

has_session-here :
    (t : ℕ) (p : Principal) (row : SessionRow) (rows : Db) (db : Db)
    → db.sessions ≡ row ∷ rows.sessions
    → is_session_of t p row ≡ true
    → has_session t p db ≡ true
unfolding has_session
has_session-here t p row rows db stored here = ground arith

module _ (jwt : Jwt) (laws : IsJwt jwt) (s : Service) (env : Env) (name client : Text) (w : World)
    (tokens : SessionTokens) (done : (create_anonymous jwt s env name client w).0 ≡ ok tokens) where
  -- After an anonymous login that succeeds, every request with its access token is served as the new
  -- identity, until the token or the session ends, as long as the session can be looked up.
  pub create_anonymous-served :
      (env' : Env) (next : Principal → Handler) (authorization : Text)
      → bearer_of (fields authorization) ≡ some tokens.access_token
      → env'.fails check_session ≡ false
      → env.now service_clock ≤ env'.now service_clock + leeway
      → env'.now service_clock < tokens.access_token_expiry + leeway
      → env'.now database_clock < tokens.refresh_expiry
      → let after = (create_anonymous jwt s env name client w).1 in
        let p : Principal = record {
          identity_id = tokens.identity.id;
          session_id = env.session_id;
          kind = codes "anonymous";
        } in
        require_auth jwt s.tokens env' next authorization after ≡ next p after
  unfolding require_auth session_is_active
  create_anonymous-served env' next authorization bearer works begun valid lasting =
      let i = identity_of (anonymous_row env (trim_space name)) in
      let o = create_anonymous-Opens jwt s env name client w tokens done in
      let p : Principal = record {
        identity_id = env.identity_id;
        session_id = env.session_id;
        kind = codes "anonymous";
      } in
      let reads =
        parse-issue_token jwt laws s.tokens env p o.at tokens.access_token
          tokens.access_token_expiry (env'.now service_clock) (λ e. absurd (ground arith)) o.issued
          begun in
      let known : parse jwt s.tokens (env'.now service_clock) tokens.access_token ≡ some p =
        ground arith in
      let here =
        has_session-here (env'.now database_clock) p (session_row jwt s env i.id o.hash client) w.db
          (create_anonymous jwt s env name client w).1.db o.stored (ground (arith, o.expiry)) in
      rw (bearer, known, works, here, o.identity) refl
