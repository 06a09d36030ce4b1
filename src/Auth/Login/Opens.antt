-- ===== src/Auth/Login/Opens.antt =====
-- What a successful login of an anonymous user leaves and returns.
use zhyvo.Base.{
  ℕ, ◌≡◌, refl, sym, ap, ◌∙◌, inl, inr, ◌∷◌, ◌||◌, not, ltb, length, Bool-cases, Option-cases,
  subst, arith,
}
use zhyvo.Base.Text.{Text, trim_space}
use zhyvo.Base.Base64.{encode_url}
use zhyvo.Schema.{Db}
use zhyvo.Exec.{Env, World, Result, ok, begin, commit, make_token, create_identity, create_session}
use zhyvo.Auth.Types.{Jwt, Service, Identity, SessionTokens}
use zhyvo.Auth.Token.{issue_token, claims_of}
use zhyvo.Auth.Sessions.{session_refused, put_session, identity_of, identity_refused, put_identity}
use zhyvo.Auth.Login.{
  create_anonymous, open_session, issue, session_row, new_refresh_token, is_client, anonymous_row,
}

module _ (jwt : Jwt) (s : Service) (env : Env) where
  -- The session that was stored, and what was returned of it.
  pub record Opens (i : Identity) (client : Text) (db : Db) (out : Result SessionTokens × World)
      (tokens : SessionTokens) : Type 0 where
    pub hash : ℕ
    pub stored : out.1.db.sessions ≡ session_row jwt s env i.id hash client ∷ db.sessions
    pub identity : tokens.identity ≡ i
    pub expiry : tokens.refresh_expiry ≡ (session_row jwt s env i.id hash client).expires_at
    pub at : World
    pub issued :
        (issue_token jwt s.tokens env
          (record { identity_id = i.id; session_id = env.session_id; kind = i.kind })
          at).0
        ≡ ok (tokens.access_token, tokens.access_token_expiry)

  issue-ok :
      (i : Identity) (token : Text) (expiry : ℕ) (w : World) (tokens : SessionTokens)
      → (issue jwt s env i env.session_id token expiry w).0 ≡ ok tokens
      → (tokens.identity ≡ i)
        × (tokens.refresh_expiry ≡ expiry)
        × ((issue jwt s env i env.session_id token expiry w).1 ≡ w)
        × ((issue_token jwt s.tokens env
              (record { identity_id = i.id; session_id = env.session_id; kind = i.kind })
              w).0
            ≡ ok (tokens.access_token, tokens.access_token_expiry))
  unfolding issue issue_token
  issue-ok i token expiry w tokens done =
      elim (Option-cases (
        jwt.signed_string s.tokens.secret (
          claims_of jwt s.tokens env
            (record { identity_id = i.id; session_id = env.session_id; kind = i.kind })))) [
              | inl e ↦ absurd (ground arith)
              | inr (t, e) ↦ (ground arith, ground arith, ground arith, ground arith)
            ]

  open_session-Opens :
      (i : Identity) (client token : Text) (hash : ℕ) (db : Db) (w : World) (tokens : SessionTokens)
      → w.tx.sessions ≡ db.sessions
      → (open_session jwt s env i client token hash w).0 ≡ ok tokens
      → Opens i client db (open_session jwt s env i client token hash w) tokens
  unfolding open_session put_session
  open_session-Opens i client token hash db w tokens kept done =
      let row = session_row jwt s env i.id hash client in
      elim (Bool-cases (env.fails create_session)) [
        | inl broken ↦ absurd (ground arith)
        | inr works ↦ elim (Bool-cases (session_refused row w.tx)) [
          | inl clash ↦ absurd (ground arith)
          | inr free ↦ elim (Bool-cases (env.fails commit)) [
            | inl lost ↦ absurd (ground arith)
            | inr committed ↦
                let v = record w { db = put_session row w.tx; tx = put_session row w.tx } in
                let all : open_session jwt s env i client token hash w
                    ≡ issue jwt s env i env.session_id token row.expires_at v =
                  ground arith in
                let (owned, lasting, left, issued) =
                  issue-ok i token row.expires_at v tokens (sym (ap (λ x. x.0) all) ∙ done) in
                record {
                  hash = hash;
                  stored = ground (arith, left);
                  identity = owned;
                  expiry = lasting;
                  at = v;
                  issued = issued;
                }
          ]
        ]
      ]

  pub create_anonymous-Opens :
      (name client : Text) (w : World) (tokens : SessionTokens)
      → (create_anonymous jwt s env name client w).0 ≡ ok tokens
      → Opens
          (identity_of (anonymous_row env (trim_space name)))
          client
          w.db
          (create_anonymous jwt s env name client w)
          tokens
  unfolding create_anonymous new_refresh_token put_identity
  create_anonymous-Opens raw client w tokens done =
      let name = trim_space raw in
      let i = anonymous_row env name in
      let token = encode_url env.refresh_bytes in
      let v = record w { tx = put_identity i w.db } in
      elim (Bool-cases (not (ltb (length name) 1 || ltb 80 (length name)))) [
        | inr bad ↦ absurd (ground arith)
        | inl good ↦ elim (Bool-cases (is_client client)) [
          | inr odd ↦ absurd (ground arith)
          | inl known ↦ elim (Bool-cases (env.fails make_token)) [
            | inl broken ↦ absurd (ground arith)
            | inr made ↦ elim (Bool-cases (env.fails begin)) [
              | inl closed ↦ absurd (ground arith)
              | inr begun ↦ elim (Bool-cases (env.fails create_identity)) [
                | inl lost ↦ absurd (ground arith)
                | inr works ↦ elim (Bool-cases (identity_refused i w.db)) [
                  | inl clash ↦ absurd (ground arith)
                  | inr free ↦
                      let all : create_anonymous jwt s env raw client w
                          ≡ open_session jwt s env (identity_of i) client token (env.sha256 token)
                              v =
                        ground arith in
                      subst (λ x. Opens (identity_of i) client w.db x tokens) (sym all)
                        (open_session-Opens (identity_of i) client token (env.sha256 token) w.db v
                          tokens refl (sym (ap (λ x. x.0) all) ∙ done))
                ]
              ]
            ]
          ]
        ]
      ]
