-- ===== src/Auth/Refresh/Once.antt =====
-- A refresh token is good for one refresh, and the next one carries the session on.
use zhyvo.Base.{ℕ, ◌≡◌, ◌≢◌, ◌<◌, sym, inl, inr, ◌∙◌, some, true, length, subst, arith}
use zhyvo.Base.Text.{Text, byte_length}
use zhyvo.Base.Base64.{encode_url, AreBytes, byte_length-encode_url}
use zhyvo.Schema.{IdentityRow, SessionRow}
use zhyvo.Exec.{Env, World, ok, err, Error, service_clock, database_clock}
use zhyvo.Auth.Types.{Jwt, Service, SessionTokens}
use zhyvo.Auth.Sessions.{select_session, identity_of}
use zhyvo.Auth.Sessions.Rotated.{rotated}
use zhyvo.Auth.Refresh.{refresh, is_token_size}
use zhyvo.Auth.Refresh.Rotates.{
  HasTokens, next_token, refresh-Outcome, rotation-select_session-old, rotation-select_session-new,
  issue-ok,
}

module _ (jwt : Jwt) (s : Service) (env : Env) (raw : Text) (w : World) (tokens : SessionTokens)
    (keys : HasTokens w.db) (fresh : env.sha256 (encode_url env.refresh_bytes) ≢ env.sha256 raw)
    (done : (refresh jwt s env raw w).0 ≡ ok tokens) where
  -- A refresh token that has been exchanged is refused from then on: whatever another request
  -- meets, its refresh with the same token fails and changes nothing. The new token has another hash.
  pub refresh_once :
      (s' : Service) (env' : Env)
      → env'.sha256 raw ≡ env.sha256 raw
      → let after = (refresh jwt s env raw w).1 in
        let again = refresh jwt s' env' raw after in
        ((e : Error) × (again.0 ≡ err e)) × (again.1.db ≡ after.db)
  refresh_once s' env' same = elim (refresh-Outcome jwt s env raw w) [
    | inl (((e, failed), kept)) ↦ absurd (ground arith)
    | inr (r, issued) ↦ elim (refresh-Outcome jwt s' env' raw (refresh jwt s env raw w).1) [
      | inl failed ↦ failed
      | inr (r', issued') ↦
          let gone =
            rotation-select_session-old jwt s env _ _ _ _ r (env'.now database_clock) keys fresh in
          absurd (ground (arith, r'.found))
    ]
  ]

  -- A refresh that succeeds answers with the holder and the end of the session and with a token of 43
  -- bytes, a length that the next refresh takes, by which the same session is found at any time before
  -- that end.
  pub refresh-Continues :
      (t : ℕ)
      → t < tokens.refresh_expiry
      → AreBytes env.refresh_bytes
      → length env.refresh_bytes ≡ 32
      → (row : SessionRow) × (holder : IdentityRow) × (select_session
            (env.now database_clock)
            (env.sha256 raw)
            w.db
          ≡ some (row, holder))
        × (tokens.identity ≡ identity_of holder)
        × (tokens.refresh_expiry ≡ row.expires_at)
        × (byte_length tokens.refresh_token ≡ 43)
        × (is_token_size tokens.refresh_token ≡ true)
        × (select_session t (env.sha256 tokens.refresh_token) (refresh jwt s env raw w).1.db
            ≡ some (
              rotated row.id
                  (env.sha256 raw)
                  (env.sha256 tokens.refresh_token)
                  (env.now service_clock)
                  row,
              holder,
            ))
  refresh-Continues t early bytes size = elim (refresh-Outcome jwt s env raw w) [
    | inl (((e, failed), kept)) ↦ absurd (ground arith)
    | inr (r, issued) ↦
        let (owned, carried, lasting) =
          issue-ok jwt s env r.holder r.row.id r.row.expires_at (next_token jwt s env) _ tokens
            (sym issued ∙ done) in
        (
          r.row,
          r.holder,
          r.found,
          owned,
          lasting,
          rw carried (byte_length-encode_url env.refresh_bytes bytes size),
          rw carried (ground (arith, byte_length-encode_url env.refresh_bytes bytes size)),
          subst
              (λ x.
                select_session t (env.sha256 x) (refresh jwt s env raw w).1.db
                ≡ some (
                  rotated r.row.id (env.sha256 raw) (env.sha256 x) (env.now service_clock) r.row,
                  r.holder,
                ))
              (sym carried) (rotation-select_session-new jwt s env _ _ _ _ r t (ground arith)),
        )
  ]
