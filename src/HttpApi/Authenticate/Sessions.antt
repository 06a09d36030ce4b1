-- ===== src/HttpApi/Authenticate/Sessions.antt =====
-- Which requests pass the authentication.
use zhyvo.Base.{
  ◌≡◌, refl, ap, none, false, ◌⊎◌, inl, inr, some, true, Bool-cases, Option-cases, arith,
}
use zhyvo.Base.Text.{Text, codes}
use zhyvo.Exec.{Env, World, ok, Result-cases, check_session, service_clock, database_clock}
use zhyvo.Auth.Types.{Jwt, TokenManager, Principal}
use zhyvo.Auth.Token.{parse}
use zhyvo.Auth.Sessions.{has_session}
use zhyvo.Auth.Revoke.{session_is_active, end_session}
use zhyvo.Auth.Revoke.Ends.{end_session-Ends}
use zhyvo.HttpApi.Respond.{Response, Handler, refusal, reply, no_body}
use zhyvo.HttpApi.Authenticate.{require_auth, fields, bearer_of}
use zhyvo.HttpApi.Accounts.{handle_logout}

module _ (jwt : Jwt) (m : TokenManager) (env : Env) where
  -- The request is turned away as it came, with the response for the first thing that is wrong.
  pub data Refused (authorization : Text) (w : World) (out : Response × World) : Type 0 where
    no_token :
        bearer_of (fields authorization) ≡ none
        → out ≡ (refusal 401 (codes "AUTH_REQUIRED"), w)
        → Refused authorization w out
    bad_token :
        (token : Text)
        → bearer_of (fields authorization) ≡ some token
        → parse jwt m (env.now service_clock) token ≡ none
        → out ≡ (refusal 401 (codes "INVALID_ACCESS_TOKEN"), w)
        → Refused authorization w out
    unchecked :
        (token : Text) (p : Principal)
        → bearer_of (fields authorization) ≡ some token
        → parse jwt m (env.now service_clock) token ≡ some p
        → env.fails check_session ≡ true
        → out ≡ (refusal 500 (codes "INTERNAL_ERROR"), w)
        → Refused authorization w out
    inactive :
        (token : Text) (p : Principal)
        → bearer_of (fields authorization) ≡ some token
        → parse jwt m (env.now service_clock) token ≡ some p
        → env.fails check_session ≡ false
        → has_session (env.now database_clock) p w.db ≡ false
        → out ≡ (refusal 401 (codes "SESSION_INACTIVE"), w)
        → Refused authorization w out

  pub Refused-world :
      {authorization : Text} {w : World} {out : Response × World}
      → Refused authorization w out
      → out.1 ≡ w
  Refused-world (no_token bearer is) = ap (λ o. o.1) is
  Refused-world (bad_token token bearer parsed is) = ap (λ o. o.1) is
  Refused-world (unchecked token p bearer parsed broken is) = ap (λ o. o.1) is
  Refused-world (inactive token p bearer parsed works over is) = ap (λ o. o.1) is

module _ (jwt : Jwt) (m : TokenManager) (env : Env) (next : Principal → Handler) where
  -- The header has a token that is read as a principal, whose session was looked up and is active.
  pub record Passes (authorization : Text) (w : World) (out : Response × World) : Type 0 where
    pub token : Text
    pub principal : Principal
    pub bearer : bearer_of (fields authorization) ≡ some token
    pub parsed : parse jwt m (env.now service_clock) token ≡ some principal
    pub checked : env.fails check_session ≡ false
    pub is_active : has_session (env.now database_clock) principal w.db ≡ true
    pub served : out ≡ next principal w

  -- A request is turned away as it came, with the response for what is wrong, or its header carries a
  -- valid token of a session that is active, and the handler runs as that principal.
  pub require_auth-Passes :
      (authorization : Text) (w : World)
      → let out = require_auth jwt m env next authorization w in
        Refused jwt m env authorization w out ⊎ Passes authorization w out
  unfolding require_auth session_is_active
  require_auth-Passes authorization w = elim (Option-cases (bearer_of (fields authorization))) [
    | inl missing ↦ inl (no_token missing (rw missing refl))
    | inr (token, bearer) ↦ elim (Option-cases (parse jwt m (env.now service_clock) token)) [
      | inl bad ↦ inl (bad_token token bearer bad (rw (bearer, bad) refl))
      | inr (p, parsed) ↦ elim (Bool-cases (env.fails check_session)) [
        | inl broken ↦
            inl (unchecked token p bearer parsed broken (rw (bearer, parsed, broken) refl))
        | inr works ↦ elim (Bool-cases (has_session (env.now database_clock) p w.db)) [
          | inr over ↦
              inl
                (inactive token p bearer parsed works over (rw (bearer, parsed, works, over) refl))
          | inl active ↦ inr (record {
            token = token;
            principal = p;
            bearer = bearer;
            parsed = parsed;
            checked = works;
            is_active = active;
            served = rw (bearer, parsed, works, active) refl;
          })
        ]
      ]
    ]
  ]

  handle_logout-ok :
      (env' : Env) (p : Principal) (before after : World)
      → handle_logout env' (some p) before ≡ (reply 204 no_body, after)
      → ((end_session env' p.session_id p.identity_id before).0 ≡ ok tt)
        × ((end_session env' p.session_id p.identity_id before).1 ≡ after)
  unfolding handle_logout
  handle_logout-ok env' p before after gone =
      elim (Result-cases (end_session env' p.session_id p.identity_id before).0) [
        | inl (e, failed) ↦ absurd (ground arith)
        | inr (u, done) ↦ (done, ground arith)
      ]

  -- After a logout that was answered with 204, no request passes with an access token of that session,
  -- even while the token itself is still valid: it is turned away as it came.
  pub handle_logout-Refused :
      (env' : Env) (p : Principal) (before after : World)
      → handle_logout env' (some p) before ≡ (reply 204 no_body, after)
      → (authorization token : Text) (q : Principal) → bearer_of (fields authorization) ≡ some token
      → parse jwt m (env.now service_clock) token ≡ some q
      → q.session_id ≡ p.session_id
      → q.identity_id ≡ p.identity_id
      → Refused jwt m env authorization after (require_auth jwt m env next authorization after)
  handle_logout-Refused env' p before after gone authorization token q bearer parsed same own =
      elim (require_auth-Passes authorization after) [
        | inl refused ↦ refused
        | inr passes ↦
            let (done, left) = handle_logout-ok env' p before after gone in
            let (over, tokens) =
              end_session-Ends env' p.session_id p.identity_id before done (env.now database_clock)
                0 q in
            absurd (ground (arith, left, over, passes.bearer, passes.parsed, passes.is_active))
      ]
