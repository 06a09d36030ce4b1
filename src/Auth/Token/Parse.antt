-- ===== src/Auth/Token/Parse.antt =====
-- Access tokens are read back as long as they are valid, and not after.
use zhyvo.Base.{
  ℕ, ◌+◌, ◌≤◌, ◌≡◌, ◌≢◌, refl, sym, inl, inr, [], none, some, Bool-cases, Option-cases, subst,
  arith, ltb, if◌then◌else◌,
}
use zhyvo.Base.Text.{Text, text_eq, text_eq_iff}
use zhyvo.Exec.{Env, World, ok, service_clock}
use zhyvo.Auth.Types.{Principal, Jwt, IsJwt, TokenManager}
use zhyvo.Auth.Token.{claims_of, issue_token, parse, read_claims, api_audience, leeway}

module _ (jwt : Jwt) (laws : IsJwt jwt) (m : TokenManager) (env : Env) (p : Principal) (w : World)
    (token : Text) (expiry : ℕ) where
  issue_token-signed :
      (issue_token jwt m env p w).0 ≡ ok (token, expiry)
      → (jwt.signed_string m.secret (claims_of jwt m env p) ≡ some token)
        × (expiry ≡ env.now service_clock + m.ttl)
  unfolding issue_token
  issue_token-signed issued =
      elim (Option-cases (jwt.signed_string m.secret (claims_of jwt m env p))) [
        | inl e ↦ absurd (ground arith)
        | inr (t, e) ↦ (ground arith, ground arith)
      ]

  read_claims-claims_of : p.kind ≢ [] → read_claims jwt m (some (claims_of jwt m env p)) ≡ some p
  unfolding claims_of
  read_claims-claims_of named = elim (Bool-cases (text_eq p.kind [])) [
    | inl e ↦ absurd (named ((text_eq_iff _ _).0 e))
    | inr e ↦ rw (laws.read_back p.identity_id, laws.read_back p.session_id, e) refl
  ]

  -- A token that was issued for a principal with a kind is read as that principal from the moment of
  -- its issue, give or take the leeway of five seconds, until its end and that leeway, and is refused
  -- from then on.
  pub parse-issue_token :
      (now : ℕ)
      → p.kind ≢ []
      → (issue_token jwt m env p w).0 ≡ ok (token, expiry)
      → env.now service_clock ≤ now + leeway
      → parse jwt m now token ≡ (if ltb now (expiry + leeway) then some p else none)
  unfolding parse claims_of
  parse-issue_token now named issued begun =
      let (made, ends) = issue_token-signed issued in
      elim (Bool-cases (ltb now (expiry + leeway))) [
        | inl valid ↦ rw valid (
            subst (λ c. read_claims jwt m c ≡ some p)
              (sym (
                laws.parsed m.secret leeway now token (claims_of jwt m env p) made begun
                  (ground arith)))
              (read_claims-claims_of named))
        | inr over ↦
            rw over
              (elim (Option-cases
                (jwt.parse_with_claims m.secret api_audience m.issuer leeway now token)) [
                  | inl e ↦ rw e refl
                  | inr (c, e) ↦
                      let valid =
                        laws.expired m.secret api_audience m.issuer leeway now token
                          (claims_of jwt m env p) c made e in
                      absurd (ground arith)
                ])
      ]
