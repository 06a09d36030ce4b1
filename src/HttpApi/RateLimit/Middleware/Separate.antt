-- ===== src/HttpApi/RateLimit/Middleware/Separate.antt =====
-- One identity's requests do not spend another's tokens.
use zhyvo.Base.{
  ℕ, ◌≡◌, ◌≢◌, refl, sym, ap, ◌∙◌, inl, inr, Option, some, Bool, false, Bool-cases, arith,
  if◌then◌else◌,
}
use zhyvo.Base.Text.{Text, codes, text_eq, text_eq_iff}
use zhyvo.Exec.{World}
use zhyvo.Auth.Types.{Jwt, IsJwt, Principal}
use zhyvo.HttpApi.Respond.{Handler, refusal}
use zhyvo.HttpApi.RateLimit.{RateLimiter, lookup, limiter_of, allow}
use zhyvo.HttpApi.RateLimit.Isolation.{IsMap, found_at, allow-IsMap}
use zhyvo.HttpApi.RateLimit.Middleware.{identity_key, middleware}

keys_apart :
    (jwt : Jwt) (laws : IsJwt jwt) (a b : ℕ)
    → a ≢ b
    → text_eq (jwt.uuid_string a) (jwt.uuid_string b) ≡ false
keys_apart jwt laws a b apart =
    elim (Bool-cases (text_eq (jwt.uuid_string a) (jwt.uuid_string b))) [
      | inr differ ↦ differ
      | inl same ↦
          let read : some a ≡ some b =
            sym (laws.read_back a)
            ∙ ap jwt.uuid_parse ((text_eq_iff _ _).0 same)
            ∙ laws.read_back b in
          absurd (apart (ground arith))
    ]

module _ {Limiter : Type 0} (new_limiter : Limiter) (allow_n : ℕ → Limiter → Bool × Limiter)
    (jwt : Jwt) (laws : IsJwt jwt) (host : Option Text) (remote_addr : Text) where
  -- A limited request of an identity runs its handler if the identity's own bucket allows it, and is
  -- otherwise refused with 429 as it came. It spends from that bucket, a new one if the identity is
  -- unknown or was idle for the time of a due cleanup, and leaves the entry of any other identity as a
  -- due cleanup leaves it.
  pub middleware-Separate :
      (now : ℕ) (p q : Principal) (next : Handler) (s : RateLimiter Limiter) (w : World)
      → IsMap s.visitors
      → p.identity_id ≢ q.identity_id
      → let key = identity_key jwt host remote_addr (some p) in
        let other = identity_key jwt host remote_addr (some q) in
        let out = middleware new_limiter allow_n now key next (s, w) in
        let answer = allow_n now (limiter_of new_limiter allow_n (found_at now key s)) in
        ((out.0, out.1.1)
          ≡ (if answer.0 then next w else (refusal 429 (codes "RATE_LIMIT_EXCEEDED"), w)))
        × (lookup key out.1.0.visitors ≡ some (record { limiter = answer.1; last_seen = now }))
        × (lookup other out.1.0.visitors ≡ found_at now other s)
        × IsMap out.1.0.visitors
  unfolding middleware
  middleware-Separate now p q next s w map apart =
      let key = jwt.uuid_string p.identity_id in
      let (answered, own, others, still) =
        allow-IsMap new_limiter allow_n now key (jwt.uuid_string q.identity_id) s map
          (keys_apart jwt laws p.identity_id q.identity_id apart) in
      elim (Bool-cases (allow new_limiter allow_n now key s).0) [
        | inl allowed ↦ rw (sym answered, allowed) (refl, own, others, still)
        | inr denied ↦ rw (sym answered, denied) (refl, own, others, still)
      ]
