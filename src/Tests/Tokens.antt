-- ===== src/Tests/Tokens.antt =====
-- A plain encoding, in characters above 255, in place of signed tokens, which shows that the laws of `Jwt` can hold.
use zhyvo.Base.{
  ℕ, ◌+◌, ◌-◌, ◌≡◌, ◌≤◌, ◌<◌, refl, sym, ap, [], ◌∷◌, ◌++◌, Option, none, some, ◌&&◌, ltb, leb,
  length, take, drop, subst, arith, if◌then◌else◌,
}
use mathlib.Core.Option.{some-injective}
use zhyvo.Base.Text.{Text, codes, text_eq, text_eq_refl}
use zhyvo.Auth.Types.{AccessClaims, Jwt, IsJwt, Service}

abbrev put : Text → Text → Text
put s rest = (length s + 256) ∷ (s ++ rest)

abbrev first : Text → Text
first [] = []
first (n ∷ r) = take (n - 256) r

abbrev others : Text → Text
others [] = []
others (n ∷ r) = drop (n - 256) r

take-append : (s r : Text) → take (length s) (s ++ r) ≡ s
take-append [] r = ground arith
take-append (c ∷ s) r = ap (λ x. c ∷ x) (take-append s r)

drop-append : (s r : Text) → drop (length s) (s ++ r) ≡ r
drop-append [] r = ground arith
drop-append (c ∷ s) r = drop-append s r

abbrev written : Text → AccessClaims → Text
written secret c =
    (c.issued_at + 256)
    ∷ (c.not_before + 256)
    ∷ (c.expires_at + 256)
    ∷ put secret (
        put c.session_id (put c.kind (put c.issuer (put c.subject (put c.audience (put c.id []))))))

abbrev read_fields : ℕ → ℕ → ℕ → Text → AccessClaims
read_fields issued begun ends r = record {
  session_id = first r;
  kind = first (others r);
  issuer = first (others (others r));
  subject = first (others (others (others r)));
  audience = first (others (others (others (others r))));
  issued_at = issued - 256;
  not_before = begun - 256;
  expires_at = ends - 256;
  id = first (others (others (others (others (others r)))));
}

abbrev read_token : Text → Option (Text × AccessClaims)
read_token (issued ∷ begun ∷ ends ∷ r) = some (first r, read_fields issued begun ends (others r))
read_token _ = none

shift : (n : ℕ) → n + 256 - 256 ≡ n
shift n = omega arith

read_token-written :
    (secret : Text) (c : AccessClaims) → read_token (written secret c) ≡ some (secret, c)
read_token-written secret c =
    rw
      (
        shift c.issued_at,
        shift c.not_before,
        shift c.expires_at,
        shift (length secret),
        take-append secret _,
        drop-append secret _,
        shift (length c.session_id),
        take-append c.session_id _,
        drop-append c.session_id _,
        shift (length c.kind),
        take-append c.kind _,
        drop-append c.kind _,
        shift (length c.issuer),
        take-append c.issuer _,
        drop-append c.issuer _,
        shift (length c.subject),
        take-append c.subject _,
        drop-append c.subject _,
        shift (length c.audience),
        take-append c.audience _,
        drop-append c.audience _,
        shift (length c.id),
        take-append c.id _,
      )
      refl

abbrev accepted : Text → Text → Text → ℕ → ℕ → Option (Text × AccessClaims) → Option AccessClaims
accepted secret audience issuer leeway now none = none
accepted secret audience issuer leeway now (some (signer, c)) =
    if text_eq signer secret
      && text_eq c.audience audience
      && text_eq c.issuer issuer
      && leb c.not_before (now + leeway)
      && ltb now (c.expires_at + leeway)
    then some c
    else none

abbrev one_code : Text → Option ℕ
one_code (n ∷ []) = some (n - 256)
one_code _ = none

abbrev pub plain : Jwt
plain = record {
  signed_string = λ secret c. some (written secret c);
  parse_with_claims = λ secret audience issuer leeway now raw.
      accepted secret audience issuer leeway now (read_token raw);
  uuid_string = λ n. (n + 256) ∷ [];
  uuid_parse = one_code;
}

accepted-unended :
    (secret audience issuer : Text) (leeway now : ℕ) (signer : Text) (c c' : AccessClaims)
    → accepted secret audience issuer leeway now (some (signer, c)) ≡ some c'
    → now < c.expires_at + leeway
accepted-unended secret audience issuer leeway now signer c c' h = ground arith

accepted-own :
    (secret : Text) (leeway now : ℕ) (c : AccessClaims)
    → c.not_before ≤ now + leeway
    → now < c.expires_at + leeway
    → accepted secret c.audience c.issuer leeway now (some (secret, c)) ≡ some c
accepted-own secret leeway now c begun unended =
    rw (text_eq_refl secret, text_eq_refl c.audience, text_eq_refl c.issuer) (ground arith)

pub plain-IsJwt : IsJwt plain
plain-IsJwt = record {
  parsed = λ secret leeway now raw c signed begun unended.
      subst (λ r. plain.parse_with_claims secret c.audience c.issuer leeway now r ≡ some c)
        (some-injective _ _ signed)
        (subst (λ x. accepted secret c.audience c.issuer leeway now x ≡ some c)
          (sym (read_token-written secret c)) (accepted-own secret leeway now c begun unended));
  expired = λ secret audience issuer leeway now raw c c' signed parsed.
      accepted-unended secret audience issuer leeway now secret c c' (
        subst (λ x. accepted secret audience issuer leeway now x ≡ some c')
          (read_token-written secret c)
          (subst (λ r. plain.parse_with_claims secret audience issuer leeway now r ≡ some c')
            (sym (some-injective _ _ signed)) parsed));
  read_back = λ id. ap some (shift id);
}

abbrev pub service : Service
service = record {
  tokens = record { secret = codes "k"; ttl = 900; issuer = codes "photodrop" };
  refresh_ttl = 2592000;
}
