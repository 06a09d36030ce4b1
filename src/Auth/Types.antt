-- ===== src/Auth/Types.antt =====
-- The types of package `auth`, and the functions of other packages that it calls.
use zhyvo.Base.{ℕ, ◌≡◌, ◌≤◌, ◌<◌, ◌+◌, Option, some}
use zhyvo.Base.Int.{ℤ}
use zhyvo.Base.Text.{Text}

pub record Principal : Type 0 where
  pub identity_id : ℕ
  pub session_id : ℕ
  pub kind : Text

pub record Identity : Type 0 where
  pub id : ℕ
  pub kind : Text
  pub display_name : Text

pub record SessionTokens : Type 0 where
  pub identity : Identity
  pub access_token : Text
  pub access_token_expiry : ℕ
  pub refresh_token : Text
  pub refresh_expiry : ℕ

-- `accessClaims`, with the registered claims spread out.
pub record AccessClaims : Type 0 where
  pub session_id : Text
  pub kind : Text
  pub issuer : Text
  pub subject : Text
  pub audience : Text
  pub issued_at : ℕ
  pub not_before : ℕ
  pub expires_at : ℕ
  pub id : Text

-- The fields of `TelegramUser` that are read.
pub record TelegramUser : Type 0 where
  pub id : ℤ
  pub first_name : Text
  pub last_name : Text
  pub username : Text

-- What the package calls of golang-jwt and google/uuid: `SignedString` with HS256,
-- `ParseWithClaims` for that method with an audience, an issuer, a leeway and a time, and the text
-- of an identifier.
pub record Jwt : Type 0 where
  pub signed_string : Text → AccessClaims → Option Text
  pub parse_with_claims : Text → Text → Text → ℕ → ℕ → Text → Option AccessClaims
  pub uuid_string : ℕ → Text
  pub uuid_parse : Text → Option ℕ

-- Their documented behaviour: a signed token is read back with the same secret, audience and issuer,
-- from its start to its end with the leeway, and no token is read later than that.
pub record IsJwt (jwt : Jwt) : Type 0 where
  pub parsed :
      (secret : Text) (leeway now : ℕ) (raw : Text) (c : AccessClaims)
      → jwt.signed_string secret c ≡ some raw
      → c.not_before ≤ now + leeway
      → now < c.expires_at + leeway
      → jwt.parse_with_claims secret c.audience c.issuer leeway now raw ≡ some c
  pub expired :
      (secret audience issuer : Text) (leeway now : ℕ) (raw : Text) (c c' : AccessClaims)
      → jwt.signed_string secret c ≡ some raw
      → jwt.parse_with_claims secret audience issuer leeway now raw ≡ some c'
      → now < c.expires_at + leeway
  pub read_back : (id : ℕ) → jwt.uuid_parse (jwt.uuid_string id) ≡ some id

pub record TokenManager : Type 0 where
  pub secret : Text
  pub ttl : ℕ
  pub issuer : Text

pub record Service : Type 0 where
  pub tokens : TokenManager
  pub refresh_ttl : ℕ
