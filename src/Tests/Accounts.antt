-- ===== src/Tests/Accounts.antt =====
-- Sessions and tokens: the theorems at Ann's session and at a new login.
use zhyvo.Base.{
  ltb, not, ◌&&◌, ◌==◌, ℕ, ◌+◌, ◌<◌, ◌≡◌, ◌≢◌, refl, [], ◌++◌, some, none, true, arith,
  if◌then◌else◌,
}
use zhyvo.Base.Text.{Text, codes, text_eq, trim_space, to_lower, byte_length}
use zhyvo.Base.Base64.{encode_url, encode}
use zhyvo.Base.Table.{find_key}
use zhyvo.Schema.{IdentityRow, SessionRow}
use zhyvo.Exec.{Env, World, Result, ok, err, Error, service_clock, database_clock}
use zhyvo.Auth.Types.{Principal, SessionTokens}
use zhyvo.Auth.Token.{issue_token, parse, leeway, claims_of}
use zhyvo.Auth.Token.Parse.{parse-issue_token}
use zhyvo.Auth.Sessions.{
  select_session, has_session, identity_of, rotate_hash, revoke_session, put_session, put_identity,
  session_refused, identity_refused,
}
use zhyvo.Auth.Sessions.Rotated.{rotated}
use zhyvo.Auth.Login.{create_anonymous, new_refresh_token, open_session, issue}
use zhyvo.Auth.Refresh.{refresh, rotate_locked, is_token_size}
use zhyvo.Auth.Refresh.Once.{refresh_once, refresh-Continues}
use zhyvo.Auth.Revoke.{end_session}
use zhyvo.Auth.Revoke.Ends.{end_session-Ends, unless_of}
use zhyvo.Auth.Grants.{Allowed, grants, anonymous}
use zhyvo.Auth.Grants.Refines.{AuthStep-Allowed}
use zhyvo.Auth.Refresh.Rotates.{HasTokens}
use zhyvo.HttpApi.Respond.{Handler, reply, refuse, no_body}
use zhyvo.HttpApi.Authenticate.{require_auth, fields, bearer_of}
use zhyvo.HttpApi.Authenticate.Sessions.{Refused, handle_logout-Refused}
use zhyvo.HttpApi.Authenticate.Serves.{create_anonymous-served}
use zhyvo.HttpApi.Accounts.{handle_logout}
use zhyvo.Tests.Sample.{calm, start, shared}
use zhyvo.Tests.Tokens.{plain, plain-IsJwt, service}

abbrev ok_or : Result SessionTokens → SessionTokens → SessionTokens
ok_or (ok t) other = t
ok_or (err e) other = other

abbrev no_tokens : SessionTokens
no_tokens = record {
  identity = record { id = 0; kind = []; display_name = [] };
  access_token = [];
  access_token_expiry = 0;
  refresh_token = [];
  refresh_expiry = 0;
}

-- Ann's refresh token.
abbrev raw : Text
raw = codes "0123456789abcdef0123456789abcdef"

abbrev known : Env
known = record calm { sha256 = λ s. if text_eq s raw then 500 else 9 }

abbrev tokens : SessionTokens
tokens = ok_or (refresh plain service known raw start).0 no_tokens

refreshed : (refresh plain service known raw start).0 ≡ ok tokens
unfolding refresh rotate_locked new_refresh_token issue issue_token select_session rotate_hash
    encode_url encode text_eq byte_length find_key claims_of
refreshed = refl

shared-HasTokens : HasTokens shared
shared-HasTokens = (((λ e. omega arith), tt), (tt, tt))

hashes_differ : known.sha256 (encode_url known.refresh_bytes) ≢ known.sha256 raw
unfolding encode_url encode text_eq
hashes_differ e = omega arith

refresh_once_example :
    let after = (refresh plain service known raw start).1 in
    let again = refresh plain service known raw after in
    ((e : Error) × (again.0 ≡ err e)) × (again.1.db ≡ after.db)
refresh_once_example =
    refresh_once plain service known raw start tokens shared-HasTokens hashes_differ refreshed
      service known refl

lasting : 101 < tokens.refresh_expiry
unfolding refresh rotate_locked new_refresh_token issue issue_token select_session rotate_hash
    encode_url encode text_eq byte_length find_key claims_of
lasting = omega arith

refresh-Continues_example :
    (row : SessionRow) × (holder : IdentityRow) × (select_session
        (known.now database_clock)
        (known.sha256 raw)
        start.db
      ≡ some (row, holder))
    × (tokens.identity ≡ identity_of holder)
    × (tokens.refresh_expiry ≡ row.expires_at)
    × (byte_length tokens.refresh_token ≡ 43)
    × (is_token_size tokens.refresh_token ≡ true)
    × (select_session 101
          (known.sha256 tokens.refresh_token)
          (refresh plain service known raw start).1.db
        ≡ some (
          rotated row.id
              (known.sha256 raw)
              (known.sha256 tokens.refresh_token)
              (known.now service_clock)
              row,
          holder,
        ))
refresh-Continues_example =
    refresh-Continues plain service known raw start tokens shared-HasTokens hashes_differ refreshed
      101 lasting (omega arith) refl

abbrev access_of : Result (Text × ℕ) → Text
access_of (ok t) = t.0
access_of (err e) = []

abbrev ann_principal : Principal
ann_principal = record { identity_id = 10; session_id = 50; kind = codes "anonymous" }

abbrev ann_token : Text
ann_token = access_of (issue_token plain service.tokens calm ann_principal start).0

issued : (issue_token plain service.tokens calm ann_principal start).0 ≡ ok (ann_token, 1000)
unfolding issue_token claims_of
issued = refl

parse-issue_token_example :
    parse plain service.tokens 200 ann_token
    ≡ (if ltb 200 (1000 + leeway) then some ann_principal else none)
parse-issue_token_example =
    parse-issue_token plain plain-IsJwt service.tokens calm ann_principal start ann_token 1000 200
      (λ e. absurd (ground arith)) issued (omega arith)

ended : (end_session calm 50 10 start).0 ≡ ok tt
unfolding end_session
ended = refl

end_session-Ends_example :
    let after = (end_session calm 50 10 start).1.db in
    (has_session 100 ann_principal after ≡ (
      not (ann_principal.session_id == 50 && ann_principal.identity_id == 10)
      && has_session 100 ann_principal start.db))
    × (select_session 100 500 after ≡ unless_of 50 10 (select_session 100 500 start.db))
end_session-Ends_example = end_session-Ends calm 50 10 start ended 100 500 ann_principal

AuthStep-Allowed_example :
    let after = (create_anonymous plain service calm (codes " Cleo ") (codes "ios") start).1.db in
    Allowed (grants shared) (grants after) × HasTokens after
AuthStep-Allowed_example =
    AuthStep-Allowed plain service (anonymous calm (codes " Cleo ") (codes "ios") start)
      shared-HasTokens

abbrev teapot : Principal → Handler
teapot p = refuse 418 (codes "TEAPOT")

abbrev logged_out : World
logged_out = (end_session calm 50 10 start).1

gone : handle_logout calm (some ann_principal) start ≡ (reply 204 no_body, logged_out)
unfolding handle_logout end_session revoke_session
gone = refl

abbrev pub authorization : Text
authorization = codes "Bearer " ++ ann_token

carried : bearer_of (fields authorization) ≡ some ann_token
unfolding fields to_lower text_eq issue_token claims_of
carried = refl

valid : parse plain service.tokens 100 ann_token ≡ some ann_principal
unfolding parse text_eq issue_token claims_of
valid = refl

handle_logout-Refused_example :
    Refused plain service.tokens calm authorization logged_out
      (require_auth plain service.tokens calm teapot authorization logged_out)
handle_logout-Refused_example =
    handle_logout-Refused plain service.tokens calm teapot calm ann_principal start logged_out gone
      authorization ann_token ann_principal carried valid refl refl

abbrev cleo : SessionTokens
cleo = ok_or (create_anonymous plain service calm (codes " Cleo ") (codes "ios") start).0 no_tokens

logged_in : (create_anonymous plain service calm (codes " Cleo ") (codes "ios") start).0 ≡ ok cleo
unfolding create_anonymous new_refresh_token open_session issue issue_token claims_of trim_space
    identity_refused put_identity session_refused put_session text_eq encode_url encode
logged_in = refl

abbrev cleo_header : Text
cleo_header = codes "Bearer " ++ cleo.access_token

cleo_carried : bearer_of (fields cleo_header) ≡ some cleo.access_token
unfolding fields to_lower text_eq create_anonymous new_refresh_token open_session issue issue_token
    claims_of trim_space identity_refused put_identity session_refused put_session encode_url encode
cleo_carried = refl

create_anonymous-served_example :
    let after = (create_anonymous plain service calm (codes " Cleo ") (codes "ios") start).1 in
    let p : Principal = record {
      identity_id = cleo.identity.id;
      session_id = 52;
      kind = codes "anonymous";
    } in
    require_auth plain service.tokens calm teapot cleo_header after ≡ teapot p after
unfolding create_anonymous new_refresh_token open_session issue issue_token claims_of trim_space
    identity_refused put_identity session_refused put_session text_eq encode_url encode
create_anonymous-served_example =
    create_anonymous-served plain plain-IsJwt service calm (codes " Cleo ") (codes "ios") start cleo
      logged_in calm teapot cleo_header cleo_carried refl (omega arith) (omega arith) (omega arith)
