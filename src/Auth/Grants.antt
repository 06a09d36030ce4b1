-- ===== src/Auth/Grants.antt =====
-- What the service promises of its refresh tokens: an abstract map from token hashes to grants, the
-- ways in which it may change, and the requests as steps of the database.
pub mod Logins
pub mod Refines
use zhyvo.Base.{ℕ, ◌≡◌, ◌≢◌, Option, none, some, Bool, ◌&&◌, ◌==◌, if◌then◌else◌}
use zhyvo.Base.Table.{find_key}
use zhyvo.Base.Text.{Text}
use zhyvo.Base.Base64.{encode_url}
use zhyvo.Schema.{Db, SessionRow}
use zhyvo.Exec.{Env, World}
use zhyvo.Auth.Types.{Jwt, Service, TelegramUser}
use zhyvo.Auth.Sessions.{is_null}
use zhyvo.Auth.Login.{create_anonymous, create_telegram}
use zhyvo.Auth.Refresh.{refresh}
use zhyvo.Auth.Revoke.{end_session}

pub record Grant : Type 0 where
  pub session_id : ℕ
  pub identity_id : ℕ
  pub expires_at : ℕ

abbrev pub Grants : Type 0
Grants = ℕ → Option Grant

abbrev pub grant_of : SessionRow → Grant
grant_of s = record { session_id = s.id; identity_id = s.identity_id; expires_at = s.expires_at }

abbrev pub grant_found : Option SessionRow → Option Grant
grant_found none = none
grant_found (some s) = if is_null s.revoked_at then some (grant_of s) else none

-- The grants that the table of sessions stands for; the rows' order, their times of use, the clients
-- and the revoked rows are forgotten.
unfoldable pub grants : Db → Grants
grants db hash = grant_found (find_key (λ s. s.token_hash) hash db.sessions)

abbrev pub ends : ℕ → ℕ → Option Grant → Option Grant
ends session_id identity_id none = none
ends session_id identity_id (some g) =
    if g.session_id == session_id && g.identity_id == identity_id then none else some g

-- How the map may change: not at all, by a grant under a new hash, by a grant that moves from one
-- hash to another, or by the end of one session of one identity.
pub data Allowed (f g : Grants) : Type 0 where
  kept : ((h : ℕ) → g h ≡ f h) → Allowed f g
  opened :
      (hash : ℕ) (new : Grant)
      → f hash ≡ none
      → ((h : ℕ) → g h ≡ (if h == hash then some new else f h))
      → Allowed f g
  moved :
      (old new : ℕ)
      → f new ≡ none
      → ((h : ℕ) → g h ≡ (if h == new then f old else if h == old then none else f h))
      → Allowed f g
  ended :
      (session_id identity_id : ℕ)
      → ((h : ℕ) → g h ≡ ends session_id identity_id (f h))
      → Allowed f g

-- One request to the service, whatever it meets.
pub data AuthStep (jwt : Jwt) (s : Service) : Db → Db → Type 0 where
  anonymous :
      (env : Env) (name client : Text) (w : World)
      → AuthStep jwt s w.db (create_anonymous jwt s env name client w).1.db
  telegram :
      (env : Env) (user : TelegramUser) (w : World)
      → AuthStep jwt s w.db (create_telegram jwt s env user w).1.db
  refreshed :
      (env : Env) (raw : Text) (w : World) → AuthStep jwt s w.db (refresh jwt s env raw w).1.db
  revoked :
      (env : Env) (session_id identity_id : ℕ) (w : World)
      → AuthStep jwt s w.db (end_session env session_id identity_id w).1.db
