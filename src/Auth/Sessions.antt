-- ===== src/Auth/Sessions.antt =====
-- The statements of internal/auth/service.go on `identities` and `sessions`.
pub mod Rotated
use zhyvo.Base.{
  ℕ, List, [], ◌∷◌, Option, none, some, Bool, true, false, ◌&&◌, ◌||◌, not, ltb, leb, ◌==◌, any,
  if◌then◌else◌,
}
use zhyvo.Base.Table.{find, find_key}
use zhyvo.Base.Text.{Text, codes}
use zhyvo.Schema.{Db, IdentityRow, SessionRow, holds}
use zhyvo.Auth.Types.{Identity, Principal}

abbrev pub is_null {ℓ} : {A : Type ℓ} → Option A → Bool
is_null none = true
is_null (some a) = false

-- `revoked_at IS NULL AND expires_at > now()`.
abbrev pub is_live : ℕ → SessionRow → Bool
is_live now s = is_null s.revoked_at && ltb now s.expires_at

abbrev pub join_holder : Db → SessionRow → Option (SessionRow × IdentityRow)
join_holder db s = elim (find_key (λ i. i.id) s.identity_id db.identities) [
  | none ↦ none
  | some i ↦ some (s, i)
]

abbrev pub live_holder : ℕ → Db → Option SessionRow → Option (SessionRow × IdentityRow)
live_holder now db none = none
live_holder now db (some s) = if is_live now s then join_holder db s else none

-- The session of a token hash, which a unique index keeps apart, while it lasts.
unfoldable pub select_session : ℕ → ℕ → Db → Option (SessionRow × IdentityRow)
select_session now hash db = live_holder now db (find_key (λ s. s.token_hash) hash db.sessions)

-- `INSERT INTO sessions` meets its primary key, the index of the hashes and the check of its times.
unfoldable pub session_refused : SessionRow → Db → Bool
session_refused s db =
    any (λ a. a.id == s.id) db.sessions
    || any (λ a. a.token_hash == s.token_hash) db.sessions
    || leb s.expires_at s.created_at

unfoldable pub put_session : SessionRow → Db → Db
put_session s db = record db { sessions = s ∷ db.sessions }

unfoldable pub identity_refused : IdentityRow → Db → Bool
identity_refused i db = any (λ a. a.id == i.id) db.identities

unfoldable pub put_identity : IdentityRow → Db → Db
put_identity i db = record db { identities = i ∷ db.identities }

abbrev pub is_telegram : ℕ → IdentityRow → Bool
is_telegram telegram_id i = holds i.telegram_user_id telegram_id

unfoldable pub greet : ℕ → Text → ℕ → List IdentityRow → List IdentityRow
greet telegram_id name now [] = []
greet telegram_id name now (i ∷ rows) =
    (if is_telegram telegram_id i then record i { display_name = name; last_seen_at = now } else i)
    ∷ greet telegram_id name now rows

-- `INSERT INTO identities … ON CONFLICT (telegram_user_id) … DO UPDATE`.
unfoldable pub upsert_telegram : ℕ → IdentityRow → Db → Db
unfolding greet
upsert_telegram telegram_id i db = record db {
  identities =
      if any (is_telegram telegram_id) db.identities
      then greet telegram_id i.display_name i.last_seen_at db.identities
      else i ∷ db.identities;
}

-- `RETURNING id, kind, display_name`.
abbrev pub select_telegram : ℕ → Db → Option IdentityRow
select_telegram telegram_id db = find (is_telegram telegram_id) db.identities

abbrev pub identity_of : IdentityRow → Identity
identity_of i = record { id = i.id; kind = i.kind; display_name = i.display_name }

-- `WHERE id = $3 AND token_hash = $4`.
abbrev pub is_current : ℕ → ℕ → SessionRow → Bool
is_current id hash s = s.id == id && s.token_hash == hash

unfoldable pub rotate_rows : ℕ → ℕ → ℕ → ℕ → List SessionRow → List SessionRow
rotate_rows id old new now [] = []
rotate_rows id old new now (s ∷ rows) =
    (if is_current id old s then record s { token_hash = new; last_used_at = now } else s)
    ∷ rotate_rows id old new now rows

unfoldable pub rotate_hash : ℕ → ℕ → ℕ → ℕ → Db → Db
unfolding rotate_rows
rotate_hash id old new now db = record db { sessions = rotate_rows id old new now db.sessions }

-- `WHERE id = $1 AND identity_id = $2 AND revoked_at IS NULL`.
abbrev pub is_revocable : ℕ → ℕ → SessionRow → Bool
is_revocable id identity_id s = s.id == id && s.identity_id == identity_id && is_null s.revoked_at

unfoldable pub revoke_rows : ℕ → ℕ → ℕ → List SessionRow → List SessionRow
revoke_rows now id identity_id [] = []
revoke_rows now id identity_id (s ∷ rows) =
    (if is_revocable id identity_id s then record s { revoked_at = some now } else s)
    ∷ revoke_rows now id identity_id rows

unfoldable pub revoke_session : ℕ → ℕ → ℕ → Db → Db
unfolding revoke_rows
revoke_session now id identity_id db = record db {
  sessions = revoke_rows now id identity_id db.sessions;
}

abbrev pub is_session_of : ℕ → Principal → SessionRow → Bool
is_session_of now p s = s.id == p.session_id && s.identity_id == p.identity_id && is_live now s

-- `SELECT EXISTS (…)` of `SessionIsActive`.
unfoldable pub has_session : ℕ → Principal → Db → Bool
has_session now p db = any (is_session_of now p) db.sessions
