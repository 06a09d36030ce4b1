-- ===== src/Auth/Revoke.antt =====
-- `GetIdentity`, `Revoke` and `SessionIsActive` of internal/auth/service.go.
pub mod Ends
use zhyvo.Base.{ℕ, Option, none, some, Bool}
use zhyvo.Base.Table.{find_key}
use zhyvo.Schema.{IdentityRow}
use zhyvo.Exec.{
  Env, M, pure, fail, query_db, exec_db, ◌>>=◌, get_identity, revoke, check_session,
  identity_missing, database_clock,
}
use zhyvo.Auth.Types.{Identity, Principal}
use zhyvo.Auth.Sessions.{identity_of, revoke_session, has_session}

-- `none` is `pgx.ErrNoRows`.
abbrev pub found_identity : Option IdentityRow → M Identity
found_identity none = fail identity_missing
found_identity (some i) = pure (identity_of i)

unfoldable pub load_identity : Env → ℕ → M Identity
load_identity env identity_id = do
  row ← query_db env get_identity (λ db. find_key (λ i. i.id) identity_id db.identities)
  found_identity row

unfoldable pub end_session : Env → ℕ → ℕ → M (Unit {0})
end_session env session_id identity_id =
    exec_db env revoke (revoke_session (env.now database_clock) session_id identity_id)

unfoldable pub session_is_active : Env → Principal → M Bool
session_is_active env p = query_db env check_session (has_session (env.now database_clock) p)
