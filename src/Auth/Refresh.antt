-- ===== src/Auth/Refresh.antt =====
-- `Refresh` of internal/auth/service.go: a refresh token is exchanged for the next one.
pub mod Rotates
pub mod Once
use zhyvo.Base.{ℕ, Option, none, some, Bool, ◌&&◌, ◌||◌, not, ltb, ◌==◌, any}
use zhyvo.Base.Text.{Text, byte_length}
use zhyvo.Schema.{Db, IdentityRow, SessionRow}
use zhyvo.Exec.{
  Env, M, fail, require, begin_tx, commit_tx, query, exec, ◌>>=◌, ◌>>◌, find_session, rotate,
  invalid_refresh_token, service_clock, database_clock,
}
use zhyvo.Auth.Types.{Jwt, Service, SessionTokens}
use zhyvo.Auth.Sessions.{select_session, rotate_hash, is_current, identity_of}
use zhyvo.Auth.Login.{new_refresh_token, issue}

abbrev pub is_token_size : Text → Bool
is_token_size raw = not (ltb (byte_length raw) 32 || ltb 256 (byte_length raw))

-- The new hash meets the unique index, in a row that is not the one that changes.
abbrev pub rotation_refused : ℕ → ℕ → ℕ → Db → Bool
rotation_refused id old new db =
    any (λ s. s.token_hash == new && not (is_current id old s)) db.sessions

module _ (jwt : Jwt) (s : Service) (env : Env) where
  abbrev pub rotate_found : ℕ → Text → ℕ → Option (SessionRow × IdentityRow) → M SessionTokens
  rotate_found old token new none = fail invalid_refresh_token
  rotate_found old token new (some (row, i)) = do
    met ← query env rotate (λ db. any (is_current row.id old) db.sessions)
    exec env rotate (rotation_refused row.id old new)
        (rotate_hash row.id old new (env.now service_clock))
    require met invalid_refresh_token
    commit_tx env
    issue jwt s env (identity_of i) row.id token row.expires_at

  unfoldable pub rotate_locked : ℕ → Text → ℕ → M SessionTokens
  rotate_locked old token new = do
    begin_tx env
    found ← query env find_session (select_session (env.now database_clock) old)
    rotate_found old token new found

  unfoldable pub refresh : Text → M SessionTokens
  unfolding rotate_locked new_refresh_token
  refresh raw = do
    require (is_token_size raw) invalid_refresh_token
    (token, new) ← new_refresh_token env
    rotate_locked (env.sha256 raw) token new
