-- ===== src/Auth.antt =====
-- internal/auth: identities, sessions and their tokens.
pub mod Types
pub mod Token
pub mod Telegram
pub mod Sessions
pub mod Login
pub mod Refresh
pub mod Revoke
pub mod Grants
