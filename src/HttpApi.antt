-- ===== src/HttpApi.antt =====
-- internal/httpapi: the rate limiter, the authentication of requests and the handlers.
pub mod RateLimit
pub mod Respond
pub mod Authenticate
pub mod Uploads
pub mod Rooms
pub mod Accounts
pub mod Router
