-- ===== src/Tests.antt =====
-- Concrete inputs, and the theorems applied to them.
pub mod Sample
pub mod Tokens
mod Uploads
mod Requests
mod Routes
mod Worker
mod Gallery
mod Pages
pub mod Rooms
mod Secrets
mod Limits
mod Accounts
mod Thumbnails
mod Settings
mod Histories
mod Objects
