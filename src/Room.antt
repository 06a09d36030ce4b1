-- ===== src/Room.antt =====
-- internal/room: rooms, their members and their secrets.
pub mod Types
pub mod Validate
pub mod Slug
pub mod Password
pub mod Queries
pub mod Create
pub mod Join
pub mod Manage
pub mod Access
pub mod Owner
pub mod Sound
