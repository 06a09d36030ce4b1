-- ===== src/Media.antt =====
-- internal/media: uploads, their completion and release, and the media of a room.
pub mod Types
pub mod Validate
pub mod Parts
pub mod Queries
pub mod Current
pub mod Initiate
pub mod Release
pub mod PartUrls
pub mod Complete
pub mod Gallery
