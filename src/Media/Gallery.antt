-- ===== src/Media/Gallery.antt =====
-- internal/media/gallery.go.
pub mod Membership
pub mod Delete
pub mod Page
pub mod Browse
