-- ===== src/Media/Gallery/Browse.antt =====
-- `Gallery` of internal/media/gallery.go; the text of a cursor is read by a parameter.
pub mod Reads
use zhyvo.Base.{ℕ, [], Option, none, some, ◌||◌, not, if◌then◌else◌}
use zhyvo.Base.Int.{ℤ, pos, pos_part, ltb_ℤ}
use zhyvo.Base.Text.{Text, text_eq}
use zhyvo.Exec.{Env, M, pure, fail, require, ◌>>=◌, ◌>>◌, invalid_input}
use zhyvo.Media.Gallery.Membership.{room_membership}
use zhyvo.Media.Gallery.Page.{GalleryCursor, GalleryPage, gallery_page}

abbrev pub known_cursor : Option GalleryCursor → M (Option GalleryCursor)
known_cursor none = fail invalid_input
known_cursor (some cursor) = pure (some cursor)

abbrev pub read_cursor : (Text → Option GalleryCursor) → Text → M (Option GalleryCursor)
read_cursor decode raw = if text_eq raw [] then pure none else known_cursor (decode raw)

unfoldable pub gallery : (Text → Option GalleryCursor) → Env → ℕ → Text → ℤ → Text → M GalleryPage
gallery decode env identity_id slug limit raw = do
  require (not (ltb_ℤ limit (pos 1) || ltb_ℤ (pos 100) limit)) invalid_input
  (r, m) ← room_membership env identity_id slug
  cursor ← read_cursor decode raw
  gallery_page env identity_id r.id m.role (pos_part limit) cursor
