-- ===== src/Tests/Pages.antt =====
-- A gallery of two files, one to a page.
use zhyvo.Base.{[], ◌∷◌, ◌≡◌, ◌≤◌, ◌⊎◌, refl, none, some, true, map, take, drop, length, arith}
use zhyvo.Base.Order.{filter, order_by}
use zhyvo.Base.Table.{find_key}
use zhyvo.Base.Text.{codes}
use zhyvo.Schema.{MediaRow, owner, image}
use zhyvo.Exec.{World}
use zhyvo.Media.Gallery.Page.{
  GalleryPage, GalleryCursor, select_gallery, select_page, scan_items, page_of, gallery_page,
}
use zhyvo.Media.Gallery.Page.Next.{item_cursor, cursor_of, gallery_page-next}
use zhyvo.Tests.Sample.{calm, start, shared, photo}

abbrev second : MediaRow
second = record photo { id = 25; uploader_identity_id = 11; created_at = 9 }

abbrev two_files : World
two_files = record start { db = record shared { media = photo ∷ second ∷ [] } }

abbrev first_page : GalleryPage
first_page = record {
  items =
      record {
        id = 25;
        media_type = image;
        mime_type = codes "image/jpeg";
        original_filename = codes "a.jpg";
        size_bytes = 5000;
        captured_at = none;
        created_at = 9;
        thumbnail_url = none;
        thumbnail_status = codes "pending";
        uploaded_by = record { id = 11; display_name = codes "Bob" };
        permissions = record { can_delete = true };
      }
      ∷ [];
  next_cursor = some (record { created_at = 9; id = 25 });
  has_more = true;
}

gallery_page-next_example :
    (map item_cursor first_page.items ≡ map cursor_of (take 1 (select_gallery 1 none two_files.db)))
    × (((first_page.next_cursor ≡ none) × (length (select_gallery 1 none two_files.db) ≤ 1))
        ⊎ ((c' : GalleryCursor) × (first_page.next_cursor ≡ some c')
            × (select_gallery 1 (some c') two_files.db
                ≡ drop 1 (select_gallery 1 none two_files.db))))
unfolding gallery_page select_page select_gallery scan_items page_of filter order_by find_key
gallery_page-next_example =
    gallery_page-next calm 10 1 owner 0 none two_files first_page ((λ e. omega arith, tt), (tt, tt))
      refl
