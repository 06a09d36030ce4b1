-- ===== src/Media/Gallery/Page.antt =====
-- The page of `Gallery` in internal/media/gallery.go: the query behind a cursor, its items, and the
-- cursor of the next page. A cursor is the time and the identifier that it stands for.
pub mod Next
use zhyvo.Base.{
  ℕ, suc, List, [], ◌∷◌, Option, none, some, Bool, true, false, ◌&&◌, ◌||◌, ltb, ◌==◌, any, take,
  length, last, map, if◌then◌else◌,
}
use zhyvo.Base.Order.{filter, order_by}
use zhyvo.Base.Table.{find_key}
use zhyvo.Base.Text.{Text, codes}
use zhyvo.Schema.{Db, MediaRow, IdentityRow, MediaType, Role, ObjectKey, is_ready, is_owner}
use zhyvo.Exec.{Env, M, pure, query_db, attempt, get_media, presign, ◌>>=◌, ◌>>◌}

pub record Uploader : Type 0 where
  pub id : ℕ
  pub display_name : Text

pub record MediaPermissions : Type 0 where
  pub can_delete : Bool

-- Without the width, the height and the duration, which no code here sets.
pub record GalleryItem : Type 0 where
  pub id : ℕ
  pub media_type : MediaType
  pub mime_type : Text
  pub original_filename : Text
  pub size_bytes : ℕ
  pub captured_at : Option ℕ
  pub created_at : ℕ
  pub thumbnail_url : Option Text
  pub thumbnail_status : Text
  pub uploaded_by : Uploader
  pub permissions : MediaPermissions

pub record GalleryCursor : Type 0 where
  pub created_at : ℕ
  pub id : ℕ

pub record GalleryPage : Type 0 where
  pub items : List GalleryItem
  pub next_cursor : Option GalleryCursor
  pub has_more : Bool

-- `ORDER BY m.created_at DESC, m.id DESC`.
abbrev pub newer : MediaRow → MediaRow → Bool
newer a b = ltb b.created_at a.created_at || (a.created_at == b.created_at && ltb b.id a.id)

-- `(m.created_at, m.id) < …`, for a cursor that is there.
abbrev pub behind_cursor : Option GalleryCursor → MediaRow → Bool
behind_cursor none m = true
behind_cursor (some c) m =
    ltb m.created_at c.created_at || (m.created_at == c.created_at && ltb m.id c.id)

-- The media that a page of the room can show; `JOIN identities` finds the uploader.
abbrev pub is_shown : Db → ℕ → MediaRow → Bool
is_shown db room_id m =
    m.room_id == room_id
    && is_ready m.status
    && any (λ i. i.id == m.uploader_identity_id) db.identities

-- The query of the gallery, before its LIMIT.
unfoldable pub select_gallery : ℕ → Option GalleryCursor → Db → List MediaRow
select_gallery room_id cursor db =
    order_by newer (filter (λ m. is_shown db room_id m && behind_cursor cursor m) db.media)

abbrev pub name_of : Option IdentityRow → Text
name_of none = []
name_of (some i) = i.display_name

-- The thumbnail's URL, which `PresignGet` may refuse.
abbrev pub sign_thumbnail : Env → Option ObjectKey → M (Option Text)
sign_thumbnail env none = pure none
sign_thumbnail env (some key) = do attempt env presign; pure (some (env.get_url key []).0)

abbrev status_of : Option Text → Text
status_of none = codes "pending"
status_of (some url) = codes "ready"

-- A page's rows, each with its uploader's name, and one more than the limit if there is one.
unfoldable pub select_page : ℕ → Option GalleryCursor → ℕ → Db → List (MediaRow × Text)
unfolding select_gallery
select_page room_id cursor limit db =
    map (λ m. (m, name_of (find_key (λ i. i.id) m.uploader_identity_id db.identities)))
      (take (suc limit) (select_gallery room_id cursor db))

abbrev pub item_of : ℕ → Role → MediaRow × Text → Option Text → GalleryItem
item_of identity_id role (m, name) url = record {
  id = m.id;
  media_type = m.media_type;
  mime_type = m.mime_type;
  original_filename = m.original_filename;
  size_bytes = m.size_bytes;
  captured_at = m.captured_at;
  created_at = m.created_at;
  thumbnail_url = url;
  thumbnail_status = status_of url;
  uploaded_by = record { id = m.uploader_identity_id; display_name = name };
  permissions = record { can_delete = is_owner role || m.uploader_identity_id == identity_id };
}

-- The loop over the rows.
unfoldable pub scan_items : Env → ℕ → Role → List (MediaRow × Text) → M (List GalleryItem)
scan_items env identity_id role [] = pure []
scan_items env identity_id role (row ∷ rows) =
    let rest = scan_items env identity_id role rows in
    do
      url ← sign_thumbnail env row.0.thumbnail_key
      items ← rest
      pure (item_of identity_id role row url ∷ items)

abbrev pub cursor_at : Option GalleryItem → Option GalleryCursor
cursor_at none = none
cursor_at (some item) = some (record { created_at = item.created_at; id = item.id })

-- What is returned, for the items of at most one row more than the limit.
unfoldable pub page_of : ℕ → List GalleryItem → GalleryPage
page_of limit items =
    if ltb limit (length items)
    then record {
      items = take limit items;
      next_cursor = cursor_at (last (take limit items));
      has_more = true;
    }
    else record { items = items; next_cursor = none; has_more = false }

-- The query, the items and the page, for a member of the room and a cursor that was read.
unfoldable pub gallery_page : Env → ℕ → ℕ → Role → ℕ → Option GalleryCursor → M GalleryPage
unfolding select_page scan_items page_of
gallery_page env identity_id room_id role limit cursor = do
  rows ← query_db env get_media (select_page room_id cursor limit)
  items ← scan_items env identity_id role rows
  pure (page_of limit items)
