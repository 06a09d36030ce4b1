-- ===== src/Media/Gallery/Browse/Reads.antt =====
-- The gallery and the downloads write nothing to the database.
use zhyvo.Base.{ℕ, List, [], ◌∷◌, refl, none, some, Option, not, ◌||◌, Bool-cases, inl, inr, arith}
use zhyvo.Base.Int.{ℤ, pos, pos_part, ltb_ℤ}
use zhyvo.Base.Text.{Text}
use zhyvo.Schema.{RoomRow, MemberRow, MediaRow, Role, ObjectKey}
use zhyvo.Exec.{Env, pure, require, ◌>>=◌, invalid_input, get_media}
use zhyvo.Exec.Reads.{Reads, bind-Reads}
use zhyvo.Media.Gallery.Membership.{room_membership, check_membership, download, sign_download}
use zhyvo.Media.Gallery.Page.{
  GalleryItem, GalleryCursor, gallery_page, scan_items, sign_thumbnail, page_of, item_of,
  select_page,
}
use zhyvo.Media.Gallery.Browse.{gallery, read_cursor}

check_membership-Reads :
    (env : Env) (slug : Text) (o : Option (RoomRow × MemberRow))
    → Reads (check_membership env slug o)
check_membership-Reads env slug none w = ground arith
check_membership-Reads env slug (some (r, m)) w = ground arith

room_membership-Reads :
    (env : Env) (identity_id : ℕ) (slug : Text) → Reads (room_membership env identity_id slug)
unfolding room_membership
room_membership-Reads env identity_id slug w = ground (arith, check_membership-Reads env slug)

sign_download-Reads : (env : Env) (o : Option (MediaRow × RoomRow)) → Reads (sign_download env o)
sign_download-Reads env none w = refl
sign_download-Reads env (some (m, r)) w = ground arith

pub download-Reads :
    (env : Env) (identity_id media_id : ℕ) → Reads (download env identity_id media_id)
unfolding download
download-Reads env identity_id media_id w = ground (arith, sign_download-Reads env)

sign_thumbnail-Reads : (env : Env) (o : Option ObjectKey) → Reads (sign_thumbnail env o)
sign_thumbnail-Reads env none w = refl
sign_thumbnail-Reads env (some key) w = ground arith

scan_items-Reads :
    (env : Env) (identity_id : ℕ) (role : Role) (rows : List (MediaRow × Text))
    → Reads (scan_items env identity_id role rows)
unfolding scan_items
scan_items-Reads env identity_id role [] = λ w. refl
scan_items-Reads env identity_id role (row ∷ rows) =
    let keep = λ (url : Option Text) (items : List GalleryItem).
      pure (item_of identity_id role row url ∷ items) in
    bind-Reads (sign_thumbnail env row.0.thumbnail_key)
      (λ url. scan_items env identity_id role rows >>= keep url)
      (sign_thumbnail-Reads env row.0.thumbnail_key)
      (λ url.
        bind-Reads (scan_items env identity_id role rows) (keep url)
          (scan_items-Reads env identity_id role rows) (λ items w. refl))

gallery_page-Reads :
    (env : Env) (identity_id room_id : ℕ) (role : Role) (limit : ℕ) (c : Option GalleryCursor)
    → Reads (gallery_page env identity_id room_id role limit c)
unfolding gallery_page
gallery_page-Reads env identity_id room_id role limit c w =
    elim (Bool-cases (env.fails get_media)) [
      | inl broken ↦ rw broken refl
      | inr works ↦ rw works (
          bind-Reads (scan_items env identity_id role (select_page room_id c limit w.db))
            (λ items. pure (page_of limit items))
            (scan_items-Reads env identity_id role (select_page room_id c limit w.db))
            (λ items w. refl) w)
    ]

read_cursor-Reads :
    (decode : Text → Option GalleryCursor) (raw : Text) → Reads (read_cursor decode raw)
read_cursor-Reads decode raw w = ground arith

pub gallery-Reads :
    (decode : Text → Option GalleryCursor) (env : Env) (identity_id : ℕ) (slug : Text) (limit : ℤ)
    (raw : Text)
    → Reads (gallery decode env identity_id slug limit raw)
unfolding gallery
gallery-Reads decode env identity_id slug limit raw =
    let page =
      λ (r : RoomRow × MemberRow). gallery_page env identity_id r.0.id r.1.role (pos_part limit) in
    let rest = λ (r : RoomRow × MemberRow). read_cursor decode raw >>= page r in
    bind-Reads (require (not (ltb_ℤ limit (pos 1) || ltb_ℤ (pos 100) limit)) invalid_input)
      (λ _. room_membership env identity_id slug >>= rest) (λ w. refl)
      (λ _.
        bind-Reads (room_membership env identity_id slug) rest
          (room_membership-Reads env identity_id slug)
          (λ r.
            bind-Reads (read_cursor decode raw) (page r) (read_cursor-Reads decode raw)
              (gallery_page-Reads env identity_id r.0.id r.1.role (pos_part limit))))
