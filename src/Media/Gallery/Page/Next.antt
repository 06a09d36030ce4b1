-- ===== src/Media/Gallery/Page/Next.antt =====
-- The pages of a gallery follow one another without a gap.
use zhyvo.Base.{
  ℕ, suc, ◌≡◌, ◌≢◌, ◌≤◌, refl, sym, ap, ◌∙◌, ◌⊎◌, inl, inr, List, [], ◌∷◌, ◌++◌, map, Option, none,
  some, Bool, true, false, ◌&&◌, ltb, take, drop, last, length, take-last, take_whole, take-map,
  take-take, length-map, length-take-suc, last-map, All, Bool-cases, subst, arith,
}
use zhyvo.Base.Order.{filter, order_by}
use zhyvo.Base.Order.Sorted.{
  All-order_by, Distinct-filter, filter-filter, filter_ext, filter-order_by, filter-behind,
  order_by-IsOrdered, IsOrdered, filter-test, All-at,
}
use zhyvo.Base.Table.{Distinct, find_key}
use zhyvo.Base.Text.{Text}
use zhyvo.Schema.{Db, MediaRow, Role}
use zhyvo.Exec.{Env, World, ok, Result-cases, get_media}
use zhyvo.Media.Gallery.Page.{
  GalleryItem, GalleryCursor, GalleryPage, newer, behind_cursor, is_shown, select_gallery,
  select_page, name_of, scan_items, sign_thumbnail, item_of, cursor_at, page_of, gallery_page,
}

newer_trans : (a b c : MediaRow) → newer a b ≡ true → newer b c ≡ true → newer a c ≡ true
newer_trans a b c h k = ground arith

newer_asym : (a b : MediaRow) → newer a b ≡ true → newer b a ≡ false
newer_asym a b h = ground arith

newer_total : (a b : MediaRow) → b.id ≢ a.id → newer a b ≡ false → newer b a ≡ true
newer_total a b apart h = ground arith

abbrev pub cursor_of : MediaRow → GalleryCursor
cursor_of m = record { created_at = m.created_at; id = m.id }

behind_newer : (x y : MediaRow) → behind_cursor (some (cursor_of x)) y ≡ newer x y
behind_newer x y = ground arith

-- Behind a row that is itself behind a cursor, every row is behind that cursor.
behind_trans :
    (c : Option GalleryCursor) (x y : MediaRow)
    → behind_cursor c x ≡ true
    → (behind_cursor c y && newer x y) ≡ newer x y
behind_trans none x y h = refl
behind_trans (some c) x y h = ground arith

and_right : (a b : Bool) → (a && b) ≡ true → b ≡ true
and_right a b h = ground arith

and_swap : (a b n d : Bool) → d ≡ n → (b && n) ≡ n → (a && d) ≡ ((a && b) && n)
and_swap true b n d e h = e ∙ sym h
and_swap false b n d e h = refl

same_rows :
    (db : Db) (room_id : ℕ) (c : Option GalleryCursor) (x : MediaRow)
    → behind_cursor c x ≡ true
    → (y : MediaRow)
    → (is_shown db room_id y && behind_cursor (some (cursor_of x)) y)
      ≡ ((is_shown db room_id y && behind_cursor c y) && newer x y)
same_rows db room_id c x behind y =
    and_swap (is_shown db room_id y) (behind_cursor c y) (newer x y)
      (behind_cursor (some (cursor_of x)) y) (behind_newer x y) (behind_trans c x y behind)

-- Behind one of its rows, the gallery goes on with what follows that row.
select_gallery-behind :
    (room_id : ℕ) (c : Option GalleryCursor) (db : Db) (pre : List MediaRow) (x : MediaRow)
    (post : List MediaRow)
    → Distinct (λ m. m.id) db.media
    → select_gallery room_id c db ≡ pre ++ (x ∷ post)
    → select_gallery room_id (some (cursor_of x)) db ≡ post
unfolding select_gallery
select_gallery-behind room_id c db pre x post ids all =
    let shown : MediaRow → Bool = λ m. is_shown db room_id m && behind_cursor c m in
    let rows = filter shown db.media in
    let distinct = Distinct-filter (λ m. m.id) shown db.media ids in
    let tests =
      subst (All (λ m. shown m ≡ true)) all
        (All-order_by (λ m. shown m ≡ true) newer rows (filter-test shown db.media)) in
    let behind : behind_cursor c x ≡ true =
      and_right (is_shown db room_id x) (behind_cursor c x)
        (All-at (λ m. shown m ≡ true) pre x post tests) in
    let ordered =
      subst (IsOrdered newer) all
        (order_by-IsOrdered newer (λ m. m.id) newer_trans newer_asym newer_total rows distinct) in
    ap (order_by newer) (
      filter_ext _ _ db.media (same_rows db room_id c x behind)
      ∙ sym (filter-filter shown (newer x) db.media))
    ∙ sym (
        filter-order_by newer (λ m. m.id) newer_trans newer_asym newer_total (newer x) rows
          distinct)
    ∙ ap (filter (newer x)) all
    ∙ filter-behind newer (λ m. m.id) newer_trans newer_asym newer_total pre x post ordered

abbrev pub item_cursor : GalleryItem → GalleryCursor
item_cursor i = record { created_at = i.created_at; id = i.id }

abbrev row_cursor : MediaRow × Text → GalleryCursor
row_cursor (m, name) = cursor_of m

scan_items-step :
    (env : Env) (identity_id : ℕ) (role : Role) (row : MediaRow × Text)
    (rows : List (MediaRow × Text)) (w : World) (items : List GalleryItem)
    → (scan_items env identity_id role (row ∷ rows) w).0 ≡ ok items
    → (url : Option Text) × (rest : List GalleryItem) × (v : World) × ((scan_items env identity_id
          role rows v).0
        ≡ ok rest)
      × (item_of identity_id role row url ∷ rest ≡ items)
unfolding scan_items
scan_items-step env identity_id role row rows w items h =
    let signed = sign_thumbnail env row.0.thumbnail_key w in
    elim (Result-cases signed.0) [
      | inl (e, failed) ↦ absurd (ground arith)
      | inr (url, done) ↦ elim (Result-cases (scan_items env identity_id role rows signed.1).0) [
        | inl (e, failed) ↦ absurd (ground arith)
        | inr (rest, scanned) ↦ (url, rest, signed.1, scanned, ground arith)
      ]
    ]

scan_items-cursors :
    (env : Env) (identity_id : ℕ) (role : Role) (rows : List (MediaRow × Text)) (w : World)
    (items : List GalleryItem)
    → (scan_items env identity_id role rows w).0 ≡ ok items
    → map item_cursor items ≡ map row_cursor rows
unfolding scan_items
scan_items-cursors env identity_id role [] w [] h = refl
scan_items-cursors env identity_id role [] w (i ∷ items) h = absurd (ground arith)
scan_items-cursors env identity_id role (row ∷ rows) w items h =
    let (url, rest, v, scanned, is) = scan_items-step env identity_id role row rows w items h in
    ap (map item_cursor) (sym is)
    ∙ ap (λ l. row_cursor row ∷ l) (scan_items-cursors env identity_id role rows v rest scanned)

cursor_at-last : (items : List GalleryItem) → cursor_at (last items) ≡ last (map item_cursor items)
cursor_at-last [] = refl
cursor_at-last (i ∷ []) = refl
cursor_at-last (i ∷ j ∷ items) = cursor_at-last (j ∷ items)

page_rows-cursors :
    (named : MediaRow → Text) (rows : List MediaRow)
    → map row_cursor (map (λ m. (m, named m)) rows) ≡ map cursor_of rows
page_rows-cursors named [] = refl
page_rows-cursors named (m ∷ rows) = ap (λ l. cursor_of m ∷ l) (page_rows-cursors named rows)

-- The page over rows `all`, from items that show the first of them.
page_of-next :
    (n : ℕ) (items : List GalleryItem) (all : List MediaRow)
    → map item_cursor items ≡ map cursor_of (take (suc (suc n)) all)
    → (map item_cursor (page_of (suc n) items).items ≡ map cursor_of (take (suc n) all))
      × (((page_of (suc n) items).next_cursor ≡ none) × (length all ≤ suc n)
          ⊎ ((pre : List MediaRow) × (x : MediaRow) × (post : List MediaRow) × ((page_of
                  (suc n)
                  items).next_cursor
                ≡ some (cursor_of x))
              × (all ≡ pre ++ (x ∷ post))
              × (drop (suc n) all ≡ post)))
unfolding page_of
page_of-next n items all shown =
    let size : length items ≡ length (take (suc (suc n)) all) =
      sym (length-map item_cursor items)
      ∙ ap length shown
      ∙ length-map cursor_of (take (suc (suc n)) all) in
    let first : map item_cursor (take (suc n) items) ≡ map cursor_of (take (suc n) all) =
      sym (take-map item_cursor (suc n) items)
      ∙ ap (take (suc n)) shown
      ∙ take-map cursor_of (suc n) (take (suc (suc n)) all)
      ∙ ap (map cursor_of) (take-take (suc n) all) in
    elim (Bool-cases (ltb (suc n) (length items))) [
      | inl more ↦
          let many : suc (suc n) ≤ length all =
            (length-take-suc (suc n) all).0 (ground (arith, size)) in
          let (pre, x, post, whole, taken, rest) = take-last n all (omega (arith, many)) in
          rw more (
            first,
            inr (
              pre,
              x,
              post,
              cursor_at-last (take (suc n) items)
                  ∙ ap last (first ∙ ap (map cursor_of) taken)
                  ∙ last-map cursor_of pre x,
              whole,
              rest,
            ),
          )
      | inr few ↦
          let short : length all ≤ suc n = elim (Bool-cases (ltb (suc n) (length all))) [
            | inl more ↦
                let many = (length-take-suc (suc n) all).1 (ground (arith, more)) in
                absurd (ground (arith, size, many, few))
            | inr less ↦ ground (arith, less)
          ] in
          rw few (
            shown
                ∙ ap (map cursor_of) (
                    take_whole (suc (suc n)) all (omega (arith, short))
                    ∙ sym (take_whole (suc n) all short)),
            inl (refl, short),
          )
    ]

-- A page of at least one row that is returned, for media with distinct identifiers, shows the newest
-- media of the room behind its cursor, up to the limit. It has no next cursor only if these are all;
-- otherwise the media behind the next cursor are exactly those that the page left out.
pub gallery_page-next :
    (env : Env) (identity_id room_id : ℕ) (role : Role) (n : ℕ) (c : Option GalleryCursor)
    (w : World) (page : GalleryPage)
    → Distinct (λ m. m.id) w.db.media
    → (gallery_page env identity_id room_id role (suc n) c w).0 ≡ ok page
    → (map item_cursor page.items ≡ map cursor_of (take (suc n) (select_gallery room_id c w.db)))
      × (((page.next_cursor ≡ none) × (length (select_gallery room_id c w.db) ≤ suc n))
          ⊎ ((c' : GalleryCursor) × (page.next_cursor ≡ some c')
              × (select_gallery room_id (some c') w.db
                  ≡ drop (suc n) (select_gallery room_id c w.db))))
unfolding gallery_page select_page
gallery_page-next env identity_id room_id role n c w page ids h =
    let all = select_gallery room_id c w.db in
    let rows = select_page room_id c (suc n) w.db in
    elim (Bool-cases (env.fails get_media)) [
      | inl broken ↦ absurd (ground arith)
      | inr works ↦ elim (Result-cases (scan_items env identity_id role rows w).0) [
        | inl (e, failed) ↦ absurd (ground arith)
        | inr (items, scanned) ↦
            let is : page_of (suc n) items ≡ page = ground arith in
            let named : MediaRow → Text =
              λ m. name_of (find_key (λ i. i.id) m.uploader_identity_id w.db.identities) in
            let shown =
              scan_items-cursors env identity_id role rows w items scanned
              ∙ page_rows-cursors named (take (suc (suc n)) all) in
            let (first, rest) = page_of-next n items all shown in
            (
              ap (λ p. map item_cursor p.items) (sym is) ∙ first,
              elim rest [
                | inl (end, few) ↦ inl (ap (λ p. p.next_cursor) (sym is) ∙ end, few)
                | inr (pre, x, post, next, whole, left) ↦ inr (
                  cursor_of x,
                  ap (λ p. p.next_cursor) (sym is) ∙ next,
                  select_gallery-behind room_id c w.db pre x post ids whole ∙ sym left,
                )
              ],
            )
      ]
    ]
