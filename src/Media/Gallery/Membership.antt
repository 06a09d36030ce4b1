-- ===== src/Media/Gallery/Membership.antt =====
-- `roomMembership` and `Download` of internal/media/gallery.go.
use zhyvo.Base.{ℕ, Option, none, some, ◌&&◌, ltb, ◌==◌, if◌then◌else◌}
use zhyvo.Base.Table.{find, find_key}
use zhyvo.Base.Text.{Text}
use zhyvo.Schema.{Db, RoomRow, MemberRow, MediaRow, is_active, is_ready}
use zhyvo.Exec.{
  Env, M, pure, fail, require, attempt, query_db, ◌>>=◌, ◌>>◌, membership, room_exists, get_media,
  presign, not_member, room_not_found, room_expired, media_not_found, media_not_ready,
  service_clock,
}
use zhyvo.Media.Queries.{select_membership, slug_exists}

abbrev pub membership_missing : Env → Text → M (RoomRow × MemberRow)
membership_missing env slug = do
  exists ← query_db env room_exists (slug_exists env slug)
  if exists then fail not_member else fail room_not_found

abbrev pub check_membership : Env → Text → Option (RoomRow × MemberRow) → M (RoomRow × MemberRow)
check_membership env slug none = membership_missing env slug
check_membership env slug (some (r, m)) = do
  require (is_active r.status && ltb (env.now service_clock) r.expires_at) room_expired
  pure (r, m)

-- The room and the caller's place in it.
unfoldable pub room_membership : Env → ℕ → Text → M (RoomRow × MemberRow)
unfolding select_membership slug_exists
room_membership env identity_id slug = do
  row ← query_db env membership (select_membership env identity_id slug)
  check_membership env slug row

pub record Download : Type 0 where
  pub url : Text
  pub expires_at : ℕ
  pub filename : Text

-- `media m JOIN rooms r JOIN room_members rm`.
unfoldable pub select_download : ℕ → ℕ → Db → Option (MediaRow × RoomRow)
select_download identity_id media_id db = elim (find_key (λ m. m.id) media_id db.media) [
  | none ↦ none
  | some m ↦ elim (find_key (λ r. r.id) m.room_id db.rooms) [
    | none ↦ none
    | some r ↦ elim (find (λ a. a.room_id == r.id && a.identity_id == identity_id) db.members) [
      | none ↦ none
      | some a ↦ some (m, r)
    ]
  ]
]

abbrev pub sign_download : Env → Option (MediaRow × RoomRow) → M Download
sign_download env none = fail media_not_found
sign_download env (some (m, r)) = do
  require (is_active r.status && ltb (env.now service_clock) r.expires_at) room_expired
  require (is_ready m.status) media_not_ready
  attempt env presign
  let signed = env.get_url m.storage_key m.original_filename
  pure (record { url = signed.0; expires_at = signed.1; filename = m.original_filename })

unfoldable pub download : Env → ℕ → ℕ → M Download
download env identity_id media_id = do
  row ← query_db env get_media (select_download identity_id media_id)
  sign_download env row
