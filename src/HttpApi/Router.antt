-- ===== src/HttpApi/Router.antt =====
-- `NewRouter` of internal/httpapi/router.go: the routes of the API with what they take from the path,
-- the query, the headers and the body, and which of them ask for a session. The rate limits of some
-- routes and the middleware of chi are left out.
pub mod Guarded
pub mod Acts
pub mod Steps
use zhyvo.Base.{ℕ, List, Option, none, some, Bool, true, false, if◌then◌else◌}
use zhyvo.Base.Int.{ℤ}
use zhyvo.Base.Text.{Text, codes}
use zhyvo.Exec.{ping, find_bucket, Env, CompletedPart}
use zhyvo.Media.Types.{InitiateInput}
use zhyvo.Media.Gallery.Page.{GalleryCursor}
use zhyvo.Room.Types.{CreateInput, UpdateInput}
use zhyvo.Auth.Types.{Jwt, Service, Principal}
use zhyvo.Auth.Telegram.{Signing}
use zhyvo.HttpApi.Respond.{Handler, reply, health_body}
use zhyvo.HttpApi.Authenticate.{require_auth}
use zhyvo.HttpApi.Uploads
use zhyvo.HttpApi.Rooms
use zhyvo.HttpApi.Accounts.{
  handle_anonymous, handle_telegram, handle_refresh, handle_me, handle_logout,
}

pub data Route : Type 0 where
  post_anonymous : Option (Text × Text) → Route
  post_telegram post_refresh : Option Text → Route
  get_live get_ready get_me delete_session get_rooms : Route
  get_preview get_room get_members delete_room : Text → Route
  post_room : Text → Option CreateInput → Route
  post_join : Text → Option Text → Route
  patch_room : Text → Option UpdateInput → Route
  post_upload : Text → Text → Option InitiateInput → Route
  post_parts : Text → Option (List ℤ) → Route
  post_complete : Text → Option (List CompletedPart) → Route
  get_media : Text → Text → Text → Route
  delete_upload post_download delete_media : Text → Route

-- The routes outside the groups that use `requireAuth`.
abbrev pub is_public : Route → Bool
is_public get_live = true
is_public get_ready = true
is_public (post_anonymous body) = true
is_public (post_telegram body) = true
is_public (post_refresh body) = true
is_public (get_preview slug) = true
is_public _ = false

-- What the router was made with.
pub record Dependencies : Type 0 where
  pub jwt : Jwt
  pub service : Service
  pub signing : Signing
  pub telegram_bot_token : Text
  pub telegram_init_data_ttl : ℕ
  pub decode_cursor : Text → Option GalleryCursor

abbrev pub health_live : Handler
health_live w = (reply 200 (health_body (codes "ok") none), w)

abbrev pub unavailable : Text → Handler
unavailable dependency w = (reply 503 (health_body (codes "unavailable") (some dependency)), w)

-- `DB.Ping` and `Store.Ready`, which fails also if the bucket is missing.
abbrev pub health_ready : Env → Handler
health_ready env w =
    if env.fails ping
    then unavailable (codes "postgres") w
    else if env.fails find_bucket
    then unavailable (codes "object_storage") w
    else (reply 200 (health_body (codes "ready") none), w)

module _ (d : Dependencies) (env : Env) where
  unfoldable pub handle : Option Principal → Route → Handler
  handle c get_live = health_live
  handle c get_ready = health_ready env
  handle c (post_anonymous body) = handle_anonymous d.jwt d.service env body
  handle c (post_telegram body) =
      handle_telegram d.jwt d.service env d.signing d.telegram_bot_token d.telegram_init_data_ttl
        body
  handle c (post_refresh body) = handle_refresh d.jwt d.service env body
  handle c get_me = handle_me env c
  handle c delete_session = handle_logout env c
  handle c get_rooms = zhyvo.HttpApi.Rooms.handle_list env c
  handle c (get_preview slug) = zhyvo.HttpApi.Rooms.handle_preview env slug
  handle c (get_room slug) = zhyvo.HttpApi.Rooms.handle_get env c slug
  handle c (get_members slug) = zhyvo.HttpApi.Rooms.handle_members env c slug
  handle c (delete_room slug) = zhyvo.HttpApi.Rooms.handle_delete env c slug
  handle c (post_room key body) = zhyvo.HttpApi.Rooms.handle_create env c d.jwt key body
  handle c (post_join slug body) = zhyvo.HttpApi.Rooms.handle_join env c slug body
  handle c (patch_room slug body) = zhyvo.HttpApi.Rooms.handle_update env c slug body
  handle c (post_upload slug key body) =
      zhyvo.HttpApi.Uploads.handle_initiate d.jwt env c slug key body
  handle c (post_parts upload body) = zhyvo.HttpApi.Uploads.handle_parts d.jwt env c upload body
  handle c (post_complete upload body) =
      zhyvo.HttpApi.Uploads.handle_complete d.jwt env c upload body
  handle c (get_media slug limit cursor) =
      zhyvo.HttpApi.Uploads.handle_gallery d.jwt env c d.decode_cursor slug limit cursor
  handle c (delete_upload upload) = zhyvo.HttpApi.Uploads.handle_abort d.jwt env c upload
  handle c (post_download media) = zhyvo.HttpApi.Uploads.handle_download d.jwt env c media
  handle c (delete_media media) = zhyvo.HttpApi.Uploads.handle_delete d.jwt env c media

  -- A request with its header Authorization.
  unfoldable pub serve : Text → Route → Handler
  unfolding handle
  serve authorization route =
      if is_public route
      then handle none route
      else require_auth d.jwt d.service.tokens env (λ p. handle (some p) route) authorization
