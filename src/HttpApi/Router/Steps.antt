-- ===== src/HttpApi/Router/Steps.antt =====
-- A request to the API is at most one step of the database.
use zhyvo.Base.{ap, ◌≡◌, refl, sym, inl, inr, none, some, false, arith, Bool-cases, subst}
use zhyvo.Base.Text.{Text}
use zhyvo.Exec.{Env, World}
use zhyvo.Media.Gallery.Browse.Reads.{download-Reads}
use zhyvo.Room.Queries.Reads.{get-Reads, list-Reads, members-Reads}
use zhyvo.Auth.Types.{Principal}
use zhyvo.Room.Queries.{get, list, members}
use zhyvo.Auth.Revoke.{load_identity, end_session}
use zhyvo.Media.Release.{abort}
use zhyvo.Media.Gallery.Membership.{download}
use zhyvo.Media.Gallery.Delete
use zhyvo.Room.Join.{join}
use zhyvo.Room.Manage
use zhyvo.Auth.Grants.{revoked}
use zhyvo.HttpApi.Respond.{Response}
use zhyvo.HttpApi.Uploads.{
  handle_initiate, handle_parts, handle_complete, handle_abort, handle_gallery, handle_download,
  with_limit, limit_of,
}
use zhyvo.HttpApi.Rooms.{handle_create}
use zhyvo.HttpApi.Rooms
use zhyvo.HttpApi.Uploads
use zhyvo.HttpApi.Accounts.{handle_me, handle_logout}
use zhyvo.HttpApi.Router.{
  Dependencies, Route, handle, serve, is_public, get_me, delete_session, get_rooms, get_room,
  get_members, delete_room, post_room, post_join, patch_room, post_upload, post_parts,
  post_complete, get_media, delete_upload, post_download, delete_media,
}
use zhyvo.HttpApi.Authenticate.Sessions.{Refused-world}
use zhyvo.HttpApi.Router.Guarded.{serve-Guarded}
use zhyvo.System.{Step, IsFresh, give_up, remove_media, enter_room, change_room, close_room, log}
use zhyvo.HttpApi.Router.Acts.{
  Acts, keeps, steps, with_id-Acts, answer-Step, answer-Reads, load_identity-Reads, public-Acts,
  handle_initiate-Acts, handle_parts-Acts, handle_complete-Acts, handle_create-Acts,
  handle_gallery-Acts,
}

module _ (d : Dependencies) (env : Env) (w : World) where
  guarded-Acts :
      (p : Principal) (route : Route)
      → is_public route ≡ false
      → IsFresh env w.db
      → Acts d env w (handle d env (some p) route)
  unfolding handle handle_me handle_logout zhyvo.HttpApi.Rooms.handle_list
      zhyvo.HttpApi.Rooms.handle_get zhyvo.HttpApi.Rooms.handle_members
      zhyvo.HttpApi.Rooms.handle_delete zhyvo.HttpApi.Rooms.handle_join
      zhyvo.HttpApi.Rooms.handle_update handle_abort handle_download
      zhyvo.HttpApi.Uploads.handle_delete
  guarded-Acts p get_me guarded fresh =
      answer-Reads d env w (load_identity env p.identity_id) _ _
        (load_identity-Reads env p.identity_id)
  guarded-Acts p delete_session guarded fresh =
      answer-Step d env w (end_session env p.session_id p.identity_id) _ _
        (log (revoked env p.session_id p.identity_id w))
  guarded-Acts p get_rooms guarded fresh =
      answer-Reads d env w (list env p.identity_id) _ _ (list-Reads env p.identity_id)
  guarded-Acts p (get_room slug) guarded fresh =
      answer-Reads d env w (get env p.identity_id slug) _ _ (get-Reads env p.identity_id slug)
  guarded-Acts p (get_members slug) guarded fresh =
      answer-Reads d env w (members env p.identity_id slug) _ _
        (members-Reads env p.identity_id slug)
  guarded-Acts p (delete_room slug) guarded fresh =
      answer-Step d env w (zhyvo.Room.Manage.delete env p.identity_id slug) _ _
        (close_room env p.identity_id slug w)
  guarded-Acts p (post_room key body) guarded fresh = handle_create-Acts d env w p key body fresh
  guarded-Acts p (post_join slug none) guarded fresh = keeps refl
  guarded-Acts p (post_join slug (some secret)) guarded fresh =
      answer-Step d env w (join env p.identity_id slug secret) _ _
        (enter_room env p.identity_id slug secret w)
  guarded-Acts p (patch_room slug none) guarded fresh = keeps refl
  guarded-Acts p (patch_room slug (some input)) guarded fresh =
      answer-Step d env w (zhyvo.Room.Manage.update env p.identity_id slug input) _ _
        (change_room env p.identity_id slug input w)
  guarded-Acts p (post_upload slug key body) guarded fresh =
      handle_initiate-Acts d env w p slug key body
  guarded-Acts p (post_parts upload body) guarded fresh = handle_parts-Acts d env w p upload body
  guarded-Acts p (post_complete upload body) guarded fresh =
      handle_complete-Acts d env w p upload body
  guarded-Acts p (get_media slug limit cursor) guarded fresh =
      handle_gallery-Acts d env w p slug limit cursor
  guarded-Acts p (delete_upload upload) guarded fresh =
      with_id-Acts d env w (d.jwt.uuid_parse upload) _ _ _
        λ id. answer-Step d env w (abort env p.identity_id id) _ _ (give_up env p.identity_id id w)
  guarded-Acts p (post_download media) guarded fresh =
      with_id-Acts d env w (d.jwt.uuid_parse media) _ _ _ λ id.
        answer-Reads d env w (download env p.identity_id id) _ _
          (download-Reads env p.identity_id id)
  guarded-Acts p (delete_media media) guarded fresh =
      with_id-Acts d env w (d.jwt.uuid_parse media) _ _ _ λ id.
        answer-Step d env w (zhyvo.Media.Gallery.Delete.delete env p.identity_id id) _ _
          (remove_media env p.identity_id id w)
  guarded-Acts p _ guarded fresh = absurd (ground arith)

  -- Every request to the API, with any header, path and body, leaves the database as it is or takes
  -- it along one step of the system; a new room must get an identifier that no media row has.
  pub serve-Acts :
      (authorization : Text) (route : Route)
      → IsFresh env w.db
      → Acts d env w (serve d env authorization route)
  unfolding serve
  serve-Acts authorization route fresh = elim (Bool-cases (is_public route)) [
    | inl free ↦ rw free (public-Acts d env w route free)
    | inr guarded ↦ elim (serve-Guarded d env authorization route w guarded) [
      | inl refused ↦
          keeps (ap (λ (v : World). v.db) (Refused-world d.jwt d.service.tokens env refused))
      | inr passes ↦ elim (guarded-Acts passes.principal route guarded fresh) [
        | keeps same ↦ keeps (rw passes.served same)
        | steps step ↦ steps (
            subst (λ (out : Response × World). Step d.jwt d.service w.db out.1.db)
              (sym passes.served) step)
      ]
    ]
  ]
