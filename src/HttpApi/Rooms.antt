-- ===== src/HttpApi/Rooms.antt =====
-- internal/httpapi/room_handler.go.
use zhyvo.Base.{List, ◌++◌, Option}
use zhyvo.Base.Text.{Text, codes}
use zhyvo.Exec.{
  Env, Error, invalid_input, not_found, room_expired, access_denied, not_member, owner_required,
  idempotency_conflict,
}
use zhyvo.Room.Types.{CreateInput, UpdateInput, Room, Preview, Member}
use zhyvo.Room.Create.{create}
use zhyvo.Room.Join.{join}
use zhyvo.Room.Manage.{update, delete}
use zhyvo.Room.Queries.{preview, list, get, members}
use zhyvo.Auth.Types.{Jwt, Principal}
use zhyvo.HttpApi.Respond.{
  Response, Handler, reply, refusal, no_body, room_body, shared_body, rooms_body, members_body,
  preview_body, answer, with_principal, with_input, with_id,
}

-- `roomHandler.writeError`.
unfoldable pub room_error : Error → Response
room_error invalid_input = refusal 422 (codes "VALIDATION_ERROR")
room_error not_found = refusal 404 (codes "ROOM_NOT_FOUND")
room_error room_expired = refusal 410 (codes "ROOM_EXPIRED")
room_error access_denied = refusal 403 (codes "ROOM_ACCESS_DENIED")
room_error not_member = refusal 403 (codes "ROOM_MEMBERSHIP_REQUIRED")
room_error owner_required = refusal 403 (codes "ROOM_OWNER_REQUIRED")
room_error idempotency_conflict = refusal 409 (codes "IDEMPOTENCY_CONFLICT")
room_error _ = refusal 500 (codes "INTERNAL_ERROR")

abbrev pub share : Room → Response
share r = reply 201 (shared_body r (codes "/r/" ++ r.slug))

abbrev pub show : Room → Response
show r = reply 200 (room_body r)

unfoldable pub handle_preview : Env → Text → Handler
handle_preview env slug =
    answer (preview env slug) room_error (λ (p : Preview). reply 200 (preview_body p))

module _ (env : Env) (context : Option Principal) where
  unfoldable pub handle_create : Jwt → Text → Option CreateInput → Handler
  handle_create jwt key body = with_principal context λ p.
      with_id (jwt.uuid_parse key) 400 (codes "INVALID_IDEMPOTENCY_KEY")
        λ k. with_input body λ input. answer (create env p.identity_id k input) room_error share

  unfoldable pub handle_list : Handler
  handle_list = with_principal context λ p.
      answer (list env p.identity_id) room_error
        (λ (rooms : List Room). reply 200 (rooms_body rooms))

  -- The body of a join is its secret.
  unfoldable pub handle_join : Text → Option Text → Handler
  handle_join slug body =
      with_principal context
        λ p. with_input body λ secret. answer (join env p.identity_id slug secret) room_error show

  unfoldable pub handle_get : Text → Handler
  handle_get slug = with_principal context λ p. answer (get env p.identity_id slug) room_error show

  unfoldable pub handle_members : Text → Handler
  handle_members slug = with_principal context λ p.
      answer (members env p.identity_id slug) room_error
        (λ (all : List Member). reply 200 (members_body all))

  unfoldable pub handle_update : Text → Option UpdateInput → Handler
  handle_update slug body =
      with_principal context
        λ p. with_input body λ input. answer (update env p.identity_id slug input) room_error show

  unfoldable pub handle_delete : Text → Handler
  handle_delete slug =
      with_principal context
        λ p. answer (delete env p.identity_id slug) room_error (λ _. reply 202 no_body)
