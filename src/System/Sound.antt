-- ===== src/System/Sound.antt =====
-- Whatever runs, and in whatever order, the counters of every room stay true.
use zhyvo.Base.{sym, inl, inr, List, Bool-cases, subst}
use zhyvo.Schema.{Db, IdentityRow, SessionRow}
use zhyvo.Exec.{revoke}
use zhyvo.Capacity.{IsSound}
use zhyvo.Media.Initiate.Sound.{initiate-IsSound}
use zhyvo.Media.PartUrls.Sound.{part_urls-IsSound}
use zhyvo.Media.Complete.Sound.{complete-IsSound}
use zhyvo.Media.Release.Sound.{abort-IsSound}
use zhyvo.Media.Gallery.Delete.Sound.{delete-IsSound}
use zhyvo.Room.Create.Sound.{create-IsSound}
use zhyvo.Room.Sound.{join-IsSound, update-IsSound, delete_room-IsSound}
use zhyvo.Cleanup.Sound.{run_batch-IsSound}
use zhyvo.Thumbnail.Sound.{render_batch-IsSound}
use zhyvo.Auth.Types.{Jwt, Service}
use zhyvo.Auth.Sessions.{rotate_hash, revoke_session}
use zhyvo.Auth.Revoke.{end_session}
use zhyvo.Auth.Refresh.Rotates.{refresh-Outcome}
use zhyvo.Auth.Grants.{AuthStep, anonymous, telegram, refreshed, revoked}
use zhyvo.Auth.Grants.Logins.{Opened, create_anonymous-Opened, create_telegram-Opened}
use zhyvo.System.{
  Step, Reach, here, next, start, sign, finish, give_up, remove_media, open_room, enter_room,
  change_room, close_room, clean, render, log, empty,
}

-- The counters do not depend on the accounts.
accounts-IsSound :
    (db : Db) (is : List IdentityRow) (ss : List SessionRow)
    → IsSound db
    → IsSound (record db { identities = is; sessions = ss })
accounts-IsSound db is ss sound = record {
  room_ids = sound.room_ids;
  media_ids = sound.media_ids;
  upload_ids = sound.upload_ids;
  upload_media = sound.upload_media;
  rooms = sound.rooms;
  uploads = sound.uploads;
}

Opened-IsSound : (db db' : Db) → IsSound db → Opened db db' → IsSound db'
Opened-IsSound db db' sound o = subst IsSound (sym o.others) (accounts-IsSound db _ _ sound)

AuthStep-IsSound :
    (jwt : Jwt) (s : Service) {db db' : Db} → AuthStep jwt s db db' → IsSound db → IsSound db'
unfolding rotate_hash end_session revoke_session
AuthStep-IsSound jwt s (anonymous env name client w) sound =
    elim (create_anonymous-Opened jwt s env name client w) [
      | inl same ↦ subst IsSound (sym same) sound
      | inr more ↦ Opened-IsSound _ _ sound more
    ]
AuthStep-IsSound jwt s (telegram env user w) sound =
    elim (create_telegram-Opened jwt s env user w) [
      | inl same ↦ subst IsSound (sym same) sound
      | inr more ↦ Opened-IsSound _ _ sound more
    ]
AuthStep-IsSound jwt s (refreshed env raw w) sound = elim (refresh-Outcome jwt s env raw w) [
  | inl (e, same) ↦ subst IsSound (sym same) sound
  | inr (r, issued) ↦ subst IsSound (sym r.written) (accounts-IsSound w.db _ _ sound)
]
AuthStep-IsSound jwt s (revoked env session_id identity_id w) sound =
    elim (Bool-cases (env.fails revoke)) [
      | inl broken ↦ rw broken sound
      | inr works ↦ rw works (accounts-IsSound w.db _ _ sound)
    ]

Step-IsSound :
    (jwt : Jwt) (s : Service) {db db' : Db} → Step jwt s db db' → IsSound db → IsSound db'
Step-IsSound jwt s (start env identity_id key slug input w) sound =
    initiate-IsSound env identity_id key slug input w sound
Step-IsSound jwt s (sign env identity_id upload_id numbers w) sound =
    part_urls-IsSound env identity_id upload_id numbers w sound
Step-IsSound jwt s (finish env identity_id upload_id parts w) sound =
    complete-IsSound env identity_id upload_id parts w sound
Step-IsSound jwt s (give_up env identity_id upload_id w) sound =
    abort-IsSound env identity_id upload_id w sound
Step-IsSound jwt s (remove_media env identity_id media_id w) sound =
    delete-IsSound env identity_id media_id w sound
Step-IsSound jwt s (open_room env owner_id key input w fresh) sound =
    create-IsSound env owner_id key input w fresh sound
Step-IsSound jwt s (enter_room env identity_id slug secret w) sound =
    join-IsSound env identity_id slug secret w sound
Step-IsSound jwt s (change_room env identity_id slug input w) sound =
    update-IsSound env identity_id slug input w sound
Step-IsSound jwt s (close_room env identity_id slug w) sound =
    delete_room-IsSound env identity_id slug w sound
Step-IsSound jwt s (clean envs n envs' n' w) sound = run_batch-IsSound envs n envs' n' w sound
Step-IsSound jwt s (render envs n w) sound = render_batch-IsSound envs n w sound
Step-IsSound jwt s (log auth) sound = AuthStep-IsSound jwt s auth sound

empty-IsSound : IsSound empty
empty-IsSound = record {
  room_ids = tt;
  media_ids = tt;
  upload_ids = tt;
  upload_media = tt;
  rooms = tt;
  uploads = tt;
}

-- In every database that the requests of all services and the batches of both workers can make of an
-- empty one, in any order and with any failures, the counters of every room are the sums over its
-- media, within its limits, and the upload sessions are in step with their media.
pub Reach-IsSound : (jwt : Jwt) (s : Service) {db : Db} → Reach jwt s empty db → IsSound db
Reach-IsSound jwt s here = empty-IsSound
Reach-IsSound jwt s (next before step) = Step-IsSound jwt s step (Reach-IsSound jwt s before)
