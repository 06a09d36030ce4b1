-- ===== src/Tests/Histories.antt =====
-- A room that is opened, joined and used, from an empty database on.
use zhyvo.Base.{[]}
use zhyvo.Base.Text.{codes, trim_space, text_eq}
use zhyvo.Exec.{World}
use zhyvo.Capacity.{IsSound}
use zhyvo.Room.Create.{create}
use zhyvo.Room.Join.{join}
use zhyvo.Auth.Login.{create_anonymous, new_refresh_token, open_session, issue}
use zhyvo.Auth.Token.{issue_token, claims_of}
use zhyvo.Auth.Sessions.{identity_refused, put_identity, session_refused, put_session}
use zhyvo.Base.Base64.{encode_url, encode}
use zhyvo.Auth.Grants.{anonymous}
use zhyvo.System.{Reach, here, next, open_room, enter_room, log, start, empty, IsFresh}
use zhyvo.System.Sound.{Reach-IsSound}
use zhyvo.Media.Initiate.{initiate}
use zhyvo.Tests.Sample.{calm, small_photo}
use zhyvo.Tests.Rooms.{party}
use zhyvo.Tests.Tokens.{plain, service}

abbrev first_world : World
first_world = record { db = empty; tx = empty; calls = [] }

abbrev logged : World
logged = (create_anonymous plain service calm (codes "Cleo") (codes "web") first_world).1

abbrev opened : World
opened = (create calm 12 60 party logged).1

abbrev joined : World
joined = (join calm 13 (codes "2z2a96") (codes "1234") opened).1

abbrev started : World
started = (initiate calm 13 70 (codes "2Z2A96") small_photo joined).1

fresh : IsFresh calm logged.db
unfolding create_anonymous new_refresh_token open_session issue issue_token claims_of trim_space
    identity_refused put_identity session_refused put_session text_eq encode_url encode
fresh = tt

history : Reach plain service empty started.db
history =
    next
      (next
        (next (next here (log (anonymous calm (codes "Cleo") (codes "web") first_world)))
          (open_room calm 12 60 party logged fresh))
        (enter_room calm 13 (codes "2z2a96") (codes "1234") opened))
      (start calm 13 70 (codes "2Z2A96") small_photo joined)

Reach-IsSound_example : IsSound started.db
Reach-IsSound_example = Reach-IsSound plain service history
