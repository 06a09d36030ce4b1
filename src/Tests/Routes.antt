-- ===== src/Tests/Routes.antt =====
-- Requests to the API and the data of Telegram: the theorems at toy keys and at Ann's session.
use zhyvo.Base.{◌↔◌, ◌∷◌, ℕ, ◌≡◌, ◌⊎◌, refl, [], some, none, arith}
use zhyvo.Base.Text.{codes}
use zhyvo.Auth.Types.{TelegramUser}
use zhyvo.Base.{List}
use zhyvo.Base.Int.{pos}
use zhyvo.Auth.Telegram.{Values, Signing, accepted, validate_init_data}
use zhyvo.Auth.Telegram.Accepts.{Accepts, validate_init_data_iff}
use zhyvo.HttpApi.Router.{Dependencies, serve, get_rooms, post_room}
use zhyvo.HttpApi.Router.Acts.{Acts}
use zhyvo.HttpApi.Router.Steps.{serve-Acts}
use zhyvo.System.{IsFresh}
use zhyvo.Tests.Rooms.{party}
use zhyvo.HttpApi.Router.Guarded.{handler_of, serve-Guarded}
use zhyvo.HttpApi.Authenticate.Sessions.{Refused, Passes}
use zhyvo.Tests.Sample.{calm, start}
use zhyvo.Tests.Tokens.{plain, service}
use zhyvo.Tests.Accounts.{authorization}

-- A plain sum in place of HMAC, and a query with the names of Telegram.
abbrev toy_query : Values
toy_query =
    (codes "user", codes "Dan" ∷ [])
    ∷ (codes "hash", codes "0707070707070707070707070707070707070707070707070707070707070707" ∷ [])
    ∷ (codes "auth_date", codes "90" ∷ [])
    ∷ []

abbrev dan : TelegramUser
dan = record { id = pos 5; first_name = codes "Dan"; last_name = []; username = [] }

abbrev sevens : List ℕ
sevens =
    7 ∷ 7 ∷ 7 ∷ 7 ∷ 7 ∷ 7 ∷ 7 ∷ 7 ∷ 7 ∷ 7 ∷ 7 ∷ 7 ∷ 7 ∷ 7 ∷ 7 ∷ 7 ∷ 7 ∷ 7 ∷ 7 ∷ 7 ∷ 7 ∷ 7 ∷ 7 ∷ 7
    ∷ 7 ∷ 7 ∷ 7 ∷ 7 ∷ 7 ∷ 7 ∷ 7 ∷ 7 ∷ []

abbrev toy : Signing
toy = record {
  parse_query = λ raw. some toy_query;
  hmac = λ key text. sevens;
  parse_user = λ raw. some dan;
}

validate_init_data_iff_example :
    (validate_init_data toy (codes "bot") 600 100 (codes "user=Dan") ≡ accepted dan)
    ↔ Accepts toy (codes "bot") 600 100 (codes "user=Dan") dan
validate_init_data_iff_example =
    validate_init_data_iff toy (codes "bot") 600 100 (codes "user=Dan") dan

abbrev served_by : Dependencies
served_by = record {
  jwt = plain;
  service = service;
  signing = toy;
  telegram_bot_token = codes "bot";
  telegram_init_data_ttl = 600;
  decode_cursor = λ s. none;
}

serve-Guarded_example :
    let out = serve served_by calm authorization get_rooms start in
    Refused plain service.tokens calm authorization start out
    ⊎ Passes plain service.tokens calm (handler_of served_by calm get_rooms) authorization start out
serve-Guarded_example = serve-Guarded served_by calm authorization get_rooms start refl

unused_id : IsFresh calm start.db
unused_id = ((λ e. omega arith), ((λ e. omega arith), tt))

serve-Acts_example :
    Acts served_by calm start
      (serve served_by calm authorization (post_room (codes "60") (some party)))
serve-Acts_example =
    serve-Acts served_by calm start authorization (post_room (codes "60") (some party)) unused_id
