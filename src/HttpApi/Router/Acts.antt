-- ===== src/HttpApi/Router/Acts.antt =====
-- What the handlers do to the database.
use zhyvo.Base.{
  Option-cases, List, [], ℕ, ◌≡◌, refl, sym, inl, inr, Option, none, some, true, arith, Bool-cases,
  subst,
}
use zhyvo.Base.Int.{ℤ}
use zhyvo.Base.Text.{Text, text_eq}
use zhyvo.Exec.{CompletedPart, Env, World, M, Error, Result-cases}
use zhyvo.Exec.Reads.{Reads}
use zhyvo.Media.Gallery.Browse.Reads.{gallery-Reads}
use zhyvo.Room.Queries.Reads.{preview-Reads}
use zhyvo.Media.Types.{InitiateInput}
use zhyvo.Auth.Types.{Principal}
use zhyvo.Media.Initiate.{initiate}
use zhyvo.Auth.Login.{create_anonymous, create_telegram}
use zhyvo.Auth.Refresh.{refresh}
use zhyvo.Room.Queries.{preview}
use zhyvo.Auth.Revoke.{load_identity}
use zhyvo.Media.PartUrls.{part_urls}
use zhyvo.Media.Complete.{complete}
use zhyvo.Media.Gallery.Browse.{gallery}
use zhyvo.Room.Create.{create}
use zhyvo.Room.Types.{CreateInput}
use zhyvo.Auth.Telegram.{Checked, accepted, invalid, outdated}
use zhyvo.Auth.Grants.{anonymous, telegram, refreshed}
use zhyvo.HttpApi.Respond.{Response, Handler, answer, with_id}
use zhyvo.HttpApi.Uploads.{handle_initiate, handle_parts, handle_complete, handle_gallery, limit_of}
use zhyvo.HttpApi.Rooms.{handle_create}
use zhyvo.HttpApi.Rooms
use zhyvo.HttpApi.Accounts.{handle_anonymous, handle_telegram, handle_refresh, login_checked}
use zhyvo.HttpApi.Router.{
  Dependencies, Route, handle, is_public, post_anonymous, get_live, get_ready, post_telegram,
  post_refresh, get_preview,
}
use zhyvo.System.{Step, IsFresh, start, sign, finish, open_room, log}

answer-world :
    {A : Type 0} (m : M A) (failed : Error → Response) (done : A → Response) (w : World)
    → (answer m failed done w).1 ≡ (m w).1
answer-world m failed done w = elim (Result-cases (m w).0) [
  | inl (e, is) ↦ rw is refl
  | inr (a, is) ↦ rw is refl
]

pub load_identity-Reads : (env : Env) (identity_id : ℕ) → Reads (load_identity env identity_id)
unfolding load_identity
load_identity-Reads env identity_id w = ground arith

module _ (d : Dependencies) (env : Env) (w : World) where
  -- What a request may do to the database: nothing, or one step of the system.
  pub data Acts (h : Handler) : Type 0 where
    keeps : (h w).1.db ≡ w.db → Acts h
    steps : Step d.jwt d.service w.db (h w).1.db → Acts h

  pub with_id-Acts :
      (o : Option ℕ) (status : ℕ) (code : Text) (next : ℕ → Handler)
      → ((id : ℕ) → Acts (next id))
      → Acts (with_id o status code next)
  with_id-Acts none status code next acts = keeps refl
  with_id-Acts (some id) status code next acts = acts id

  pub answer-Step :
      {A : Type 0} (m : M A) (failed : Error → Response) (done : A → Response)
      → Step d.jwt d.service w.db (m w).1.db
      → Acts (answer m failed done)
  answer-Step m failed done step = steps (
      subst (λ (w' : World). Step d.jwt d.service w.db w'.db) (sym (answer-world m failed done w))
        step)

  pub answer-Reads :
      {A : Type 0} (m : M A) (failed : Error → Response) (done : A → Response)
      → Reads m
      → Acts (answer m failed done)
  answer-Reads m failed done reads = keeps (rw (answer-world m failed done w) (reads w))

  login_checked-Acts : (c : Checked) → Acts (login_checked d.jwt d.service env c)
  login_checked-Acts invalid = keeps refl
  login_checked-Acts outdated = keeps refl
  login_checked-Acts (accepted user) =
      answer-Step (create_telegram d.jwt d.service env user) _ _ (log (telegram env user w))

  handle_telegram-Acts :
      (body : Option Text)
      → Acts (
          handle_telegram d.jwt d.service env d.signing d.telegram_bot_token
            d.telegram_init_data_ttl body)
  unfolding handle_telegram
  handle_telegram-Acts none = elim (Bool-cases (text_eq d.telegram_bot_token [])) [
    | inl missing ↦ rw missing (keeps refl)
    | inr set ↦ rw set (keeps refl)
  ]
  handle_telegram-Acts (some raw) = elim (Bool-cases (text_eq d.telegram_bot_token [])) [
    | inl missing ↦ rw missing (keeps refl)
    | inr set ↦ rw set (login_checked-Acts _)
  ]

  pub public-Acts : (route : Route) → is_public route ≡ true → Acts (handle d env none route)
  unfolding handle handle_anonymous handle_refresh zhyvo.HttpApi.Rooms.handle_preview
  public-Acts get_live free = keeps refl
  public-Acts get_ready free = keeps (ground arith)
  public-Acts (post_anonymous none) free = keeps refl
  public-Acts (post_anonymous (some input)) free =
      answer-Step (create_anonymous d.jwt d.service env input.0 input.1) _ _
        (log (anonymous env input.0 input.1 w))
  public-Acts (post_telegram body) free = handle_telegram-Acts body
  public-Acts (post_refresh none) free = keeps refl
  public-Acts (post_refresh (some raw)) free =
      answer-Step (refresh d.jwt d.service env raw) _ _ (log (refreshed env raw w))
  public-Acts (get_preview slug) free = answer-Reads (preview env slug) _ _ (preview-Reads env slug)
  public-Acts _ free = absurd (ground arith)

  pub handle_initiate-Acts :
      (p : Principal) (slug key : Text) (body : Option InitiateInput)
      → Acts (handle_initiate d.jwt env (some p) slug key body)
  unfolding handle_initiate
  handle_initiate-Acts p slug key none = with_id-Acts (d.jwt.uuid_parse key) _ _ _ (λ k. keeps refl)
  handle_initiate-Acts p slug key (some input) = with_id-Acts (d.jwt.uuid_parse key) _ _ _ λ k.
      answer-Step (initiate env p.identity_id k slug input) _ _
        (start env p.identity_id k slug input w)

  pub handle_parts-Acts :
      (p : Principal) (upload : Text) (body : Option (List ℤ))
      → Acts (handle_parts d.jwt env (some p) upload body)
  unfolding handle_parts
  handle_parts-Acts p upload none = with_id-Acts (d.jwt.uuid_parse upload) _ _ _ (λ id. keeps refl)
  handle_parts-Acts p upload (some numbers) = with_id-Acts (d.jwt.uuid_parse upload) _ _ _ λ id.
      answer-Step (part_urls env p.identity_id id numbers) _ _ (sign env p.identity_id id numbers w)

  pub handle_complete-Acts :
      (p : Principal) (upload : Text) (body : Option (List CompletedPart))
      → Acts (handle_complete d.jwt env (some p) upload body)
  unfolding handle_complete
  handle_complete-Acts p upload none =
      with_id-Acts (d.jwt.uuid_parse upload) _ _ _ (λ id. keeps refl)
  handle_complete-Acts p upload (some parts) = with_id-Acts (d.jwt.uuid_parse upload) _ _ _ λ id.
      answer-Step (complete env p.identity_id id parts) _ _ (finish env p.identity_id id parts w)

  pub handle_create-Acts :
      (p : Principal) (key : Text) (body : Option CreateInput)
      → IsFresh env w.db
      → Acts (handle_create env (some p) d.jwt key body)
  unfolding handle_create
  handle_create-Acts p key none fresh = with_id-Acts (d.jwt.uuid_parse key) _ _ _ (λ k. keeps refl)
  handle_create-Acts p key (some input) fresh = with_id-Acts (d.jwt.uuid_parse key) _ _ _ λ k.
      answer-Step (create env p.identity_id k input) _ _
        (open_room env p.identity_id k input w fresh)

  pub handle_gallery-Acts :
      (p : Principal) (slug limit cursor : Text)
      → Acts (handle_gallery d.jwt env (some p) d.decode_cursor slug limit cursor)
  unfolding handle_gallery
  handle_gallery-Acts p slug limit cursor = elim (Option-cases (limit_of d.jwt env none limit)) [
    | inl bad ↦ rw bad (keeps refl)
    | inr (n, good) ↦ rw good (
        answer-Reads (gallery d.decode_cursor env p.identity_id slug n cursor) _ _
          (gallery-Reads d.decode_cursor env p.identity_id slug n cursor))
  ]
