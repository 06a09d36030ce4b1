-- ===== src/HttpApi/Respond.antt =====
-- What a handler of internal/httpapi answers. A response is a status with the value that is written
-- as JSON, or a status with the code of an API error; the texts of the messages are left out.
use zhyvo.Base.{ℕ, List, Option, none, some}
use zhyvo.Base.Text.{Text, codes}
use zhyvo.Exec.{World, M, Result, ok, err, Error}
use zhyvo.Media.Types.{Upload, PartUrl, MediaResult}
use zhyvo.Media.Gallery.Membership.{Download}
use zhyvo.Media.Gallery.Page.{GalleryPage}
use zhyvo.Room.Types.{Room, Preview, Member}
use zhyvo.Auth.Types.{Identity, Principal}

-- `tokenResponse`.
pub record TokenResponse : Type 0 where
  pub identity : Identity
  pub access_token : Text
  pub access_token_expires_in : ℕ
  pub access_token_expires_at : ℕ
  pub refresh_token : Text
  pub refresh_token_expires_at : ℕ

pub data Body : Type 0 where
  no_body : Body
  health_body : Text → Option Text → Body
  upload_body : Upload → ℕ → Body
  parts_body : List PartUrl → Body
  media_body : MediaResult → Body
  download_body : Download → Body
  page_body : GalleryPage → Body
  room_body : Room → Body
  shared_body : Room → Text → Body
  rooms_body : List Room → Body
  members_body : List Member → Body
  preview_body : Preview → Body
  tokens_body : TokenResponse → Body
  identity_body : Identity → Body

pub data Response : Type 0 where
  reply : ℕ → Body → Response
  refusal : ℕ → Text → Response

abbrev pub Handler : Type 0
Handler = World → Response × World

abbrev pub refuse : ℕ → Text → Handler
refuse status code w = (refusal status code, w)

abbrev answered :
    {A : Type 0} → (Error → Response) → (A → Response) → Result A × World → Response × World
answered failed done (ok a, w) = (done a, w)
answered failed done (err e, w) = (failed e, w)

-- A call of a service, and the response for its error or its result.
abbrev pub answer : {A : Type 0} → M A → (Error → Response) → (A → Response) → Handler
answer m failed done w = answered failed done (m w)

-- `principalFromContext`, and the refusal that every handler has for a request without one.
abbrev pub with_principal : Option Principal → (Principal → Handler) → Handler
with_principal none next = refuse 401 (codes "AUTH_REQUIRED")
with_principal (some p) next = next p

-- `decodeJSON`; `none` is its error.
abbrev pub with_input : {A : Type 0} → Option A → (A → Handler) → Handler
with_input none next = refuse 400 (codes "INVALID_JSON")
with_input (some a) next = next a

-- A header or a part of the path that must be a UUID.
abbrev pub with_id : Option ℕ → ℕ → Text → (ℕ → Handler) → Handler
with_id none status code next = refuse status code
with_id (some id) status code next = next id
