-- ===== src/System.antt =====
-- The services and the workers on one database: each request and each batch is a step of it.
pub mod Sound
use zhyvo.Base.{ℕ, List, [], ◌≢◌, All}
use zhyvo.Base.Int.{ℤ}
use zhyvo.Base.Text.{Text}
use zhyvo.Schema.{Db}
use zhyvo.Exec.{Env, World, CompletedPart}
use zhyvo.Media.Types.{InitiateInput}
use zhyvo.Media.Initiate.{initiate}
use zhyvo.Media.PartUrls.{part_urls}
use zhyvo.Media.Complete.{complete}
use zhyvo.Media.Release.{abort}
use zhyvo.Media.Gallery.Delete
use zhyvo.Room.Types.{CreateInput, UpdateInput}
use zhyvo.Room.Create.{create}
use zhyvo.Room.Join.{join}
use zhyvo.Room.Manage
use zhyvo.Cleanup
use zhyvo.Thumbnail
use zhyvo.Auth.Types.{Jwt, Service}
use zhyvo.Auth.Grants.{AuthStep}

-- The database after the migrations.
abbrev pub empty : Db
empty = record {
  rooms = [];
  members = [];
  media = [];
  uploads = [];
  requests = [];
  identities = [];
  sessions = [];
}

-- A new room gets an identifier that no media row has.
abbrev pub IsFresh : Env → Db → Type 0
IsFresh env db = All (λ m. m.room_id ≢ env.room_id) db.media

-- One request or batch, with any arguments and whatever it meets; those that only read are left out.
pub data Step (jwt : Jwt) (s : Service) : Db → Db → Type 0 where
  start :
      (env : Env) (identity_id key : ℕ) (slug : Text) (input : InitiateInput) (w : World)
      → Step jwt s w.db (initiate env identity_id key slug input w).1.db
  sign :
      (env : Env) (identity_id upload_id : ℕ) (numbers : List ℤ) (w : World)
      → Step jwt s w.db (part_urls env identity_id upload_id numbers w).1.db
  finish :
      (env : Env) (identity_id upload_id : ℕ) (parts : List CompletedPart) (w : World)
      → Step jwt s w.db (complete env identity_id upload_id parts w).1.db
  give_up :
      (env : Env) (identity_id upload_id : ℕ) (w : World)
      → Step jwt s w.db (abort env identity_id upload_id w).1.db
  remove_media :
      (env : Env) (identity_id media_id : ℕ) (w : World)
      → Step jwt s w.db (zhyvo.Media.Gallery.Delete.delete env identity_id media_id w).1.db
  open_room :
      (env : Env) (owner_id key : ℕ) (input : CreateInput) (w : World)
      → IsFresh env w.db
      → Step jwt s w.db (create env owner_id key input w).1.db
  enter_room :
      (env : Env) (identity_id : ℕ) (slug secret : Text) (w : World)
      → Step jwt s w.db (join env identity_id slug secret w).1.db
  change_room :
      (env : Env) (identity_id : ℕ) (slug : Text) (input : UpdateInput) (w : World)
      → Step jwt s w.db (zhyvo.Room.Manage.update env identity_id slug input w).1.db
  close_room :
      (env : Env) (identity_id : ℕ) (slug : Text) (w : World)
      → Step jwt s w.db (zhyvo.Room.Manage.delete env identity_id slug w).1.db
  clean :
      (envs : ℕ → Env) (n : ℕ) (envs' : ℕ → Env) (n' : ℕ) (w : World)
      → Step jwt s w.db (zhyvo.Cleanup.run_batch envs n envs' n' w).1.db
  render :
      (envs : ℕ → Env) (n : ℕ) (w : World)
      → Step jwt s w.db (zhyvo.Thumbnail.run_batch envs n w).1.db
  log : {db db' : Db} → AuthStep jwt s db db' → Step jwt s db db'

-- What the requests and batches, one after the other, make of a database.
pub data Reach (jwt : Jwt) (s : Service) (db : Db) : Db → Type 0 where
  here : Reach jwt s db db
  next : {db' db'' : Db} → Reach jwt s db db' → Step jwt s db' db'' → Reach jwt s db db''
