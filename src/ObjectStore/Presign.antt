-- ===== src/ObjectStore/Presign.antt =====
-- `effectivePresignTTL` and the methods of internal/objectstore/store.go that sign URLs, `Stat` and
-- `CompleteMultipart`. What the MinIO client answers is the record `Minio`; times and lifetimes are in
-- nanoseconds.
pub mod Bounds
use zhyvo.Base.{
  ℕ, ◌+◌, ◌-◌, List, [], ◌∷◌, map, Option, none, some, Bool, ◌||◌, ltb, ◌==◌, if◌then◌else◌,
}
use zhyvo.Base.Int.{ℤ}
use zhyvo.Base.Text.{Text, codes, text_eq}
use zhyvo.Base.Decimal.{format_int}
use zhyvo.Config.{second}
use zhyvo.ObjectStore.Disposition.{content_disposition}

-- An answer of the client: the error's code and status, or a value.
pub data Answer (A : Type 0) : Type 0 where
  answered_with : A → Answer A
  refused_with : Text → ℕ → Answer A

pub record StoredObject : Type 0 where
  pub size : ℕ
  pub content_type : Text
  pub etag : Text

-- The calls of the client that sign or read: a method, a key, a lifetime and the parameters to sign.
pub record Minio : Type 0 where
  pub presign : Text → Text → ℕ → List (Text × Text) → Option Text
  pub stat_object : Text → Answer StoredObject

-- The clock is read before and after: `time.Until`, and `time.Now` for the end that is returned.
pub record Store : Type 0 where
  pub minio : Minio
  pub presign_ttl : ℕ
  pub before : ℕ
  pub after : ℕ

pub data StoreError : Type 0 where
  session_over presign_failed object_not_found stat_failed : StoreError

pub data Outcome {ℓ} (A : Type ℓ) : Type ℓ where
  got : A → Outcome A
  lost : StoreError → Outcome A

infixl 5 ◌>>=◌
abbrev pub ◌>>=◌ {ℓ κ} : {A : Type ℓ} {B : Type κ} → Outcome A → (A → Outcome B) → Outcome B
got a >>= f = f a
lost e >>= f = lost e

-- A session that is over leaves no time: its remainder, which Go has below zero, is 0 here, and both
-- are less than a second.
unfoldable pub effective_presign_ttl : Store → ℕ → Outcome (ℕ × ℕ)
effective_presign_ttl s expiry =
    let remaining = expiry - s.before in
    let ttl = if ltb remaining s.presign_ttl then remaining else s.presign_ttl in
    if ltb ttl second then lost session_over else got (ttl, s.after + ttl)

abbrev pub signed : Option Text → ℕ → Outcome (Text × ℕ)
signed none ends = lost presign_failed
signed (some url) ends = got (url, ends)

unfoldable pub presign_put : Store → Text → Text → ℕ → Outcome (Text × ℕ)
unfolding effective_presign_ttl
presign_put s key content_type expiry = do
  (ttl, ends) ← effective_presign_ttl s expiry
  signed (s.minio.presign (codes "PUT") key ttl ((codes "Content-Type", content_type) ∷ [])) ends

unfoldable pub presign_part : Store → Text → Text → ℤ → ℕ → Outcome (Text × ℕ)
unfolding effective_presign_ttl
presign_part s key upload_id number expiry = do
  (ttl, ends) ← effective_presign_ttl s expiry
  signed
      (s.minio.presign (codes "PUT") key ttl
        ((codes "partNumber", format_int number) ∷ (codes "uploadId", upload_id) ∷ []))
      ends

abbrev pub download_parameters : Text → List (Text × Text)
download_parameters name =
    if text_eq name []
    then []
    else (codes "response-content-disposition", content_disposition name) ∷ []

unfoldable pub presign_get : Store → Text → Text → Outcome (Text × ℕ)
presign_get s key name =
    signed (s.minio.presign (codes "GET") key s.presign_ttl (download_parameters name))
      (s.after + s.presign_ttl)

abbrev pub is_gone : Text → ℕ → Bool
is_gone code status =
    text_eq code (codes "NoSuchKey") || text_eq code (codes "NoSuchObject") || status == 404

abbrev pub stat_of : Answer StoredObject → Outcome StoredObject
stat_of (answered_with info) = got info
stat_of (refused_with code status) =
    if is_gone code status then lost object_not_found else lost stat_failed

unfoldable pub stat : Store → Text → Outcome StoredObject
stat s key = stat_of (s.minio.stat_object key)
