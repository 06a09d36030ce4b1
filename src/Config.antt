-- ===== src/Config.antt =====
-- internal/config/config.go: the settings, read from the environment. `os.Getenv` and
-- `time.ParseDuration` are parameters; a duration is a number of nanoseconds.
pub mod Valid
use zhyvo.Base.{
  ℕ, ◌*◌, List, [], ◌∷◌, Option, none, some, Bool, true, false, ◌||◌, ltb, any, not, if◌then◌else◌,
}
use zhyvo.Base.Int.{ℤ, pos, ltb_ℤ}
use zhyvo.Base.Text.{Text, codes, text_eq, byte_length}

pub record TelegramConfig : Type 0 where
  pub bot_token : Text
  pub init_data_ttl : ℤ

pub record S3Config : Type 0 where
  pub endpoint : Text
  pub public_endpoint : Text
  pub access_key : Text
  pub secret_key : Text
  pub bucket : Text
  pub region : Text
  pub use_ssl : Bool
  pub public_use_ssl : Bool
  pub presign_ttl : ℤ

pub record AuthConfig : Type 0 where
  pub access_secret : Text
  pub access_ttl : ℤ
  pub refresh_ttl : ℤ
  pub issuer : Text

pub record Config : Type 0 where
  pub http_addr : Text
  pub database_url : Text
  pub shutdown_timeout : ℤ
  pub cleanup_interval : ℤ
  pub thumbnail_interval : ℤ
  pub s3 : S3Config
  pub auth : AuthConfig
  pub telegram : TelegramConfig

pub data ConfigError : Type 0 where
  parse_failed : Text → ConfigError
  no_database_url no_s3_keys presign_ttl_range cleanup_not_positive : ConfigError
  thumbnail_not_positive secret_too_short ttl_order init_data_ttl_range : ConfigError

pub data Loaded {ℓ} (A : Type ℓ) : Type ℓ where
  loaded : A → Loaded A
  failed : ConfigError → Loaded A

infixl 5 ◌>>=◌
abbrev pub ◌>>=◌ {ℓ κ} : {A : Type ℓ} {B : Type κ} → Loaded A → (A → Loaded B) → Loaded B
loaded a >>= f = f a
failed e >>= f = failed e

abbrev pub second : ℕ
second = 1000000000

abbrev pub minute : ℕ
minute = 60 * second

abbrev pub hour : ℕ
hour = 60 * minute

abbrev pub is_any : List Text → Text → Bool
is_any names s = any (text_eq s) names

-- `strconv.ParseBool`.
unfoldable pub parse_bool : Text → Option Bool
parse_bool s =
    if is_any (codes "1" ∷ codes "t" ∷ codes "T" ∷ codes "true" ∷ codes "TRUE" ∷ codes "True" ∷ [])
      s
    then some true
    else if is_any
        (codes "0" ∷ codes "f" ∷ codes "F" ∷ codes "false" ∷ codes "FALSE" ∷ codes "False" ∷ []) s
    then some false
    else none

abbrev pub parsed {ℓ} : {A : Type ℓ} → Text → Option A → Loaded A
parsed key none = failed (parse_failed key)
parsed key (some a) = loaded a

abbrev pub is_blank : Text → Bool
is_blank s = text_eq s []

-- `d <= 0`.
abbrev pub not_positive : ℤ → Bool
not_positive d = not (ltb_ℤ (pos 0) d)

-- The checks, in the order in which the first that fails is reported.
unfoldable pub check : Config → Loaded Config
check c =
    if is_blank c.database_url
    then failed no_database_url
    else if is_blank c.s3.access_key || is_blank c.s3.secret_key
    then failed no_s3_keys
    else if not_positive c.s3.presign_ttl || ltb_ℤ (pos (24 * hour)) c.s3.presign_ttl
    then failed presign_ttl_range
    else if not_positive c.cleanup_interval
    then failed cleanup_not_positive
    else if not_positive c.thumbnail_interval
    then failed thumbnail_not_positive
    else if ltb (byte_length c.auth.access_secret) 32
    then failed secret_too_short
    else if not_positive c.auth.access_ttl || not (ltb_ℤ c.auth.access_ttl c.auth.refresh_ttl)
    then failed ttl_order
    else if not_positive c.telegram.init_data_ttl
        || ltb_ℤ (pos (24 * hour)) c.telegram.init_data_ttl
    then failed init_data_ttl_range
    else loaded c

module _ (getenv : Text → Text) (parse_duration : Text → Option ℤ) where
  unfoldable pub value : Text → Text → Text
  value key fallback = if text_eq (getenv key) [] then fallback else getenv key

  unfoldable pub duration : Text → ℤ → Loaded ℤ
  duration key fallback =
      if text_eq (getenv key) [] then loaded fallback else parsed key (parse_duration (getenv key))

  unfoldable pub boolean : Text → Bool → Loaded Bool
  unfolding parse_bool
  boolean key fallback =
      if text_eq (getenv key) [] then loaded fallback else parsed key (parse_bool (getenv key))

  -- The settings before they are checked.
  unfoldable pub read : Loaded Config
  unfolding value duration boolean
  read = do
    shutdown_timeout ← duration (codes "SHUTDOWN_TIMEOUT") (pos (10 * second))
    cleanup_interval ← duration (codes "CLEANUP_INTERVAL") (pos minute)
    thumbnail_interval ← duration (codes "THUMBNAIL_INTERVAL") (pos (2 * second))
    use_ssl ← boolean (codes "S3_USE_SSL") false
    public_use_ssl ← boolean (codes "S3_PUBLIC_USE_SSL") use_ssl
    access_ttl ← duration (codes "AUTH_ACCESS_TTL") (pos (15 * minute))
    refresh_ttl ← duration (codes "AUTH_REFRESH_TTL") (pos (30 * 24 * hour))
    presign_ttl ← duration (codes "S3_PRESIGN_TTL") (pos (15 * minute))
    init_data_ttl ← duration (codes "TELEGRAM_INIT_DATA_TTL") (pos (10 * minute))
    loaded (record {
      http_addr = value (codes "HTTP_ADDR") (codes ":8080");
      database_url = getenv (codes "DATABASE_URL");
      shutdown_timeout = shutdown_timeout;
      cleanup_interval = cleanup_interval;
      thumbnail_interval = thumbnail_interval;
      s3 = record {
        endpoint = value (codes "S3_ENDPOINT") (codes "localhost:9000");
        public_endpoint =
            value (codes "S3_PUBLIC_ENDPOINT")
              (value (codes "S3_ENDPOINT") (codes "localhost:9000"));
        access_key = getenv (codes "S3_ACCESS_KEY");
        secret_key = getenv (codes "S3_SECRET_KEY");
        bucket = value (codes "S3_BUCKET") (codes "photodrop-media");
        region = value (codes "S3_REGION") (codes "us-east-1");
        use_ssl = use_ssl;
        public_use_ssl = public_use_ssl;
        presign_ttl = presign_ttl;
      };
      auth = record {
        access_secret = getenv (codes "AUTH_ACCESS_SECRET");
        access_ttl = access_ttl;
        refresh_ttl = refresh_ttl;
        issuer = value (codes "AUTH_ISSUER") (codes "photodrop");
      };
      telegram = record {
        bot_token = getenv (codes "TELEGRAM_BOT_TOKEN");
        init_data_ttl = init_data_ttl;
      };
    })

  unfoldable pub load : Loaded Config
  unfolding read check
  load = do c ← read; check c
