-- ===== src/Tests/Settings.antt =====
-- The settings of a small environment.
use zhyvo.Base.{◌≡◌, ◌↔◌, refl, some, true, Option, if◌then◌else◌}
use zhyvo.Base.Int.{ℤ, pos}
use zhyvo.Base.Text.{Text, codes, text_eq, byte_length}
use zhyvo.Config.{Config, loaded, load, read, check, value, duration, boolean, parse_bool}
use zhyvo.Config.Valid.{IsValid, load_iff}

abbrev getenv : Text → Text
getenv key =
    if text_eq key (codes "DATABASE_URL")
    then codes "postgres://db"
    else if text_eq key (codes "AUTH_ACCESS_SECRET")
    then codes "0123456789abcdef0123456789abcdef"
    else if text_eq key (codes "AUTH_ACCESS_TTL")
    then codes "5m"
    else codes "1"

abbrev parse_duration : Text → Option ℤ
parse_duration s = if text_eq s (codes "1") then some (pos 300000000000) else some (pos 1)

abbrev settings : Config
settings = record {
  http_addr = codes "1";
  database_url = codes "postgres://db";
  shutdown_timeout = pos 300000000000;
  cleanup_interval = pos 300000000000;
  thumbnail_interval = pos 300000000000;
  s3 = record {
    endpoint = codes "1";
    public_endpoint = codes "1";
    access_key = codes "1";
    secret_key = codes "1";
    bucket = codes "1";
    region = codes "1";
    use_ssl = true;
    public_use_ssl = true;
    presign_ttl = pos 300000000000;
  };
  auth = record {
    access_secret = codes "0123456789abcdef0123456789abcdef";
    access_ttl = pos 1;
    refresh_ttl = pos 300000000000;
    issuer = codes "1";
  };
  telegram = record { bot_token = codes "1"; init_data_ttl = pos 300000000000 };
}

given : load getenv parse_duration ≡ loaded settings
unfolding load read check value duration boolean parse_bool text_eq byte_length
given = refl

load_iff_example :
    (load getenv parse_duration ≡ loaded settings)
    ↔ ((read getenv parse_duration ≡ loaded settings) × IsValid settings)
load_iff_example = load_iff getenv parse_duration settings
