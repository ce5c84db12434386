-- ===== src/Config.antt =====
-- internal/config/config.go: the settings of a node, and `Validate`, which `Load` and the server call
-- before it starts. Durations are in nanoseconds. The checks of `net.ParseCIDR` and of `mysql.ParseDSN`
-- are parameters; what `fail` prints is a complaint with the values that it names.
pub mod Validate
pub mod Secrets
use nexo.Prelude.{
  ℕ, Bool, true, false, not, ◌&&◌, ◌||◌, Option, none, some, List, [], ◌∷◌, ◌++◌, map, keep, any,
  length, ltb, if◌then◌else◌,
}
use nexo.Prelude.Bytes.{Bytes, text, ◌==◌}
use nexo.Prelude.Int.{ℤ, pos, ltb_ℤ, leb_ℤ}
use nexo.Auth.Native.{is_empty}

abbrev pub min_secret_len : ℕ
min_secret_len = 32

abbrev pub mysql_text_max : ℕ
mysql_text_max = 65535

abbrev pub second : ℕ
second = 1000000000

abbrev pub dev_secrets : List Bytes
dev_secrets =
    text "change-me" ∷ text "compose-dev-secret" ∷ text "dev-only-secret-not-for-production" ∷ []

pub record ServerConfig : Type 0 where
  pub addr : Bytes
  pub trusted_proxies : List Bytes

pub record DbConfig : Type 0 where
  pub driver : Bytes
  pub access : Bytes
  pub dsn : Bytes
  pub max_open_conns : ℤ
  pub injected : Bool

pub record RedisConfig : Type 0 where
  pub addr : Bytes
  pub password : Bytes
  pub db : ℤ

pub record BusConfig : Type 0 where
  pub driver : Bytes

pub record OnlineStoreConfig : Type 0 where
  pub driver : Bytes
  pub ttl : ℤ
  pub renew_interval : ℤ

pub record CacheConfig : Type 0 where
  pub driver : Bytes
  pub cleaner_interval : ℤ

pub record OfflinePushConfig : Type 0 where
  pub driver : Bytes
  pub webhook_url : Bytes
  pub webhook_secret : Bytes
  pub timeout : ℤ

pub record ExternalJwtConfig : Type 0 where
  pub secrets : List Bytes
  pub default_role : Bytes

pub record NativeAuthConfig : Type 0 where
  pub secret : Bytes
  pub expire_hours : ℤ

pub record AuthConfig : Type 0 where
  pub providers : List Bytes
  pub injected : Bool
  pub default_platform_id : ℤ
  pub external_jwt : ExternalJwtConfig
  pub native : NativeAuthConfig

pub record InternalAuthConfig : Type 0 where
  pub enabled : Bool
  pub secret : Bytes
  pub secrets : List Bytes
  pub allowed_services : List Bytes
  pub max_skew_seconds : ℤ
  pub require_tls : Bool

pub record WsConfig : Type 0 where
  pub max_frame_bytes : ℤ
  pub send_queue : ℤ
  pub ping_interval : ℤ
  pub pong_wait : ℤ
  pub allowed_origins : List Bytes
  pub deliver_workers : ℤ
  pub deliver_queue : ℤ

pub record LimitsConfig : Type 0 where
  pub max_content_bytes : ℤ
  pub pull_page_max : ℤ
  pub conversation_page_max : ℤ
  pub max_seqs_page_max : ℤ
  pub group_max_members : ℤ
  pub group_member_cache_ttl : ℤ
  pub ws_conns_per_user : ℤ
  pub ws_conns_per_token : ℤ
  pub ws_conns_per_ip : ℤ
  pub ws_conns_total : ℤ
  pub ws_frames_per_sec : ℤ
  pub ws_inflight_per_conn : ℤ
  pub message_send_per_min : ℤ
  pub ws_send_bytes_total : ℤ
  pub auth_per_ip_per_min : ℤ

pub record LogConfig : Type 0 where
  pub redact_paths : List Bytes
  pub skip_paths : List Bytes
  pub request_body : Bool

pub record Config : Type 0 where
  pub node_id : Bytes
  pub server : ServerConfig
  pub db : DbConfig
  pub redis : RedisConfig
  pub bus : BusConfig
  pub online_store : OnlineStoreConfig
  pub cache : CacheConfig
  pub offline_push : OfflinePushConfig
  pub auth : AuthConfig
  pub internal_auth : InternalAuthConfig
  pub ws : WsConfig
  pub limits : LimitsConfig
  pub log : LogConfig

unfoldable pub contains : List Bytes → Bytes → Bool
contains xs x = any (λ y. y == x) xs

unfoldable pub weak_secret : Bytes → Bool
unfolding contains
weak_secret s = ltb (length s) min_secret_len || contains dev_secrets s

-- `InternalAuthConfig.AllSecrets`
unfoldable pub all_secrets : InternalAuthConfig → List Bytes
all_secrets c = keep (λ s. not (is_empty s)) (c.secrets ++ c.secret ∷ [])

abbrev mask : Bytes → Bytes
mask s = if is_empty s then [] else text "***"

-- `Config.Redacted`
unfoldable pub redacted : Config → Config
redacted c = record c {
  redis = record c.redis { password = mask c.redis.password };
  db = record c.db { dsn = mask c.db.dsn };
  offline_push = record c.offline_push { webhook_secret = mask c.offline_push.webhook_secret };
  auth = record c.auth {
    native = record c.auth.native { secret = mask c.auth.native.secret };
    external_jwt = record c.auth.external_jwt { secrets = map mask c.auth.external_jwt.secrets };
  };
  internal_auth = record c.internal_auth {
    secret = mask c.internal_auth.secret;
    secrets = map mask c.internal_auth.secrets;
  };
}
