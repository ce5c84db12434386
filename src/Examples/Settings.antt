-- ===== src/Examples/Settings.antt =====
-- A configuration with two providers.
use nexo.Prelude.{
  ℕ, ◌≡◌, ◌≢◌, refl, arith, List, [], ◌∷◌, Option, none, ◌&&◌, some, Bool, true, false,
}
use nexo.Prelude.Bytes.{Bytes, text, ◌==◌}
use nexo.Prelude.Int.{pos}
use nexo.Config
use nexo.Config.{Config, weak_secret, contains}
use nexo.Config.Validate.{Dsn, validate}
use nexo.Config.Secrets.{signs_with, validate-apart}

abbrev app_secret : Bytes
app_secret = text "b1946ac92492d2347c6235b4d2611184"

abbrev native_secret : Bytes
native_secret = text "591785b794601e212b260e25925636fd"

abbrev parse_dsn : Bytes → Option Dsn
parse_dsn _ = none

abbrev is_cidr : Bytes → Bool
is_cidr _ = false

abbrev two_providers : Config
two_providers = record {
  node_id = text "n1";
  server = record { addr = text ":8080"; trusted_proxies = [] };
  db = record {
    driver = text "postgres";
    access = text "sqlc";
    dsn = text "postgres://nexo";
    max_open_conns = pos 30;
    injected = false;
  };
  redis = record { addr = []; password = []; db = pos 0 };
  bus = record { driver = text "local" };
  online_store = record {
    driver = text "db";
    ttl = pos 60000000000;
    renew_interval = pos 20000000000;
  };
  cache = record { driver = text "local"; cleaner_interval = pos 60000000000 };
  offline_push = record {
    driver = text "noop";
    webhook_url = [];
    webhook_secret = [];
    timeout = pos 0;
  };
  auth = record {
    providers = text "external_jwt" ∷ text "native" ∷ [];
    injected = false;
    default_platform_id = pos 5;
    external_jwt = record { secrets = app_secret ∷ []; default_role = text "user" };
    native = record { secret = native_secret; expire_hours = pos 168 };
  };
  internal_auth = record {
    enabled = false;
    secret = [];
    secrets = [];
    allowed_services = [];
    max_skew_seconds = pos 300;
    require_tls = false;
  };
  ws = record {
    max_frame_bytes = pos 65536;
    send_queue = pos 256;
    ping_interval = pos 25000000000;
    pong_wait = pos 60000000000;
    allowed_origins = [];
    deliver_workers = pos 8;
    deliver_queue = pos 1024;
  };
  limits = record {
    max_content_bytes = pos 32768;
    pull_page_max = pos 100;
    conversation_page_max = pos 100;
    max_seqs_page_max = pos 500;
    group_max_members = pos 500;
    group_member_cache_ttl = pos 5000000000;
    ws_conns_per_user = pos 10;
    ws_conns_per_token = pos 5;
    ws_conns_per_ip = pos 0;
    ws_conns_total = pos 0;
    ws_frames_per_sec = pos 20;
    ws_inflight_per_conn = pos 8;
    message_send_per_min = pos 120;
    ws_send_bytes_total = pos 536870912;
    auth_per_ip_per_min = pos 0;
  };
  log = record { redact_paths = []; skip_paths = []; request_body = false };
}

-- One provider alone.
abbrev native_only : Config
native_only = record two_providers {
  auth = record two_providers.auth { providers = text "native" ∷ [] };
}

native_is_strong : weak_secret native_secret ≡ false
unfolding validate signs_with weak_secret text nexo.Prelude.Bytes.◌==◌ nexo.Config.contains
    nexo.Prelude.any nexo.Prelude.Map.lookup nexo.Prelude.Map.insert
native_is_strong =
    (validate-apart is_cidr parse_dsn native_only (text "native") [] native_secret refl refl refl).0

validate-apart_example :
    (weak_secret app_secret ≡ false)
    × ((contains two_providers.auth.providers (text "native")
          && signs_with two_providers.auth (text "native") app_secret)
        ≡ (text "external_jwt" == text "native"))
unfolding validate signs_with weak_secret text nexo.Prelude.Bytes.◌==◌ nexo.Config.contains
    nexo.Prelude.any nexo.Prelude.Map.lookup nexo.Prelude.Map.insert
validate-apart_example =
    validate-apart is_cidr parse_dsn two_providers (text "external_jwt") (text "native") app_secret
      refl refl refl
