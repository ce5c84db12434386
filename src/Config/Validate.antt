-- ===== src/Config/Validate.antt =====
-- internal/config/config.go: `Validate` and the check of the `db` section that `LoadDb` makes alone.
use nexo.Prelude.{
  Bool, true, false, not, ◌&&◌, ◌||◌, Option, none, some, List, [], ◌∷◌, ◌++◌, any, length,
  ◌==◌ as nat_eq, if◌then◌else◌,
}
use nexo.Prelude.Bytes.{Bytes, text, ◌==◌}
use nexo.Prelude.Int.{ℤ, pos, ltb_ℤ, leb_ℤ}
use nexo.Prelude.Map.{Map, lookup, insert, bytes_eq}
use nexo.Auth.Native.{is_empty}
use nexo.Config.{
  Config, DbConfig, AuthConfig, InternalAuthConfig, second, mysql_text_max, contains, weak_secret,
  all_secrets,
}

-- One constructor for each call of `fail`, with the values that its message shows.
pub data Complaint : Type 0 where
  addr_required : Complaint
  not_a_cidr : Complaint
  not_one_of : Bytes → Bytes → List Bytes → Complaint
  dsn_required : Complaint
  mysql_requires_gorm : Complaint
  max_open_conns_not_positive : Complaint
  dsn_not_valid : Complaint
  dsn_client_found_rows : Complaint
  dsn_without_parse_time : Complaint
  injected_dsn_required : Complaint
  bus_requires_postgres : Complaint
  cache_requires_postgres : Complaint
  redis_addr_required : Complaint
  native_on_local_cache : Bytes → Complaint
  nonces_on_local_cache : Bytes → Complaint
  cleaner_interval_too_short : ℤ → Complaint
  online_store_intervals : Complaint
  webhook_not_https : Complaint
  webhook_secret_required : Complaint
  providers_empty : Complaint
  external_secrets_required : Complaint
  external_secret_weak : Complaint
  secret_shared : Bytes → Bytes → Complaint
  native_secret_required : Complaint
  native_secret_weak : Complaint
  expire_hours_not_positive : Complaint
  unknown_provider : Bytes → Complaint
  default_platform_not_positive : Complaint
  internal_secret_required : Complaint
  internal_secret_weak : Complaint
  allowed_services_empty : Complaint
  max_skew_not_positive : Complaint
  ws_sizes : Complaint
  ws_deliver_sizes : Complaint
  limits_not_positive : Complaint
  content_too_long_for_mysql : Complaint
  auth_limit_negative : Complaint

-- `mysql.Config`, as far as it is read.
pub record Dsn : Type 0 where
  pub client_found_rows : Bool
  pub parse_time : Bool

abbrev pub fail_if : Bool → Complaint → List Complaint
fail_if b c = if b then c ∷ [] else []

-- `n <= 0`
abbrev pub not_positive : ℤ → Bool
not_positive n = leb_ℤ n (pos 0)

abbrev pub one_of : Bytes → Bytes → List Bytes → List Complaint
one_of field val allowed = fail_if (not (contains allowed val)) (not_one_of field val allowed)

-- `strings.HasPrefix`
unfoldable pub has_prefix : Bytes → Bytes → Bool
has_prefix s [] = true
has_prefix [] (p ∷ ps) = false
has_prefix (b ∷ s) (p ∷ ps) = nat_eq b p && has_prefix s ps

abbrev pub dsn_complaints : Option Dsn → List Complaint
dsn_complaints none = dsn_not_valid ∷ []
dsn_complaints (some parsed) =
    if parsed.client_found_rows
    then dsn_client_found_rows ∷ []
    else fail_if (not parsed.parse_time) dsn_without_parse_time

-- `DbConfig.validate`
unfoldable pub validate_db : (Bytes → Option Dsn) → DbConfig → List Complaint
validate_db parse_dsn d =
    fail_if (not (contains (text "postgres" ∷ text "mysql" ∷ []) d.driver))
      (not_one_of (text "db.driver") d.driver (text "postgres" ∷ text "mysql" ∷ []))
    ++ fail_if (not (contains (text "gorm" ∷ text "sqlc" ∷ []) d.access))
        (not_one_of (text "db.access") d.access (text "gorm" ∷ text "sqlc" ∷ []))
    ++ fail_if (is_empty d.dsn && not d.injected) dsn_required
    ++ fail_if (d.driver == text "mysql" && not (d.access == text "gorm")) mysql_requires_gorm
    ++ fail_if (not_positive d.max_open_conns) max_open_conns_not_positive
    ++ (if d.driver == text "mysql" && not (is_empty d.dsn)
        then dsn_complaints (parse_dsn d.dsn)
        else [])

unfoldable pub validate_drivers : Config → List Complaint
validate_drivers c =
    fail_if
      (is_empty c.db.dsn
        && c.db.injected
        && (c.bus.driver == text "postgres" || c.cache.driver == text "pg"))
      injected_dsn_required
    ++ one_of (text "bus.driver") c.bus.driver (text "redis" ∷ text "postgres" ∷ text "local" ∷ [])
    ++ one_of (text "online_store.driver") c.online_store.driver (text "db" ∷ text "redis" ∷ [])
    ++ one_of (text "cache.driver") c.cache.driver (text "redis" ∷ text "pg" ∷ text "local" ∷ [])
    ++ one_of (text "offline_push.driver") c.offline_push.driver (text "noop" ∷ text "webhook" ∷ [])
    ++ fail_if (c.bus.driver == text "postgres" && not (c.db.driver == text "postgres"))
        bus_requires_postgres
    ++ fail_if (c.cache.driver == text "pg" && not (c.db.driver == text "postgres"))
        cache_requires_postgres
    ++ fail_if
        ((c.bus.driver == text "redis"
            || c.online_store.driver == text "redis"
            || c.cache.driver == text "redis")
          && is_empty c.redis.addr)
        redis_addr_required

-- A bus that is not local means several nodes, and a cache that is local serves one.
unfoldable pub validate_nodes : Config → List Complaint
validate_nodes c =
    if not (c.bus.driver == text "local") && c.cache.driver == text "local"
    then fail_if (contains c.auth.providers (text "native")) (native_on_local_cache c.bus.driver)
      ++ fail_if c.internal_auth.enabled (nonces_on_local_cache c.bus.driver)
    else []

unfoldable pub validate_stores : Config → List Complaint
unfolding has_prefix
validate_stores c =
    fail_if (ltb_ℤ (pos 0) c.cache.cleaner_interval && ltb_ℤ c.cache.cleaner_interval (pos second))
      (cleaner_interval_too_short c.cache.cleaner_interval)
    ++ fail_if
        (not_positive c.online_store.ttl
          || not_positive c.online_store.renew_interval
          || leb_ℤ c.online_store.ttl c.online_store.renew_interval)
        online_store_intervals
    ++ (if c.offline_push.driver == text "webhook"
        then fail_if (not (has_prefix c.offline_push.webhook_url (text "https://")))
            webhook_not_https
          ++ fail_if (is_empty c.offline_push.webhook_secret) webhook_secret_required
        else [])

-- Which provider has a secret so far.
abbrev pub Secrets : Type 0
Secrets = Map Bytes Bytes

abbrev pub shared : Bytes → Option Bytes → List Complaint
shared p none = []
shared p (some prev) = secret_shared p prev ∷ []

unfoldable pub check_external : Bytes → List Bytes → Secrets → List Complaint × Secrets
check_external p [] secrets = ([], secrets)
check_external p (s ∷ ss) secrets =
    let (rest, out) = check_external p ss (insert s p secrets) in
    (
      (if weak_secret s then external_secret_weak ∷ [] else shared p (lookup s secrets)) ++ rest,
      out,
    )

unfoldable pub check_native : Bytes → Bytes → Secrets → List Complaint × Secrets
check_native p s secrets =
    if is_empty s
    then (native_secret_required ∷ [], secrets)
    else if weak_secret s
    then (native_secret_weak ∷ [], secrets)
    else (shared p (lookup s secrets), insert s p secrets)

unfoldable pub check_provider : AuthConfig → Bytes → Secrets → List Complaint × Secrets
unfolding check_external check_native
check_provider a p secrets =
    if p == text "external_jwt"
    then (let (found, out) = check_external p a.external_jwt.secrets secrets in
        (
          fail_if (nat_eq (length a.external_jwt.secrets) 0) external_secrets_required ++ found,
          out,
        ))
    else if p == text "native"
    then (let (found, out) = check_native p a.native.secret secrets in
        (found ++ fail_if (not_positive a.native.expire_hours) expire_hours_not_positive, out))
    else (unknown_provider p ∷ [], secrets)

unfoldable pub check_providers : AuthConfig → List Bytes → Secrets → List Complaint
unfolding check_provider
check_providers a [] secrets = []
check_providers a (p ∷ ps) secrets =
    let (found, out) = check_provider a p secrets in found ++ check_providers a ps out

unfoldable pub validate_auth : AuthConfig → List Complaint
unfolding check_providers
validate_auth a =
    fail_if (nat_eq (length a.providers) 0 && not a.injected) providers_empty
    ++ check_providers a a.providers []
    ++ fail_if (not_positive a.default_platform_id) default_platform_not_positive

unfoldable pub validate_internal : InternalAuthConfig → List Complaint
validate_internal i =
    if i.enabled
    then fail_if (nat_eq (length (all_secrets i)) 0) internal_secret_required
      ++ fail_if (any weak_secret (all_secrets i)) internal_secret_weak
      ++ fail_if (nat_eq (length i.allowed_services) 0) allowed_services_empty
      ++ fail_if (not_positive i.max_skew_seconds) max_skew_not_positive
    else []

unfoldable pub validate_sizes : Config → List Complaint
validate_sizes c =
    fail_if
      (not_positive c.ws.max_frame_bytes
        || not_positive c.ws.send_queue
        || not_positive c.ws.ping_interval
        || leb_ℤ c.ws.pong_wait c.ws.ping_interval)
      ws_sizes
    ++ fail_if (not_positive c.ws.deliver_workers || not_positive c.ws.deliver_queue)
        ws_deliver_sizes
    ++ fail_if
        (not_positive c.limits.max_content_bytes
          || not_positive c.limits.pull_page_max
          || not_positive c.limits.conversation_page_max
          || not_positive c.limits.max_seqs_page_max
          || not_positive c.limits.group_max_members)
        limits_not_positive
    ++ fail_if
        (c.db.driver == text "mysql" && ltb_ℤ (pos mysql_text_max) c.limits.max_content_bytes)
        content_too_long_for_mysql
    ++ fail_if (ltb_ℤ c.limits.auth_per_ip_per_min (pos 0)) auth_limit_negative

-- The listener, the database and the drivers.
unfoldable pub validate_parts : (Bytes → Bool) → (Bytes → Option Dsn) → Config → List Complaint
unfolding validate_db validate_drivers validate_nodes validate_stores
validate_parts is_cidr parse_dsn c =
    fail_if (is_empty c.server.addr) addr_required
    ++ fail_if (any (λ raw. not (is_cidr raw)) c.server.trusted_proxies) not_a_cidr
    ++ validate_db parse_dsn c.db
    ++ validate_drivers c
    ++ validate_nodes c
    ++ validate_stores c

-- `Config.Validate`; a configuration is valid where no complaint is made. `is_cidr` says which of the
-- proxies parse.
unfoldable pub validate : (Bytes → Bool) → (Bytes → Option Dsn) → Config → List Complaint
unfolding validate_parts validate_auth validate_internal validate_sizes
validate is_cidr parse_dsn c =
    validate_parts is_cidr parse_dsn c
    ++ validate_auth c.auth
    ++ validate_internal c.internal_auth
    ++ validate_sizes c
