-- ===== src/Config/Types.antt =====
-- The records of internal/config/config.go, and the errors of internal/config/validate.go. The
-- types that hold a `rate` are over the type `F` of float64. Durations are nanoseconds.
use go_api_gateway.Prelude.{
  ℕ, ◌*◌, Bool, true, false, Option, List, ℤ, pos, negsuc, leb_ℤ, Text, ◌==◌,
}

pub record TelemetryConfig : Type 0 where
  pub metric_interval : ℤ
  pub trace_batch_timeout : ℤ
  pub log_batch_timeout : ℤ

pub record TransportConfig : Type 0 where
  pub max_idle_conns : ℤ
  pub max_idle_conns_per_host : ℤ
  pub idle_conn_timeout : ℤ
  pub dial_timeout : ℤ
  pub tls_handshake_timeout : ℤ

pub record RedisConfig : Type 0 where
  pub addr : Text
  pub pool_size : ℤ
  pub dial_timeout : ℤ
  pub read_timeout : ℤ
  pub write_timeout : ℤ
  pub tls : Bool

pub record CompressionConfig : Type 0 where
  pub enabled : Bool
  pub min_bytes : ℤ

pub record HealthCheckConfig : Type 0 where
  pub interval : ℤ
  pub path : Text

pub record CbConfig : Type 0 where
  pub max_failures : ℤ
  pub timeout : ℤ

pub record ServiceCacheConfig : Type 0 where
  pub ttl : ℤ
  pub max_entries : ℤ
  pub max_bytes : ℤ

pub record RateLimitConfig (F : Type 0) : Type 0 where
  pub backend : Text
  pub rate : F
  pub burst : ℤ
  pub cleanup_interval : ℤ
  pub cleanup_max_idle : ℤ
  pub redis : RedisConfig

pub record ServiceRateLimitConfig (F : Type 0) : Type 0 where
  pub rate : F
  pub burst : ℤ
  pub key_by : Text

-- A pointer field is an `Option`.
pub record ServiceConfig (F : Type 0) : Type 0 where
  pub name : Text
  pub prefix : Text
  pub upstreams : List Text
  pub auth : Bool
  pub required_roles : List Text
  pub rate_limit : Option (ServiceRateLimitConfig F)
  pub cache : Option ServiceCacheConfig

pub record GatewayConfig (F : Type 0) : Type 0 where
  pub port : ℤ
  pub max_body_bytes : ℤ
  pub max_header_bytes : ℤ
  pub max_in_flight : ℤ
  pub compression : CompressionConfig
  pub rate_limit : Option (RateLimitConfig F)
  pub health_check : HealthCheckConfig
  pub circuit_breaker : Option CbConfig
  pub transport : TransportConfig
  pub telemetry : TelemetryConfig
  pub services : List (ServiceConfig F)
  pub otel_endpoint : Text
  pub jwt_public_key : Text
  pub redis_password : Text

-- One constructor for each message, with the values that the message prints.
pub data Err : Type 0 where
  reading_config_file parsing_config_file no_services : Err
  name_required : (i : ℕ) → Err
  prefix_required : (name : Text) → Err
  upstream_required : (name : Text) → Err
  duplicate_name : (name : Text) → Err
  duplicate_prefix : (name prefix : Text) → Err
  roles_require_auth : (name : Text) → Err
  service_rate_not_positive : (name : Text) → Err
  service_burst_not_positive : (name : Text) → Err
  jwt_sub_requires_auth : (name : Text) → Err
  unknown_key_by : (name key_by : Text) → Err
  rate_not_positive burst_not_positive redis_addr_required : Err
  unknown_backend : (backend : Text) → Err
  max_failures_not_positive timeout_not_positive : Err

-- A value, or the error that `validate` returns.
pub data Result {ℓ} (A : Type ℓ) : Type ℓ where
  err : (why : Err) → Result A
  ok : (value : A) → Result A

-- `if err := m; err != nil { return err }`, then the rest.
infixl 5 ◌>>=◌
abbrev pub ◌>>=◌ {ℓ κ} : {A : Type ℓ} {B : Type κ} → Result A → (A → Result B) → Result B
err why >>= rest = err why
ok value >>= rest = rest value

infixl 5 ◌>>◌
abbrev pub ◌>>◌ {ℓ} : {B : Type ℓ} → Result (Unit {0}) → Result B → Result B
err why >> rest = err why
ok value >> rest = rest

-- `if bad { return e }`.
abbrev pub check : Bool → Err → Result (Unit {0})
check true e = err e
check false e = ok tt

abbrev pub at_most_zero : ℤ → Bool
at_most_zero x = leb_ℤ x (pos 0)

abbrev pub is_zero : ℤ → Bool
is_zero (pos n) = n == 0
is_zero (negsuc n) = false

-- `n * time.Second`.
abbrev pub seconds : ℕ → ℤ
seconds n = pos (n * 1000000000)
