-- ===== src/Config.antt =====
-- internal/config/config.go and internal/config/validate.go: the configuration, its validation and
-- its defaults. The type of `rate` (float64) and its test `<= 0` are parameters. `validate` writes
-- the defaults into the configuration that it is given; here it returns the new one.
pub mod Types
pub mod Services
pub mod Accepts
pub mod Soundness
pub mod Fixed
use go_api_gateway.Prelude.{
  ℕ, Bool, true, false, not, ◌&&◌, ◌||◌, Option, none, some, List, [], ◌∷◌, if◌then◌else◌, ite, ℤ,
  pos, leb_ℤ, ltb_ℤ, Text, codes, text_eq, length,
}
use go_api_gateway.Config.Types.{
  GatewayConfig, TelemetryConfig, TransportConfig, RateLimitConfig, CompressionConfig,
  HealthCheckConfig, CbConfig, ServiceConfig, Err, Result, ok, err, ◌>>=◌, ◌>>◌, check,
  at_most_zero, seconds, is_zero,
}
use go_api_gateway.Config.Services.{validate_services, default}

unfoldable pub apply_health_check_defaults : HealthCheckConfig → HealthCheckConfig
unfolding text_eq
apply_health_check_defaults hc = record {
  path = ite (text_eq hc.path []) (codes "/healthz") hc.path;
  interval = default hc.interval (seconds 5);
}

unfoldable pub apply_compression_defaults : CompressionConfig → CompressionConfig
apply_compression_defaults cmp =
    if cmp.enabled && leb_ℤ cmp.min_bytes (pos 0) then record cmp { min_bytes = pos 1024 } else cmp

unfoldable pub apply_telemetry_defaults : TelemetryConfig → TelemetryConfig
apply_telemetry_defaults t = record {
  metric_interval = default t.metric_interval (seconds 10);
  trace_batch_timeout = default t.trace_batch_timeout (seconds 5);
  log_batch_timeout = default t.log_batch_timeout (seconds 1);
}

unfoldable pub apply_transport_defaults : TransportConfig → TransportConfig
apply_transport_defaults t = record {
  max_idle_conns = default t.max_idle_conns (pos 1000);
  max_idle_conns_per_host = default t.max_idle_conns_per_host (pos 200);
  idle_conn_timeout = default t.idle_conn_timeout (seconds 90);
  dial_timeout = default t.dial_timeout (seconds 5);
  tls_handshake_timeout = default t.tls_handshake_timeout (seconds 5);
}

unfoldable pub validate_circuit_breaker : Option CbConfig → Result (Option CbConfig)
validate_circuit_breaker none = ok none
validate_circuit_breaker (some cb) = do
  check (at_most_zero cb.max_failures) Err.max_failures_not_positive
  check (at_most_zero cb.timeout) Err.timeout_not_positive
  ok (some cb)

module _ {F : Type 0} where
  -- The `switch` on the backend, after its default.
  unfoldable pub check_backend : RateLimitConfig F → Result (Unit {0})
  unfolding text_eq
  check_backend rl = ite (text_eq rl.backend (codes "memory")) (ok tt) (
      ite (text_eq rl.backend (codes "redis"))
        (ite (text_eq rl.redis.addr []) (err Err.redis_addr_required) (ok tt))
        (err (Err.unknown_backend rl.backend)))

  unfoldable pub fill_rate_limit : RateLimitConfig F → RateLimitConfig F
  fill_rate_limit rl = record rl {
    cleanup_interval = default rl.cleanup_interval (seconds 60);
    cleanup_max_idle = default rl.cleanup_max_idle (seconds 180);
  }

  unfoldable pub apply_server_limit_defaults : GatewayConfig F → GatewayConfig F
  apply_server_limit_defaults cfg = record cfg {
    max_body_bytes = default cfg.max_body_bytes (pos 1048576);
    max_header_bytes = default cfg.max_header_bytes (pos 32768);
  }

  -- The five `apply…Defaults` calls at the end of `validate`.
  unfoldable pub apply_defaults : GatewayConfig F → GatewayConfig F
  unfolding apply_health_check_defaults apply_compression_defaults apply_server_limit_defaults
      apply_transport_defaults apply_telemetry_defaults
  apply_defaults cfg =
      let limited = apply_server_limit_defaults cfg in
      record limited {
        health_check = apply_health_check_defaults limited.health_check;
        compression = apply_compression_defaults limited.compression;
        transport = apply_transport_defaults limited.transport;
        telemetry = apply_telemetry_defaults limited.telemetry;
      }

module _ {F : Type 0} (not_positive : F → Bool) where
  unfoldable pub validate_rate_limit :
      Option (RateLimitConfig F) → Result (Option (RateLimitConfig F))
  unfolding check_backend fill_rate_limit text_eq
  validate_rate_limit none = ok none
  validate_rate_limit (some rl) = do
    check (not_positive rl.rate) Err.rate_not_positive
    check (at_most_zero rl.burst) Err.burst_not_positive
    let rl' = record rl { backend = ite (text_eq rl.backend []) (codes "memory") rl.backend }
    _ ← check_backend rl'
    ok (some (fill_rate_limit rl'))

  unfoldable pub validate : GatewayConfig F → Result (GatewayConfig F)
  unfolding validate_services validate_rate_limit validate_circuit_breaker apply_defaults
  validate cfg = do
    services ← validate_services not_positive cfg.services
    rate_limit ← validate_rate_limit cfg.rate_limit
    circuit_breaker ← validate_circuit_breaker cfg.circuit_breaker
    ok (
        apply_defaults (record cfg {
          services = services;
          rate_limit = rate_limit;
          circuit_breaker = circuit_breaker;
        }))

  -- `Load`. Reading the file, the YAML decoder and the environment are parameters; an unset
  -- variable reads as the empty text.
  module _ (read_file : Text → Option Text) (unmarshal : Text → Option (GatewayConfig F))
      (getenv : Text → Text) where
    unfoldable pub fill_env : GatewayConfig F → GatewayConfig F
    fill_env cfg = record cfg {
      port = if is_zero cfg.port then pos 8080 else cfg.port;
      otel_endpoint = getenv (codes "OTEL_EXPORTER_OTLP_ENDPOINT");
      jwt_public_key = getenv (codes "JWT_PUBLIC_KEY_PATH");
      redis_password = getenv (codes "REDIS_PASSWORD");
    }

    unfoldable pub load : Text → Result (GatewayConfig F)
    unfolding validate fill_env
    load path = elim (read_file path) [
      | none ↦ err Err.reading_config_file
      | some text ↦ elim (unmarshal text) [
        | none ↦ err Err.parsing_config_file
        | some cfg ↦ validate (fill_env cfg)
      ]
    ]
