-- ===== src/Config/Soundness.antt =====
-- What holds of a configuration that internal/config/validate.go accepts.
use go_api_gateway.Prelude.{
  ◌≡◌, refl, ◌≢◌, ◌⊎◌, Bool, true, false, Option, none, some, [], pos, codes, arith, subst,
}
use go_api_gateway.Config.Types.{RateLimitConfig, GatewayConfig, CbConfig, ok, seconds}
use go_api_gateway.Config.Services.{validate_services}
use go_api_gateway.Config.{apply_defaults, validate, validate_rate_limit, validate_circuit_breaker}
use go_api_gateway.Config.Accepts.{
  bind-ok, ok-injective, IsPositive, default-IsPositive, ServicesOk, validate_services_sound,
}

module _ {F : Type 0} (not_positive : F → Bool) where
  abbrev pub RateLimitOk : Option (RateLimitConfig F) → Type 0
  RateLimitOk none = Unit
  RateLimitOk (some rl) =
      (not_positive rl.rate ≡ false)
      × IsPositive rl.burst
      × IsPositive rl.cleanup_interval
      × IsPositive rl.cleanup_max_idle
      × ((rl.backend ≡ codes "memory") ⊎ ((rl.backend ≡ codes "redis") × (rl.redis.addr ≢ [])))

  abbrev pub BreakerOk : Option CbConfig → Type 0
  BreakerOk none = Unit
  BreakerOk (some cb) = IsPositive cb.max_failures × IsPositive cb.timeout

  pub record ConfigOk (cfg : GatewayConfig F) : Type 0 where
    pub some_service : cfg.services ≢ []
    pub services : ServicesOk not_positive [] [] cfg.services
    pub rate_limit : RateLimitOk cfg.rate_limit
    pub circuit_breaker : BreakerOk cfg.circuit_breaker
    pub probe_path : cfg.health_check.path ≢ []
    pub probe_interval : IsPositive cfg.health_check.interval
    pub min_bytes : cfg.compression.enabled ≡ true → IsPositive cfg.compression.min_bytes
    pub body_limit : IsPositive cfg.max_body_bytes
    pub header_limit : IsPositive cfg.max_header_bytes
    pub idle :
        IsPositive cfg.transport.max_idle_conns × IsPositive cfg.transport.max_idle_conns_per_host
    pub timeouts :
        IsPositive cfg.transport.idle_conn_timeout
        × IsPositive cfg.transport.dial_timeout
        × IsPositive cfg.transport.tls_handshake_timeout
    pub telemetry :
        IsPositive cfg.telemetry.metric_interval
        × IsPositive cfg.telemetry.trace_batch_timeout
        × IsPositive cfg.telemetry.log_batch_timeout

  validate_rate_limit_sound :
      (rl rl' : Option (RateLimitConfig F))
      → validate_rate_limit not_positive rl ≡ ok rl'
      → RateLimitOk rl'
  unfolding validate_rate_limit
  validate_rate_limit_sound none rl' h = ground arith
  validate_rate_limit_sound (some rl) none h = ground arith
  validate_rate_limit_sound (some rl) (some rl') h = ground arith

  validate_circuit_breaker_sound :
      (cb cb' : Option CbConfig) → validate_circuit_breaker cb ≡ ok cb' → BreakerOk cb'
  unfolding validate_circuit_breaker
  validate_circuit_breaker_sound none cb' h = ground arith
  validate_circuit_breaker_sound (some cb) none h = ground arith
  validate_circuit_breaker_sound (some cb) (some cb') h = ground arith

  defaulted :
      (cfg : GatewayConfig F)
      → cfg.services ≢ []
      → ServicesOk not_positive [] [] cfg.services
      → RateLimitOk cfg.rate_limit
      → BreakerOk cfg.circuit_breaker
      → ConfigOk (apply_defaults cfg)
  unfolding apply_defaults
  defaulted cfg n s r b = record {
    some_service = n;
    services = s;
    rate_limit = r;
    circuit_breaker = b;
    probe_path = ground arith;
    probe_interval = default-IsPositive cfg.health_check.interval (seconds 5) refl;
    min_bytes = λ e. ground arith;
    body_limit = default-IsPositive cfg.max_body_bytes (pos 1048576) refl;
    header_limit = default-IsPositive cfg.max_header_bytes (pos 32768) refl;
    idle = (
      default-IsPositive cfg.transport.max_idle_conns (pos 1000) refl,
      default-IsPositive cfg.transport.max_idle_conns_per_host (pos 200) refl,
    );
    timeouts = (
      default-IsPositive cfg.transport.idle_conn_timeout (seconds 90) refl,
      default-IsPositive cfg.transport.dial_timeout (seconds 5) refl,
      default-IsPositive cfg.transport.tls_handshake_timeout (seconds 5) refl,
    );
    telemetry = (
      default-IsPositive cfg.telemetry.metric_interval (seconds 10) refl,
      default-IsPositive cfg.telemetry.trace_batch_timeout (seconds 5) refl,
      default-IsPositive cfg.telemetry.log_batch_timeout (seconds 1) refl,
    );
  }

-- An accepted configuration has a service; every service has a name, a prefix and an upstream, no
-- two share a name or a prefix, one with required roles or keyed by JWT subject has `auth` set; the
-- rates are not reported as non-positive and the bursts are positive; a Redis backend has an
-- address; and each bound, interval and timeout with a default is positive (`min_bytes` where
-- compression is on).
pub validate_sound :
    {F : Type 0} (not_positive : F → Bool) (cfg cfg' : GatewayConfig F)
    → validate not_positive cfg ≡ ok cfg'
    → ConfigOk not_positive cfg'
unfolding validate
validate_sound not_positive cfg cfg' h =
    let (services, s, h₁) = bind-ok (validate_services not_positive cfg.services) _ h in
    let (rl, r, h₂) = bind-ok (validate_rate_limit not_positive cfg.rate_limit) _ h₁ in
    let (cb, b, done) = bind-ok (validate_circuit_breaker cfg.circuit_breaker) _ h₂ in
    let (n, good) = validate_services_sound not_positive cfg.services services s in
    subst (ConfigOk not_positive) (ok-injective done) (
      defaulted not_positive
        (record cfg { services = services; rate_limit = rl; circuit_breaker = cb }) n good
        (validate_rate_limit_sound not_positive cfg.rate_limit rl r)
        (validate_circuit_breaker_sound not_positive cfg.circuit_breaker cb b))
