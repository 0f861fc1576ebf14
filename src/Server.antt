-- ===== src/Server.antt =====
-- cmd/gateway/server.go: how the gateway is put together from its configuration. The Redis and the
-- in-memory limiter are not built here: the model says which of them is built, from what.
pub mod Handlers
pub mod Overlapping
use go_api_gateway.Prelude.{
  ℕ, ◌*◌, ◌-◌, ◌^◌, Bool, true, false, not, Option, none, some, List, [], ◌∷◌, ◌++◌, if◌then◌else◌,
  ite, ℤ, pos, ltb_ℤ, Text, codes, text_eq,
}
use go_api_gateway.Prelude.Dict.{Dict, put}
use go_api_gateway.Config.Types.{
  RedisConfig, CbConfig, RateLimitConfig, ServiceRateLimitConfig, ServiceConfig, GatewayConfig,
  seconds,
}
use go_api_gateway.Breaker.{Breaker, new_breaker}
use go_api_gateway.Health.{Checker, new_checker}
use go_api_gateway.RoundRobin.{new_round_robin}
use go_api_gateway.Proxy.{Proxy}
use go_api_gateway.Proxy.Outgoing.{Transport, new_upstream_transport}

-- The breaker of an upstream; `math.MaxInt` and an hour where none is configured.
abbrev pub breaker_of : Option CbConfig → Breaker
breaker_of (some cb) = new_breaker cb.max_failures cb.timeout
breaker_of none = new_breaker (pos (2 ^ 63 - 1)) (seconds 3600)

-- The loop over `svc.Upstreams`.
unfoldable pub breakers_for : Option CbConfig → List Text → Dict Breaker → Dict Breaker
breakers_for cb [] breakers = breakers
breakers_for cb (u ∷ us) breakers = breakers_for cb us (put u (breaker_of cb) breakers)

-- The fields of `redis.Options` that the gateway sets; 0 is what go-redis takes for its default.
pub record Options : Type 0 where
  pub addr : Text
  pub password : Text
  pub pool_size : ℤ
  pub dial_timeout : ℤ
  pub read_timeout : ℤ
  pub write_timeout : ℤ
  pub tls : Bool

abbrev pub if_positive : ℤ → ℤ
if_positive x = if ltb_ℤ (pos 0) x then x else pos 0

unfoldable pub build_redis_options : RedisConfig → Text → Options
build_redis_options rc password = record {
  addr = rc.addr;
  password = password;
  pool_size = if_positive rc.pool_size;
  dial_timeout = if_positive rc.dial_timeout;
  read_timeout = if_positive rc.read_timeout;
  write_timeout = if_positive rc.write_timeout;
  tls = rc.tls;
}

pub data KeyFunc : Type 0 where
  key_by_ip key_by_jwt_sub : KeyFunc

-- `NewRedisLimiter` or `NewMemoryLimiter`, with its arguments.
pub data Limiter (F : Type 0) : Type 0 where
  redis_limiter : (prefix : Text) (rate : F) (burst : ℤ) → Limiter F
  memory_limiter :
      (prefix : Text) (rate : F) (burst cleanup_interval cleanup_max_idle : ℤ) → Limiter F

module _ {F : Type 0} where
  abbrev pub limiter_from : Text → F → ℤ → Option (RateLimitConfig F) → (redis : Bool) → Limiter F
  limiter_from prefix r b global true = redis_limiter prefix r b
  limiter_from prefix r b (some rl) false =
      memory_limiter prefix r b rl.cleanup_interval rl.cleanup_max_idle
  limiter_from prefix r b none false = memory_limiter prefix r b (seconds 60) (seconds 180)

  abbrev pub service_prefix : ServiceConfig F → Text
  service_prefix svc = codes "svc:" ++ (svc.name ++ codes ":")

  -- The override of the service, or the global limit, or no limiter.
  abbrev pub limiter_for :
      Option (ServiceRateLimitConfig F)
      → Option (RateLimitConfig F)
      → Text
      → Bool
      → Option (Limiter F × KeyFunc)
  limiter_for (some rl) global prefix redis = some (
    limiter_from prefix rl.rate rl.burst global redis,
    ite (text_eq rl.key_by (codes "jwt_sub")) key_by_jwt_sub key_by_ip,
  )
  limiter_for none (some rl) prefix redis =
      some (limiter_from prefix rl.rate rl.burst (some rl) redis, key_by_ip)
  limiter_for none none prefix redis = none

  unfoldable pub build_service_limiter :
      ServiceConfig F → GatewayConfig F → Bool → Option (Limiter F × KeyFunc)
  build_service_limiter svc cfg redis =
      limiter_for svc.rate_limit cfg.rate_limit (service_prefix svc) redis

  unfoldable pub build_service_handler : ServiceConfig F → GatewayConfig F → Proxy × Checker
  build_service_handler svc cfg = (
    record {
      lb = new_round_robin svc.upstreams;
      breakers = breakers_for cfg.circuit_breaker svc.upstreams [];
    },
    new_checker svc.upstreams cfg.health_check.interval cfg.health_check.path,
  )

  -- The transport that it gives the handler.
  unfoldable pub service_transport : GatewayConfig F → Transport
  unfolding new_upstream_transport
  service_transport cfg = new_upstream_transport (record {
    max_idle_conns = cfg.transport.max_idle_conns;
    max_idle_conns_per_host = cfg.transport.max_idle_conns_per_host;
    idle_conn_timeout = cfg.transport.idle_conn_timeout;
    dial_timeout = cfg.transport.dial_timeout;
    tls_handshake_timeout = cfg.transport.tls_handshake_timeout;
  })
