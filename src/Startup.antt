-- ===== src/Startup.antt =====
-- cmd/gateway/server.go: `buildRouter` from the configuration to a gateway that serves, or the error
-- that stops it. The meter, reading and parsing the key, the ping of Redis and the probes are
-- parameters.
pub mod Conditions
pub mod Probes
pub mod Services
pub mod Sound
pub mod Serving
use go_api_gateway.Prelude.{
  map, Bool, true, false, ◌&&◌, not, Option, none, some, List, [], ◌∷◌, ◌++◌, if◌then◌else◌, ite, ℤ,
  pos, Text, codes, text_eq, length,
}
use go_api_gateway.Strings.{is_nil, is_some}
use go_api_gateway.Config.Types.{RateLimitConfig, ServiceConfig, GatewayConfig}
use go_api_gateway.Health.{Checker, Probe, probe, start, is_healthy}
use go_api_gateway.Proxy.{Proxy}
use go_api_gateway.Recording.{UpstreamHealthSample}
use go_api_gateway.Recording.Instruments.{
  Meter, new_metrics, register_upstream_health, is_nil_error,
}
use go_api_gateway.Server.{
  KeyFunc, Limiter, Options, build_redis_options, build_service_limiter, build_service_handler,
}

-- The errors of `loadPublicKey`.
pub data KeyErr : Type 0 where
  reading_key no_pem_block parsing_key not_rsa : KeyErr

-- Those of `buildRouter`.
pub data Err : Type 0 where
  creating_metrics : Err
  loading_key : KeyErr → Err
  redis_ping : (addr : Text) → Err
  auth_without_key : (service : Text) → Err
  registering_health : Err
  startup_probe : (service : Text) → Err

pub data Outcome (E A : Type 0) : Type 0 where
  failed : (why : E) → Outcome E A
  done : (value : A) → Outcome E A

infixl 5 ◌>>=◌
abbrev pub ◌>>=◌ : {E A B : Type 0} → Outcome E A → (A → Outcome E B) → Outcome E B
failed why >>= rest = failed why
done value >>= rest = rest value

abbrev pub or_else : {E A : Type 0} → E → Option A → Outcome E A
or_else e none = failed e
or_else e (some a) = done a

abbrev pub require : {E : Type 0} → Bool → E → Outcome E (Unit {0})
require true e = done tt
require false e = failed e

abbrev pub lift_key : {K : Type 0} → Outcome KeyErr K → Outcome Err K
lift_key (failed e) = failed (loading_key e)
lift_key (done k) = done k

-- `os.ReadFile`, `pem.Decode`, `x509.ParsePKIXPublicKey` and the type assertion, over the PEM blocks
-- `B` and the public keys `P`, those of RSA among them `K`.
pub record KeyReader (B P K : Type 0) : Type 0 where
  pub read_file : Text → Option Text
  pub decode : Text → Option B
  pub parse : B → Option P
  pub as_rsa : P → Option K

-- A service as `buildRouter` leaves it.
pub record Service (F : Type 0) : Type 0 where
  pub config : ServiceConfig F
  pub handler : Proxy
  pub checker : Checker
  pub limiter : Option (Limiter F × KeyFunc)

pub record Gateway (F K : Type 0) : Type 0 where
  pub public_key : Option K
  pub redis : Bool
  pub services : List (Service F)

-- What the process finds when it starts. `ended` are the probes of a service in the order in which they
-- end, `first` is the one of the failed services that
-- failed first, and `again` are the probes of the first pass of `Start`.
pub record World (B P K : Type 0) : Type 0 where
  pub meter : Meter
  pub keys : KeyReader B P K
  pub ping : Options → Bool
  pub ended : Text → List (Text × Probe)
  pub first : Text → List Text → Text
  pub again : Text → List (Text × Probe)

module _ {B P K : Type 0} where
  unfoldable pub load_public_key : KeyReader B P K → Text → Outcome KeyErr K
  load_public_key keys path = do
    data_ ← or_else reading_key (keys.read_file path)
    block ← or_else no_pem_block (keys.decode data_)
    public ← or_else parsing_key (keys.parse block)
    or_else not_rsa (keys.as_rsa public)

  abbrev pub key_for : KeyReader B P K → Text → Outcome Err (Option K)
  key_for keys [] = done none
  key_for keys (c ∷ path) = do key ← lift_key (load_public_key keys (c ∷ path)); done (some key)

  abbrev pub all_up : World B P K → List Text → Outcome Err (Unit {0})
  all_up w [] = done tt
  all_up w (name ∷ names) = failed (startup_probe (w.first name names))

module _ {F : Type 0} where
  -- Whether the limiters are to use Redis.
  abbrev pub wants_redis : Option (RateLimitConfig F) → Bool
  wants_redis none = false
  wants_redis (some rl) = ite (text_eq rl.backend (codes "redis")) true false

  -- The result is whether there is a client.
  abbrev pub redis_client : (Options → Bool) → Text → Option (RateLimitConfig F) → Outcome Err Bool
  redis_client ping password none = done false
  redis_client ping password (some rl) =
      if wants_redis (some rl)
      then (if ping (build_redis_options rl.redis password)
          then done true
          else failed (redis_ping rl.redis.addr))
      else done false

  unfoldable pub build_redis_client : (Options → Bool) → GatewayConfig F → Outcome Err Bool
  unfolding build_redis_options
  build_redis_client ping cfg = redis_client ping cfg.redis_password cfg.rate_limit

  -- The body of the loop over the services.
  unfoldable pub build_service :
      (has_key redis : Bool) → GatewayConfig F → ServiceConfig F → Outcome Err (Service F)
  unfolding build_service_limiter build_service_handler
  build_service has_key redis cfg svc =
      let (handler, checker) = build_service_handler svc cfg in
      if svc.auth && not has_key
      then failed (auth_without_key svc.name)
      else done (record {
        config = svc;
        handler = handler;
        checker = checker;
        limiter = build_service_limiter svc cfg redis;
      })

  unfoldable pub build_services :
      Bool → Bool → GatewayConfig F → List (ServiceConfig F) → Outcome Err (List (Service F))
  unfolding build_service
  build_services has_key redis cfg [] = done []
  build_services has_key redis cfg (svc ∷ svcs) = do
    service ← build_service has_key redis cfg svc
    services ← build_services has_key redis cfg svcs
    done (service ∷ services)

  -- The startup probes: the services behind them, and the names of those without a healthy upstream.
  unfoldable pub probe_all :
      (Text → List (Text × Probe)) → List (Service F) → List (Service F) × List Text
  unfolding probe
  probe_all ended [] = ([], [])
  probe_all ended (service ∷ services) =
      let (checker, up) = probe service.checker (ended service.config.name) in
      let (probed, down) = probe_all ended services in
      (
        record service { checker = checker } ∷ probed,
        if up then down else service.config.name ∷ down,
      )

  -- What the callback of the gauge observes, over the checkers as they are.
  unfoldable pub health_samples : List (Service F) → List UpstreamHealthSample
  unfolding is_healthy
  health_samples [] = []
  health_samples (service ∷ services) =
      map
        (λ upstream. record {
          service = service.config.name;
          upstream = upstream;
          healthy = is_healthy service.checker upstream;
        })
        service.config.upstreams
      ++ health_samples services

  -- The service once its checker runs.
  abbrev pub watched : (Text → List (Text × Probe)) → Service F → Service F
  watched again service = record service {
    checker = start service.checker (again service.config.name ∷ []);
  }

  unfoldable pub build_router :
      {B P K : Type 0} → World B P K → GatewayConfig F → Outcome Err (Gateway F K)
  unfolding load_public_key build_redis_client build_services probe_all new_metrics
      register_upstream_health
  build_router w cfg = do
    metrics ← require (is_nil_error (new_metrics w.meter)) creating_metrics
    public_key ← key_for w.keys cfg.jwt_public_key
    redis ← build_redis_client w.ping cfg
    services ← build_services (is_some public_key) redis cfg cfg.services
    gauge ← require (is_nil_error (register_upstream_health w.meter)) registering_health
    let (probed, down) = probe_all w.ended services
    up ← all_up w down
    done
        (record { public_key = public_key; redis = redis; services = map (watched w.again) probed })
