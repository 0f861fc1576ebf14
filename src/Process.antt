-- ===== src/Process.antt =====
-- cmd/gateway/main.go: the gateway process, from the configuration that it loads to its exit code.
-- Logging is left out. The signals and the HTTP server are the library's: the server fails, or a
-- signal ends it.
pub mod Shutdown
use go_api_gateway.Prelude.{
  ℕ, Bool, true, false, Option, none, some, List, [], ◌∷◌, ◌++◌, map, if◌then◌else◌, Text,
}
use go_api_gateway.Config.Types.{GatewayConfig, Result, err, ok}
use go_api_gateway.Startup.{Err, Outcome, failed, done, Gateway, World, build_router}
use go_api_gateway.Telemetry.{Effect, Intervals, Library, SetupResult, sdk, failed, setup, shutdown}

-- What the process does that is seen outside, in order.
pub data Event : Type 0 where
  telemetry : Effect → Event
  serving : Event
  server_shut : Event

-- How serving ends.
pub data Ending : Type 0 where
  listen_failed : Ending
  signalled : Ending

module _ {E : Type 0} (lib : Library E) where
  -- The deferred `sdk.Shutdown`, if there is one; `os.Exit` skips it.
  abbrev pub deferred : Bool → List Event
  deferred true = map telemetry (shutdown lib).0
  deferred false = []

  abbrev pub serve : Bool → Ending → List Event × ℕ
  serve with_sdk listen_failed = (serving ∷ [], 1)
  serve with_sdk signalled = (serving ∷ server_shut ∷ deferred with_sdk, 0)

  abbrev pub with_router :
      {F K : Type 0} → Bool → Ending → Outcome Err (Gateway F K) → List Event × ℕ
  with_router with_sdk ending (failed why) = ([], 1)
  with_router with_sdk ending (done gw) = serve with_sdk ending

  abbrev pub after_setup : List Event × ℕ → List Effect × SetupResult E → List Event × ℕ
  after_setup rest (effects, failed errors) = (map telemetry effects, 1)
  after_setup rest (effects, sdk) =
      let (events, code) = rest in (map telemetry effects ++ events, code)

  module _ {F B P K : Type 0} (w : World B P K) (ending : Ending) where
    abbrev pub intervals_of : GatewayConfig F → Intervals
    intervals_of cfg = record {
      metric_interval = cfg.telemetry.metric_interval;
      trace_batch_timeout = cfg.telemetry.trace_batch_timeout;
      log_batch_timeout = cfg.telemetry.log_batch_timeout;
    }

    abbrev pub with_endpoint : GatewayConfig F → Text → List Event × ℕ
    with_endpoint cfg [] = with_router false ending (build_router w cfg)
    with_endpoint cfg (c ∷ endpoint) =
        after_setup (with_router true ending (build_router w cfg))
          (setup lib (c ∷ endpoint) (intervals_of cfg))

    abbrev pub with_config : Result (GatewayConfig F) → List Event × ℕ
    with_config (err why) = ([], 1)
    with_config (ok cfg) = with_endpoint cfg cfg.otel_endpoint

    -- `main`, over what `config.Load` comes to.
    unfoldable pub run : Result (GatewayConfig F) → List Event × ℕ
    unfolding build_router setup shutdown
    run loaded = with_config loaded
