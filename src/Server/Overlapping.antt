-- ===== src/Server/Overlapping.antt =====
-- What `buildServiceHandler` of cmd/gateway/server.go builds answers when its requests overlap.
use go_api_gateway.Prelude.{
  ℕ, ◌<◌, ◌≤◌, ◌^◌, ◌≡◌, Bool, true, List, [], pos, Text, All, arith, length, ◌+◌,
}
use go_api_gateway.Config.Types.{ServiceConfig, GatewayConfig}
use go_api_gateway.Proxy.Accounting.{IsAnswered}
use go_api_gateway.Proxy.Overlap.{System, Event, run}
use go_api_gateway.Proxy.Overlap.Safety.{IsSound, run-IsAnswered}
use go_api_gateway.Proxy.Overlap.Counting.{arrivals, cut_off, aborts, run-accounted, run-cut}
use go_api_gateway.Server.{build_service_handler}
use go_api_gateway.Server.Handlers.{threshold_of, build_service_handler-Ready}

-- The handler that is built, with no request in flight.
abbrev pub built : {F : Type 0} → ServiceConfig F → GatewayConfig F → System
built svc cfg = record { handler = (build_service_handler svc cfg).0; in_flight = [] }

-- However the requests to a handler that `buildServiceHandler` builds overlap, and whatever their round
-- trips come to, where the configuration has a positive threshold below 2^63 and the upstreams are
-- URLs: the handler never panics of its own; the replies that the `ReverseProxy` ends with a panic, as
-- it does where the copy of a response breaks off, are at most the round trips in which that happens;
-- and the requests that have arrived are as many as the replies and the requests still in flight
-- together.
pub built_handler_answers_overlapping :
    {F : Type 0} (parses : Text → Bool) (m : ℕ) (svc : ServiceConfig F) (cfg : GatewayConfig F)
    → threshold_of cfg.circuit_breaker ≡ pos m
    → 0 < m
    → m < 2 ^ 63
    → All (λ u. parses u ≡ true) svc.upstreams
    → (events : List Event)
    → All IsAnswered (run parses (built svc cfg) events).1
      × (cut_off (run parses (built svc cfg) events).1 ≤ aborts events)
      × (arrivals events
          ≡ length (run parses (built svc cfg) events).1
            + length (run parses (built svc cfg) events).0.in_flight)
built_handler_answers_overlapping parses m svc cfg e positive small good events =
    let sound : IsSound parses m (built svc cfg) = record {
      ready = build_service_handler-Ready parses m svc cfg e positive small good;
      flights = tt;
    } in
    (
      run-IsAnswered parses m (built svc cfg) events sound,
      run-cut parses (built svc cfg) events,
      omega (arith, run-accounted parses (built svc cfg) events),
    )
