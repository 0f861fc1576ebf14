-- ===== src/Tests/Starts.antt =====
-- Runs of the start of the gateway, and of the chain of a service in a gateway that has started.
use go_api_gateway.Prelude.{
  List, ℕ, suc, ◌≡◌, ◌≢◌, refl, Bool, true, false, none, some, Option, [], ◌∷◌, pos, ◌==◌, Text,
  text_eq, codes, here, ◌⊎◌,
}
use go_api_gateway.Prelude.Dict.{find, put}
use go_api_gateway.Config.Types.{ServiceConfig, GatewayConfig, ok}
use go_api_gateway.Config.{validate}
use go_api_gateway.Http.{Handler, write_header}
use go_api_gateway.Health.{Probe}
use go_api_gateway.Health
use go_api_gateway.Auth.{Token, string, array, nil, cons}
use go_api_gateway.Auth.Access.{Authenticated, identified, IsRefused}
use go_api_gateway.RateLimit.{Verdict, verdict}
use go_api_gateway.ResponseCache.{State}
use go_api_gateway.Server.{Limiter}
use go_api_gateway.Lru.{new_lru}
use go_api_gateway.Router.{Moment}
use go_api_gateway.Router.Protection.{
  chain, behind, HasRole, subject_limiter, IsLimitedBy, IsLimitedBy-subject,
}
use go_api_gateway.Startup.{done, failed, Gateway, World, Outcome, Err, build_router}
use go_api_gateway.Startup.Serving.{started_protects}
use go_api_gateway.Telemetry.{Library, Effect, tracer, sdk, setup}
use go_api_gateway.Telemetry.Release.{times_made, times_shut}
use go_api_gateway.Process.{signalled, listen_failed, intervals_of, run}
use go_api_gateway.Process.Shutdown.{effects_of, run_flushes}
use go_api_gateway.Tests.Edges.{gateway, request}

abbrev pub orders : ServiceConfig ℕ
orders = record {
  name = codes "orders";
  prefix = codes "/orders";
  upstreams = codes "http://a" ∷ [];
  auth = true;
  required_roles = codes "admin" ∷ [];
  rate_limit = some (record { rate = 5; burst = pos 10; key_by = codes "jwt_sub" });
  cache = none;
}

abbrev pub configured : GatewayConfig ℕ
configured = record gateway { services = orders ∷ [] }

-- The key is its file, and the upstream is up.
abbrev world : World Text Text Text
world = record {
  meter = record {
    int64_counter = true;
    float64_histogram = true;
    int64_observable_gauge = true;
    register_callback = true;
  };
  keys = record {
    read_file = λ path. some path;
    decode = λ f. some f;
    parse = λ b. some b;
    as_rsa = λ p. some p;
  };
  ping = λ options. true;
  ended = λ service. (codes "http://a", Health.answered 200) ∷ [];
  first = λ name names. name;
  again = λ service. (codes "http://a", Health.no_response) ∷ [];
}

abbrev outcome : Outcome Err (Gateway ℕ Text) → Gateway ℕ Text
outcome (done gw) = gw
outcome _ = record { public_key = none; redis = false; services = [] }

abbrev started : Gateway ℕ Text
started = outcome (build_router world configured)

abbrev token : Token
token = record {
  claims = some (
      (codes "sub", string (codes "ann"))
      ∷ (codes "roles", array (cons (string (codes "admin")) nil))
      ∷ []);
}

abbrev pub verify : Text → Text → Option Token
verify key raw = some token

abbrev pub no_split : Text → Option Text
no_split s = none

abbrev ask : Limiter ℕ → ℕ → Text → ℕ × Verdict
ask limiter n key = (suc n, verdict false)

abbrev pub same : Text → Text
same s = s

abbrev mounted : Handler ℕ
mounted r n = (write_header 204 ∷ [], suc n)

abbrev pub moment : Moment
moment = record { flights = λ key. none; at_lookup = pos 1; at_store = pos 2 }

abbrev state : State ℕ
state = record { lru = new_lru (pos 1) (pos 1); vary = []; world = 0 }

starts : build_router world configured ≡ done started
unfolding build_router Health.check_all Health.check Health.start Health.new_checker
    Health.is_healthy find put text_eq
starts = refl

started_protects_example :
    (key : Text) × (started.public_key ≡ some key)
    × (IsRefused
          (chain no_split ask same same same mounted
            (verify key)
            orders
            configured
            started.redis
            moment
            request
            (0, state))
          (0, state)
        ⊎ ((who : Authenticated (verify key) request) × HasRole orders.required_roles
              who.identity.roles
            × (chain no_split ask same same same mounted
                  (verify key)
                  orders
                  configured
                  started.redis
                  moment
                  request
                  (0, state)
                ≡ behind no_split ask same same same mounted
                    (verify key)
                    orders
                    configured
                    started.redis
                    moment
                    (identified request who.identity)
                    (0, state))))
started_protects_example =
    started_protects world configured started no_split ask same same same mounted verify moment
      orders starts (here refl) refl request (0, state)

abbrev is_zero_rate : ℕ → Bool
is_zero_rate n = n == 0

accepted : validate is_zero_rate configured ≡ ok configured
unfolding validate
accepted = refl

IsLimitedBy-subject_example :
    IsRefused
      (chain no_split ask same same same mounted
        (verify [])
        orders
        configured
        false
        moment
        request
        (0, state))
      (0, state)
    ⊎ ((who : Authenticated (verify []) request) × (who.identity.subject ≢ []
          → IsLimitedBy no_split ask same same same mounted
              (verify [])
              orders
              configured
              false
              moment
              (subject_limiter no_split ask same same same mounted
                (verify [])
                orders
                configured
                false
                moment
                (record { rate = 5; burst = pos 10; key_by = codes "jwt_sub" }))
              who.identity.subject
              request
              0
              state))
IsLimitedBy-subject_example =
    IsLimitedBy-subject no_split ask same same same mounted (verify []) orders configured false
      moment is_zero_rate configured (record { rate = 5; burst = pos 10; key_by = codes "jwt_sub" })
      accepted (here refl) refl refl request 0 state

abbrev observed : GatewayConfig ℕ
observed = record configured { otel_endpoint = b'o' ∷ codes "tel" }

abbrev library : Library Text
library = record {
  merge_error = none;
  trace_error = λ url. none;
  metric_error = λ url. none;
  log_error = λ url. none;
  runtime_error = none;
  shutdown_error = λ p. none;
}

-- The gateway cannot be built, since no upstream is up.
abbrev dark : World Text Text Text
dark = record world { ended = λ service. [] }

abbrev made_at_start : List Effect
made_at_start = (setup library (codes "otel") (intervals_of library dark signalled observed)).0

is_up :
    setup library (codes "otel") (intervals_of library dark signalled observed)
    ≡ (made_at_start, sdk)
unfolding setup
is_up = refl

run_flushes_example :
    let (events, code) = run library dark signalled (ok observed) in
    (times_made tracer (effects_of events) ≡ 1)
    × (((gw : Gateway ℕ Text) × (build_router dark observed ≡ done gw)
          × (signalled ≡ signalled)
          × (code ≡ 0)
          × (times_shut tracer (effects_of events) ≡ 1))
        ⊎ ((((why : Err) × (build_router dark observed ≡ failed why)) ⊎ (signalled ≡ listen_failed))
            × (code ≡ 1)
            × (times_shut tracer (effects_of events) ≡ 0)))
run_flushes_example =
    run_flushes library dark signalled observed b'o' (codes "tel") made_at_start tracer refl is_up
