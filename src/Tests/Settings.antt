-- ===== src/Tests/Settings.antt =====
-- Runs of the validation of a configuration and of what the server builds from it, with natural
-- numbers in the place of float64.
use go_api_gateway.Prelude.{
  ℕ, ◌≤◌, ◌≡◌, refl, Bool, true, false, none, some, [], ◌∷◌, pos, Text, codes, arith, All, ◌==◌,
  List, length, ◌+◌,
}
use go_api_gateway.Config.Types.{ServiceConfig, GatewayConfig, ok, Result, seconds}
use go_api_gateway.Config.{validate}
use go_api_gateway.Config.Soundness.{ConfigOk, validate_sound}
use go_api_gateway.Breaker.{new_breaker}
use go_api_gateway.Http.{write_header, write}
use go_api_gateway.Proxy.{response, aborted}
use go_api_gateway.Proxy.Accounting.{IsAnswered}
use go_api_gateway.Proxy.Overlap.{Event, arrive, finish, run}
use go_api_gateway.Proxy.Overlap.Counting.{arrivals, cut_off, aborts}
use go_api_gateway.Server.Overlapping.{built, built_handler_answers_overlapping}

abbrev is_zero_rate : ℕ → Bool
is_zero_rate n = n == 0

abbrev orders : ServiceConfig ℕ
orders = record {
  name = codes "orders";
  prefix = codes "/orders";
  upstreams = codes "http://a" ∷ [];
  auth = true;
  required_roles = codes "admin" ∷ [];
  rate_limit = none;
  cache = none;
}

-- All that may be left to the defaults is.
abbrev bare : GatewayConfig ℕ
bare = record {
  port = pos 8080;
  max_body_bytes = pos 0;
  max_header_bytes = pos 0;
  max_in_flight = pos 0;
  compression = record { enabled = true; min_bytes = pos 0 };
  rate_limit = none;
  health_check = record { interval = pos 0; path = [] };
  circuit_breaker = some (record { max_failures = pos 5; timeout = seconds 30 });
  transport = record {
    max_idle_conns = pos 0;
    max_idle_conns_per_host = pos 0;
    idle_conn_timeout = pos 0;
    dial_timeout = pos 0;
    tls_handshake_timeout = pos 0;
  };
  telemetry = record {
    metric_interval = pos 0;
    trace_batch_timeout = pos 0;
    log_batch_timeout = pos 0;
  };
  services = orders ∷ [];
  otel_endpoint = [];
  jwt_public_key = codes "key.pem";
  redis_password = [];
}

abbrev validated : Result (GatewayConfig ℕ) → GatewayConfig ℕ
validated (ok cfg) = cfg
validated _ = bare

abbrev filled : GatewayConfig ℕ
filled = validated (validate is_zero_rate bare)

validate_sound_example : ConfigOk is_zero_rate filled
unfolding validate
validate_sound_example = validate_sound is_zero_rate bare filled refl

abbrev always : Text → Bool
always u = true

-- Two requests overlap, a third finds no healthy upstream, and the first two end, one with a
-- response that breaks off.
abbrev overlapping : List Event
overlapping =
    arrive always (pos 3)
    ∷ arrive always (pos 4)
    ∷ arrive (λ u. false) (pos 5)
    ∷ finish 1 (response 503 []) (pos 6)
    ∷ finish 0 (aborted 200 (write_header 200 ∷ write (codes "pa") ∷ [])) (pos 7)
    ∷ []

built_handler_answers_overlapping_example :
    All IsAnswered (run always (built orders bare) overlapping).1
    × (cut_off (run always (built orders bare) overlapping).1 ≤ aborts overlapping)
    × (arrivals overlapping
        ≡ length (run always (built orders bare) overlapping).1
          + length (run always (built orders bare) overlapping).0.in_flight)
unfolding new_breaker
built_handler_answers_overlapping_example =
    built_handler_answers_overlapping always 5 orders bare refl (omega arith) (omega arith)
      (refl, tt) overlapping
