-- ===== src/Tests/Edges.antt =====
-- Runs of the middleware around the routes, of the chain of a service and of the start.
use go_api_gateway.Prelude.{ℕ, suc, ◌≡◌, refl, false, none, some, [], ◌∷◌, pos, codes}
use go_api_gateway.Config.Types.{GatewayConfig, seconds}
use go_api_gateway.Http.{Request, write, write_header, set_header}
use go_api_gateway.Middleware.{Panicky, returned, server_error, concurrency_limit}
use go_api_gateway.Router.{Arrival, edge}
use go_api_gateway.Router.Edge.{line_for, sample_for, span_for, edge-returned, edge_panicked}

abbrev pub request : Request
request = record {
  method = codes "GET";
  path = codes "/a";
  query = [];
  header = (codes "Authorization", codes "Bearer t" ∷ []) ∷ [];
  remote_addr = codes "1.2.3.4:5";
  content_length = pos 0;
  body_limit = none;
  claims = none;
  request_id = none;
  target = none;
}

-- It breaks off in the middle of its body.
abbrev breaks : Panicky ℕ
breaks r n = (
  record { actions = write_header 200 ∷ write (codes "half") ∷ []; panic = some (codes "abort") },
  suc n,
)

abbrev pub gateway : GatewayConfig ℕ
gateway = record {
  port = pos 8080;
  max_body_bytes = pos 1000;
  max_header_bytes = pos 1000;
  max_in_flight = pos 2;
  compression = record { enabled = false; min_bytes = pos 0 };
  rate_limit = none;
  health_check = record { interval = seconds 5; path = codes "/healthz" };
  circuit_breaker = none;
  transport = record {
    max_idle_conns = pos 1;
    max_idle_conns_per_host = pos 1;
    idle_conn_timeout = seconds 1;
    dial_timeout = seconds 1;
    tls_handshake_timeout = seconds 1;
  };
  telemetry = record {
    metric_interval = seconds 1;
    trace_batch_timeout = seconds 1;
    log_batch_timeout = seconds 1;
  };
  services = [];
  otel_endpoint = [];
  jwt_public_key = codes "key.pem";
  redis_password = [];
}

abbrev arrival : Arrival
arrival = record { uuid = some (codes "id"); duration = pos 7; in_flight = 1; route = codes "/a/*" }

abbrev answers : Panicky ℕ
answers r n = (returned (write_header 404 ∷ write (codes "no") ∷ []), suc n)

edge-returned_example : edge gateway arrival answers request ([], ([], ([], 0))) ≡ (
  returned
      (set_header (codes "X-Request-ID") (codes "id") ∷ write_header 404 ∷ write (codes "no") ∷ []),
  (
    line_for request (codes "id") arrival (write_header 404 ∷ write (codes "no") ∷ []) ∷ [],
    (
      sample_for request arrival (write_header 404 ∷ write (codes "no") ∷ []) ∷ [],
      (span_for request (write_header 404 ∷ write (codes "no") ∷ []) ∷ [], 1),
    ),
  ),
)
unfolding concurrency_limit
edge-returned_example =
    edge-returned gateway arrival answers (codes "id") refl request [] [] [] 0 refl refl tt

edge_panicked_example : edge gateway arrival breaks request ([], ([], ([], 0))) ≡ (
  returned (
      set_header (codes "X-Request-ID") (codes "id")
      ∷ write_header 200
      ∷ write (codes "half")
      ∷ server_error),
  ([], ([], (record { attributes = none; failed = false } ∷ [], 1))),
)
unfolding concurrency_limit
edge_panicked_example =
    edge_panicked gateway arrival breaks (codes "id") refl request [] [] [] 0 (codes "abort") refl
      refl
