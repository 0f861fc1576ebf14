-- ===== src/Router/Edge.antt =====
-- What the middleware that cmd/gateway/server.go puts around every route makes of a request: the
-- reply, and what is left in the log, the metrics and the traces.
use go_api_gateway.Prelude.{
  ◌≡◌, refl, true, false, none, some, List, [], ◌∷◌, ◌++◌, ltb_ℤ, leb, Text, codes, length,
}
use go_api_gateway.Config.Types.{GatewayConfig}
use go_api_gateway.Http.{Request, Action, set_header, json_error, error_message, status_of, body_of}
use go_api_gateway.Middleware.{
  Reply, Panicky, returned, server_error, recoverer, request_id, max_body, concurrency_limit,
}
use go_api_gateway.Recording.{
  LogLine, Sample, Span, logger, metrics, tracing, level_of, log_line, route_label,
}
use go_api_gateway.Recording.Status.{IsOrderly, recorded_status, recorded_bytes}
use go_api_gateway.Router.{Arrival, edge}

-- The log line of a reply with the calls.
abbrev pub line_for : Request → Text → Arrival → List Action → LogLine
line_for r id a actions = record {
  level = level_of (status_of actions);
  method = r.method;
  path = r.path;
  status = status_of actions;
  duration_ns = a.duration;
  bytes = length (body_of actions);
  request_id = id;
}

abbrev pub sample_for : Request → Arrival → List Action → Sample
sample_for r a actions = record {
  method = r.method;
  route = route_label a.route;
  status = status_of actions;
  duration_ns = a.duration;
}

abbrev pub span_for : Request → List Action → Span
span_for r actions = record {
  attributes = some (record { method = r.method; path = r.path; status = status_of actions });
  failed = leb 500 (status_of actions);
}

-- The request as the inner handlers see it.
abbrev pub numbered : Request → Text → Request
numbered r id = record r { request_id = some id }

module _ {F S : Type 0} (cfg : GatewayConfig F) (a : Arrival) (route : Panicky S) where
  -- What the concurrency limit makes of the request.
  abbrev pub inner : Request → Text → S → Reply × S
  inner r id s =
      concurrency_limit cfg.max_in_flight a.in_flight route
        (record (numbered r id) { body_limit = some cfg.max_body_bytes }) s

  module _ (id : Text) (drawn : a.uuid ≡ some id) (r : Request) (log : List LogLine)
      (samples : List Sample) (spans : List Span) (s : S) where
    abbrev pub stamped : List Action → List Action
    stamped actions = set_header (codes "X-Request-ID") id ∷ actions

    -- A request that has drawn an identifier and whose declared length is within the limit, and whose
    -- route or the concurrency limit before it returns, having called `WriteHeader` once at most and
    -- before any write, gets that reply with the identifier in front. One log line, one data point
    -- and one span are left, all with the status that the client gets, the line with the length of
    -- the body and the identifier.
    pub edge-returned :
        ltb_ℤ cfg.max_body_bytes r.content_length ≡ false
        → (inner r id s).0.panic ≡ none
        → IsOrderly (inner r id s).0.actions
        → let actions = (inner r id s).0.actions in
          edge cfg a route r (log, (samples, (spans, s))) ≡ (
            returned (stamped actions),
            (
              log ++ line_for r id a actions ∷ [],
              (
                samples ++ sample_for r a actions ∷ [],
                (spans ++ span_for r actions ∷ [], (inner r id s).1),
              ),
            ),
          )
    unfolding edge recoverer request_id logger max_body metrics tracing log_line
    edge-returned small returns orderly =
        let status = recorded_status (inner r id s).0.actions orderly in
        rw (drawn, small, returns, status, recorded_bytes (inner r id s).0.actions) refl

    -- If the route panics instead, the client gets what it had written with a JSON error behind it,
    -- and no log line and no data point is left, only a span without attributes.
    pub edge_panicked :
        (v : Text)
        → ltb_ℤ cfg.max_body_bytes r.content_length ≡ false
        → (inner r id s).0.panic ≡ some v
        → edge cfg a route r (log, (samples, (spans, s))) ≡ (
          returned (stamped (inner r id s).0.actions ++ server_error),
          (
            log,
            (
              samples,
              (spans ++ record { attributes = none; failed = false } ∷ [], (inner r id s).1),
            ),
          ),
        )
    unfolding edge recoverer request_id logger max_body metrics tracing
    edge_panicked v small panics = rw (drawn, small, panics) refl

    -- A request whose declared length is over the limit gets a 413 with an identifier, the route does
    -- not run, and a log line is left, but no data point and no span.
    pub edge_too_large :
        ltb_ℤ cfg.max_body_bytes r.content_length ≡ true
        → let actions = json_error 413 (error_message (codes "request body too large")) in
          edge cfg a route r (log, (samples, (spans, s))) ≡ (
            returned (stamped actions),
            (log ++ line_for r id a actions ∷ [], (samples, (spans, s))),
          )
    unfolding edge recoverer request_id logger max_body log_line
    edge_too_large large =
        let actions = json_error 413 (error_message (codes "request body too large")) in
        rw (drawn, large, recorded_status actions tt, recorded_bytes actions) refl
