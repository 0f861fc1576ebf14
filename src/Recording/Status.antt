-- ===== src/Recording/Status.antt =====
-- Whether what internal/middleware/logger.go, tracing.go and internal/metrics write down is what the
-- client got.
use go_api_gateway.Prelude.{
  ◌+◌, ◌≡◌, refl, false, none, some, List, [], ◌∷◌, ◌++◌, ℤ, Text, length, leb, arith, ◌∙◌,
  length-append,
}
use go_api_gateway.Http.{
  Request, Action, set_header, add_header, del_header, write_header, write, status_of, body_of,
}
use go_api_gateway.Middleware.{Panicky}
use go_api_gateway.Recording.{
  Recorder, new_recorder, record_all, level_of, LogLine, log_line, id_or, Sample, route_label, Span,
  logger, metrics, tracing,
}

-- No call of `WriteHeader`.
abbrev pub IsHeadless : List Action → Type 0
IsHeadless [] = Unit
IsHeadless (write_header code ∷ actions) = ⊥
IsHeadless (_ ∷ actions) = IsHeadless actions

-- `WriteHeader` is called once at most, and before any `Write`.
abbrev pub IsOrderly : List Action → Type 0
IsOrderly [] = Unit
IsOrderly (write_header code ∷ actions) = IsHeadless actions
IsOrderly (write b ∷ actions) = IsHeadless actions
IsOrderly (_ ∷ actions) = IsOrderly actions

headless_status :
    (rw : Recorder) (actions : List Action)
    → IsHeadless actions
    → (record_all rw actions).status ≡ rw.status
unfolding record_all
headless_status rw [] h = refl
headless_status rw (write_header code ∷ actions) h = absurd h
headless_status rw (write b ∷ actions) h =
    headless_status (record rw { bytes = rw.bytes + length b }) actions h
headless_status rw (set_header name v ∷ actions) h = headless_status rw actions h
headless_status rw (add_header name v ∷ actions) h = headless_status rw actions h
headless_status rw (del_header name ∷ actions) h = headless_status rw actions h

pub recorded_status :
    (actions : List Action)
    → IsOrderly actions
    → (record_all new_recorder actions).status ≡ status_of actions
unfolding record_all
recorded_status [] h = refl
recorded_status (write_header code ∷ actions) h =
    headless_status (record { status = code; bytes = 0 }) actions h
recorded_status (write b ∷ actions) h =
    headless_status (record { status = 200; bytes = 0 + length b }) actions h
recorded_status (set_header name v ∷ actions) h = recorded_status actions h
recorded_status (add_header name v ∷ actions) h = recorded_status actions h
recorded_status (del_header name ∷ actions) h = recorded_status actions h

recorded_bytes_from :
    (actions : List Action) (rw : Recorder)
    → (record_all rw actions).bytes ≡ rw.bytes + length (body_of actions)
unfolding record_all
recorded_bytes_from [] rw = omega arith
recorded_bytes_from (write_header code ∷ actions) rw =
    recorded_bytes_from actions (record rw { status = code })
recorded_bytes_from (write b ∷ actions) rw = omega (
  arith,
  recorded_bytes_from actions (record rw { bytes = rw.bytes + length b }),
  length-append b (body_of actions),
)
recorded_bytes_from (set_header name v ∷ actions) rw = recorded_bytes_from actions rw
recorded_bytes_from (add_header name v ∷ actions) rw = recorded_bytes_from actions rw
recorded_bytes_from (del_header name ∷ actions) rw = recorded_bytes_from actions rw

pub recorded_bytes :
    (actions : List Action) → (record_all new_recorder actions).bytes ≡ length (body_of actions)
recorded_bytes actions = recorded_bytes_from actions new_recorder ∙ (omega arith)

-- The three around a handler, in the order of cmd/gateway/server.go.
abbrev pub observed :
    {S : Type 0} → Panicky S → ℤ → Text → Panicky (List LogLine × (List Sample × (List Span × S)))
observed next duration pattern_ = logger (metrics (tracing next) duration pattern_) duration

module _ {S : Type 0} (next : Panicky S) (duration : ℤ) (pattern_ : Text) where
  -- A handler that returns, and calls `WriteHeader` once at most and before it writes, leaves one log
  -- line, one data point and one span, all with the status that the client gets, and the log line
  -- with the length of the body.
  pub observed_returned :
      (r : Request) (log : List LogLine) (samples : List Sample) (spans : List Span) (s : S)
      → (next r s).0.panic ≡ none
      → IsOrderly (next r s).0.actions
      → let status = status_of (next r s).0.actions in
        observed next duration pattern_ r (log, (samples, (spans, s))) ≡ (
          (next r s).0,
          (
            log
                ++ record {
                  level = level_of status;
                  method = r.method;
                  path = r.path;
                  status = status;
                  duration_ns = duration;
                  bytes = length (body_of (next r s).0.actions);
                  request_id = id_or r.request_id;
                }
                  ∷ [],
            (
              samples
                  ++ record {
                    method = r.method;
                    route = route_label pattern_;
                    status = status;
                    duration_ns = duration;
                  }
                    ∷ [],
              (
                spans
                    ++ record {
                      attributes =
                          some (record { method = r.method; path = r.path; status = status });
                      failed = leb 500 status;
                    }
                      ∷ [],
                (next r s).1,
              ),
            ),
          ),
        )
  unfolding logger metrics tracing log_line
  observed_returned r log samples spans s returns orderly =
      rw
        (returns, recorded_status (next r s).0.actions orderly, recorded_bytes (next r s).0.actions)
        refl

  -- A handler that panics leaves no log line and no data point, and a span without attributes.
  pub observed_panicked :
      (r : Request) (log : List LogLine) (samples : List Sample) (spans : List Span) (s : S)
      (v : Text)
      → (next r s).0.panic ≡ some v
      → observed next duration pattern_ r (log, (samples, (spans, s))) ≡ (
        (next r s).0,
        (
          log,
          (samples, (spans ++ record { attributes = none; failed = false } ∷ [], (next r s).1)),
        ),
      )
  unfolding logger metrics tracing
  observed_panicked r log samples spans s v panics = rw panics refl
