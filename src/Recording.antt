-- ===== src/Recording.antt =====
-- internal/middleware/logger.go, internal/middleware/tracing.go and internal/metrics/metrics.go: what
-- the gateway writes down of a request. The three keep the status by the same kind of writer. The
-- instruments, the log and the tracer are lists of what they were given; durations are parameters.
pub mod Status
pub mod Instruments
use go_api_gateway.Prelude.{
  ℕ, ◌+◌, Bool, true, false, Option, none, some, List, [], ◌∷◌, ◌++◌, if◌then◌else◌, ℤ, Text, codes,
  length, leb,
}
use go_api_gateway.Strings.{is_nil}
use go_api_gateway.Http.{Request, Action, set_header, add_header, del_header, write_header, write}
use go_api_gateway.Middleware.{Reply, Panicky}

-- `loggerWriter`; `tracingWriter` and `metricsWriter` have the status alone.
pub record Recorder : Type 0 where
  pub status : ℕ
  pub bytes : ℕ

abbrev pub new_recorder : Recorder
new_recorder = record { status = 200; bytes = 0 }

unfoldable pub record_action : Recorder → Action → Recorder
record_action rw (write_header code) = record rw { status = code }
record_action rw (write b) = record rw { bytes = rw.bytes + length b }
record_action rw (set_header name v) = rw
record_action rw (add_header name v) = rw
record_action rw (del_header name) = rw

unfoldable pub record_all : Recorder → List Action → Recorder
unfolding record_action
record_all rw [] = rw
record_all rw (a ∷ actions) = record_all (record_action rw a) actions

pub data Level : Type 0 where
  info warn error : Level

unfoldable pub level_of : ℕ → Level
level_of status = if leb 500 status then error else (if leb 400 status then warn else info)

pub record LogLine : Type 0 where
  pub level : Level
  pub method : Text
  pub path : Text
  pub status : ℕ
  pub duration_ns : ℤ
  pub bytes : ℕ
  pub request_id : Text

abbrev pub id_or : Option Text → Text
id_or none = []
id_or (some id) = id

unfoldable pub log_line : Request → ℤ → Recorder → LogLine
unfolding level_of
log_line r duration_ns rw = record {
  level = level_of rw.status;
  method = r.method;
  path = r.path;
  status = rw.status;
  duration_ns = duration_ns;
  bytes = rw.bytes;
  request_id = id_or r.request_id;
}

-- What stands behind `next.ServeHTTP` runs only if it returns.
abbrev pub if_returned : {A : Type 0} → Option Text → A → A → A
if_returned none done skipped = done
if_returned (some v) done skipped = skipped

-- A data point of the counter, with that of the histogram.
pub record Sample : Type 0 where
  pub method : Text
  pub route : Text
  pub status : ℕ
  pub duration_ns : ℤ

unfoldable pub route_label : Text → Text
route_label pattern_ = if is_nil pattern_ then codes "(shed)" else pattern_

-- The attributes `http.method`, `http.path` and `http.status`.
pub record Attributes : Type 0 where
  pub method : Text
  pub path : Text
  pub status : ℕ

-- A span that was ended, with its attributes if they were set, and whether its status is an error.
pub record Span : Type 0 where
  pub attributes : Option Attributes
  pub failed : Bool

module _ {S : Type 0} (next : Panicky S) where
  unfoldable pub logger : ℤ → Panicky (List LogLine × S)
  unfolding record_all log_line
  logger duration_ns r (log, s) =
      let (reply, s') = next r s in
      let line = log_line r duration_ns (record_all new_recorder reply.actions) in
      (reply, (if_returned reply.panic (log ++ line ∷ []) log, s'))

  -- `Middleware` of the metrics; `pattern_` is the route that chi matched, empty if it matched none.
  unfoldable pub metrics : ℤ → Text → Panicky (List Sample × S)
  unfolding record_all route_label
  metrics duration_ns pattern_ r (samples, s) =
      let (reply, s') = next r s in
      let sample : Sample = record {
        method = r.method;
        route = route_label pattern_;
        status = (record_all new_recorder reply.actions).status;
        duration_ns = duration_ns;
      } in
      (reply, (if_returned reply.panic (samples ++ sample ∷ []) samples, s'))

  -- `Tracing`: the span ends whether the handler returns or panics.
  unfoldable pub tracing : Panicky (List Span × S)
  unfolding record_all
  tracing r (spans, s) =
      let (reply, s') = next r s in
      let status : ℕ = (record_all new_recorder reply.actions).status in
      let attributes : Attributes = record { method = r.method; path = r.path; status = status } in
      let span : Span =
        if_returned reply.panic (record { attributes = some attributes; failed = leb 500 status })
          (record { attributes = none; failed = false }) in
      (reply, (spans ++ span ∷ [], s'))

-- One observation of the gauge of `RegisterUpstreamHealth`.
pub record UpstreamHealthSample : Type 0 where
  pub service : Text
  pub upstream : Text
  pub healthy : Bool

unfoldable pub observe_health : List UpstreamHealthSample → List (ℕ × Text × Text)
observe_health [] = []
observe_health (s ∷ samples) =
    (if s.healthy then 1 else 0, s.service, s.upstream) ∷ observe_health samples
