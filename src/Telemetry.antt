-- ===== src/Telemetry.antt =====
-- internal/otel/otel.go and internal/otel/fanout.go: how the OpenTelemetry providers are set up and
-- shut down, and the handler that gives a log record to several handlers. The exporters, the
-- providers and the handlers are the libraries', and their errors parameters.
pub mod Release
pub mod Delivery
use go_api_gateway.Prelude.{
  ℕ, Bool, true, false, ◌&&◌, Option, none, some, List, [], ◌∷◌, ◌++◌, map, any, if◌then◌else◌, ℤ,
  Text, codes, ◌==◌,
}
use go_api_gateway.Strings.{is_nil}

pub data Provider : Type 0 where
  tracer meter logger : Provider

pub record Intervals : Type 0 where
  pub metric_interval : ℤ
  pub trace_batch_timeout : ℤ
  pub log_batch_timeout : ℤ

-- What is done to the providers and to the globals of the library.
pub data Effect : Type 0 where
  made : (p : Provider) (url : Text) (every : ℤ) → Effect
  registered : (p : Provider) → Effect
  registered_propagator : Effect
  shut : (p : Provider) → Effect

-- What the calls of the library come to, for the URL of an exporter.
pub record Library (E : Type 0) : Type 0 where
  pub merge_error : Option E
  pub trace_error : Text → Option E
  pub metric_error : Text → Option E
  pub log_error : Text → Option E
  pub runtime_error : Option E
  pub shutdown_error : Provider → Option E

pub data SetupResult (E : Type 0) : Type 0 where
  sdk : SetupResult E
  failed : List E → SetupResult E

-- `strings.TrimRight` for one byte.
unfoldable pub trim_right : ℕ → Text → Text
trim_right c [] = []
trim_right c (x ∷ s) = let rest = trim_right c s in if is_nil rest && x == c then [] else x ∷ rest

-- The errors that `errors.Join` keeps.
abbrev pub join_errors : {E : Type 0} → List (Option E) → List E
join_errors [] = []
join_errors (none ∷ es) = join_errors es
join_errors (some e ∷ es) = e ∷ join_errors es

module _ {E : Type 0} (lib : Library E) where
  -- `Shutdown`.
  unfoldable pub shutdown : List Effect × List E
  shutdown = (
    shut tracer ∷ shut meter ∷ shut logger ∷ [],
    join_errors
        (lib.shutdown_error tracer ∷ lib.shutdown_error meter ∷ lib.shutdown_error logger ∷ []),
  )

  abbrev pub start_runtime : Option E → List Effect × SetupResult E
  start_runtime none = ([], sdk)
  start_runtime (some e) = let (effects, errors) = shutdown in (effects, failed (e ∷ errors))

  abbrev pub with_logs : Intervals → Text → Option E → List Effect × SetupResult E
  with_logs iv base (some e) = (shut tracer ∷ shut meter ∷ [], failed (e ∷ []))
  with_logs iv base none =
      let (effects, result) = start_runtime lib.runtime_error in
      (
        made logger (base ++ codes "/v1/logs") iv.log_batch_timeout
            ∷ registered tracer
            ∷ registered meter
            ∷ registered_propagator
            ∷ effects,
        result,
      )

  abbrev pub with_metrics : Intervals → Text → Option E → List Effect × SetupResult E
  with_metrics iv base (some e) = (shut tracer ∷ [], failed (e ∷ []))
  with_metrics iv base none =
      let (effects, result) = with_logs iv base (lib.log_error (base ++ codes "/v1/logs")) in
      (made meter (base ++ codes "/v1/metrics") iv.metric_interval ∷ effects, result)

  abbrev pub with_traces : Intervals → Text → Option E → List Effect × SetupResult E
  with_traces iv base (some e) = ([], failed (e ∷ []))
  with_traces iv base none =
      let (effects, result) =
        with_metrics iv base (lib.metric_error (base ++ codes "/v1/metrics")) in
      (made tracer (base ++ codes "/v1/traces") iv.trace_batch_timeout ∷ effects, result)

  abbrev pub with_resource : Intervals → Text → Option E → List Effect × SetupResult E
  with_resource iv base (some e) = ([], failed (e ∷ []))
  with_resource iv base none = with_traces iv base (lib.trace_error (base ++ codes "/v1/traces"))

  unfoldable pub setup : Text → Intervals → List Effect × SetupResult E
  unfolding trim_right shutdown
  setup endpoint iv = with_resource iv (trim_right b'/' endpoint) lib.merge_error

-- A `slog.Handler` for records of `R`: what it is called, which levels it takes, and its error.
pub record LogHandler (R E : Type 0) : Type 0 where
  pub name : Text
  pub enabled : ℤ → Bool
  pub handle : R → Option E

abbrev pub unless_failed :
    {E : Type 0} → Text → Option E → List Text × Option E → List Text × Option E
unless_failed name (some e) rest = (name ∷ [], some e)
unless_failed name none (names, outcome) = (name ∷ names, outcome)

module _ {R E : Type 0} where
  -- `fanoutHandler`.
  unfoldable pub enabled : List (LogHandler R E) → ℤ → Bool
  enabled hs level = any (λ h. h.enabled level) hs

  -- `Handle`: the handlers that are given the record, and the error.
  unfoldable pub handle : List (LogHandler R E) → ℤ → R → List Text × Option E
  handle [] level r = ([], none)
  handle (h ∷ hs) level r =
      let rest = handle hs level r in
      if h.enabled level then unless_failed h.name (h.handle r) rest else rest

  -- `WithAttrs` and `WithGroup`, over what either does to one handler.
  unfoldable pub with_each :
      (LogHandler R E → LogHandler R E) → List (LogHandler R E) → List (LogHandler R E)
  with_each change hs = map change hs
