-- ===== src/Recording/Instruments.antt =====
-- internal/metrics/metrics.go: which errors come back when the instruments are made. The calls on the
-- library's `metric.Meter` are the parameters, by whether they succeed.
use go_api_gateway.Prelude.{Bool, true, false, Option, none, some, if◌then◌else◌}

pub record Meter : Type 0 where
  pub int64_counter : Bool
  pub float64_histogram : Bool
  pub int64_observable_gauge : Bool
  pub register_callback : Bool

-- The call that failed.
pub data MeterErr : Type 0 where
  requests_total request_duration upstream_healthy callback : MeterErr

-- `NewMetrics`, whose error is `none` if it is nil.
unfoldable pub new_metrics : Meter → Option MeterErr
new_metrics meter =
    if meter.int64_counter
    then (if meter.float64_histogram then none else some request_duration)
    else some requests_total

-- `RegisterUpstreamHealth`.
unfoldable pub register_upstream_health : Meter → Option MeterErr
register_upstream_health meter =
    if meter.int64_observable_gauge
    then (if meter.register_callback then none else some callback)
    else some upstream_healthy

abbrev pub is_nil_error : Option MeterErr → Bool
is_nil_error none = true
is_nil_error (some e) = false
