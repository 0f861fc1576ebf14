-- ===== src/Telemetry/Release.antt =====
-- The providers that `Setup` of internal/otel/otel.go makes.
use go_api_gateway.Prelude.{
  ℕ, ◌+◌, ◌≡◌, refl, List, [], ◌∷◌, ◌++◌, Text, codes, inl, inr, Option-cases,
}
use go_api_gateway.Telemetry.{
  Provider, tracer, meter, logger, Intervals, Effect, made, shut, Library, SetupResult, sdk, failed,
  trim_right, shutdown, setup,
}

abbrev pub one_if_same : Provider → Provider → ℕ
one_if_same tracer tracer = 1
one_if_same meter meter = 1
one_if_same logger logger = 1
one_if_same _ _ = 0

-- How often the provider is made, and how often it is shut down.
abbrev pub times_made : Provider → List Effect → ℕ
times_made p [] = 0
times_made p (made q url every ∷ effects) = one_if_same p q + times_made p effects
times_made p (_ ∷ effects) = times_made p effects

abbrev pub times_shut : Provider → List Effect → ℕ
times_shut p [] = 0
times_shut p (shut q ∷ effects) = one_if_same p q + times_shut p effects
times_shut p (_ ∷ effects) = times_shut p effects

pub each_once :
    (p : Provider) → one_if_same p tracer + (one_if_same p meter + (one_if_same p logger + 0)) ≡ 1
each_once tracer = refl
each_once meter = refl
each_once logger = refl

-- A provider that was made is shut down as often as it was made, after a failure; else it is made once
-- and lives.
abbrev pub IsReleased : {E : Type 0} → List Effect × SetupResult E → Provider → Type 0
IsReleased (effects, sdk) p = (times_made p effects ≡ 1) × (times_shut p effects ≡ 0)
IsReleased (effects, failed es) p = times_shut p effects ≡ times_made p effects

-- `Setup` makes each of the three providers once and leaves them running, or fails, and then has shut
-- down each provider that it had made, once.
pub setup-IsReleased :
    {E : Type 0} (lib : Library E) (endpoint : Text) (iv : Intervals) (p : Provider)
    → IsReleased (setup lib endpoint iv) p
unfolding setup shutdown
setup-IsReleased lib endpoint iv p =
    let base = trim_right b'/' endpoint in
    elim (Option-cases lib.merge_error) [
      | inr (e, fails) ↦ rw fails refl
      | inl merged ↦ elim (Option-cases (lib.trace_error (base ++ codes "/v1/traces"))) [
        | inr (e, fails) ↦ rw (merged, fails) refl
        | inl traces ↦ elim (Option-cases (lib.metric_error (base ++ codes "/v1/metrics"))) [
          | inr (e, fails) ↦ rw (merged, traces, fails) refl
          | inl metrics ↦ elim (Option-cases (lib.log_error (base ++ codes "/v1/logs"))) [
            | inr (e, fails) ↦ rw (merged, traces, metrics, fails) refl
            | inl logs ↦ elim (Option-cases lib.runtime_error) [
              | inr (e, fails) ↦ rw (merged, traces, metrics, logs, fails) refl
              | inl starts ↦ rw (merged, traces, metrics, logs, starts) (each_once p, refl)
            ]
          ]
        ]
      ]
    ]
