-- ===== src/Process/Shutdown.antt =====
-- How the process of cmd/gateway/main.go leaves its telemetry.
use go_api_gateway.Prelude.{
  ℕ, ◌+◌, ◌≡◌, refl, true, List, [], ◌∷◌, ◌++◌, map, Text, arith, ap, sym, ◌∙◌, subst, ◌⊎◌, inl,
  inr,
}
use go_api_gateway.Config.Types.{GatewayConfig, ok}
use go_api_gateway.Startup.{Err, Outcome, failed, done, Gateway, World, build_router}
use go_api_gateway.Telemetry.{
  Provider, Effect, made, registered, registered_propagator, shut, Library, sdk, setup, shutdown,
}
use go_api_gateway.Telemetry.Release.{
  times_made, times_shut, each_once, IsReleased, setup-IsReleased,
}
use go_api_gateway.Process.{
  Event, telemetry, serving, server_shut, Ending, listen_failed, signalled, with_router,
  after_setup, with_endpoint, intervals_of, run,
}

abbrev pub effects_of : List Event → List Effect
effects_of [] = []
effects_of (telemetry e ∷ events) = e ∷ effects_of events
effects_of (serving ∷ events) = effects_of events
effects_of (server_shut ∷ events) = effects_of events

effects_of-append :
    (xs : List Effect) (events : List Event)
    → effects_of (map telemetry xs ++ events) ≡ xs ++ effects_of events
effects_of-append [] events = refl
effects_of-append (x ∷ xs) events = ap (λ ys. x ∷ ys) (effects_of-append xs events)

times_made-append :
    (p : Provider) (xs ys : List Effect)
    → times_made p (xs ++ ys) ≡ times_made p xs + times_made p ys
times_made-append p [] ys = omega arith
times_made-append p (made q url every ∷ xs) ys = omega (arith, times_made-append p xs ys)
times_made-append p (registered q ∷ xs) ys = times_made-append p xs ys
times_made-append p (registered_propagator ∷ xs) ys = times_made-append p xs ys
times_made-append p (shut q ∷ xs) ys = times_made-append p xs ys

times_shut-append :
    (p : Provider) (xs ys : List Effect)
    → times_shut p (xs ++ ys) ≡ times_shut p xs + times_shut p ys
times_shut-append p [] ys = omega arith
times_shut-append p (shut q ∷ xs) ys = omega (arith, times_shut-append p xs ys)
times_shut-append p (registered q ∷ xs) ys = times_shut-append p xs ys
times_shut-append p (registered_propagator ∷ xs) ys = times_shut-append p xs ys
times_shut-append p (made q url every ∷ xs) ys = times_shut-append p xs ys

module _ {E : Type 0} (lib : Library E) where
  -- How a process ends that has its telemetry set up: what it made of a provider, its exit code, and
  -- what it shut down.
  abbrev pub Ends :
      {F K : Type 0} → ℕ → Provider → Ending → Outcome Err (Gateway F K) → List Event × ℕ → Type 0
  Ends {F} {K} count p ending start (events, code) =
      (times_made p (effects_of events) ≡ count)
      × (((gw : Gateway F K) × (start ≡ done gw)
            × (ending ≡ signalled)
            × (code ≡ 0)
            × (times_shut p (effects_of events) ≡ 1))
          ⊎ ((((why : Err) × (start ≡ failed why)) ⊎ (ending ≡ listen_failed))
              × (code ≡ 1)
              × (times_shut p (effects_of events) ≡ 0)))

  with_router-Ends :
      {F K : Type 0} (p : Provider) (ending : Ending) (start : Outcome Err (Gateway F K))
      → Ends 0 p ending start (with_router lib true ending start)
  unfolding shutdown
  with_router-Ends p ending (failed why) = (refl, inr (inl (why, refl), refl, refl))
  with_router-Ends p listen_failed (done gw) = (refl, inr (inr refl, refl, refl))
  with_router-Ends p signalled (done gw) = (refl, inl (gw, refl, refl, refl, each_once p))

  after_setup-Ends :
      {F K : Type 0} (p : Provider) (ending : Ending) (start : Outcome Err (Gateway F K))
      (effects : List Effect) (rest : List Event × ℕ)
      → IsReleased {E = E} (effects, sdk) p
      → Ends 0 p ending start rest
      → Ends 1 p ending start (map telemetry effects ++ rest.0, rest.1)
  after_setup-Ends p ending start effects rest (once, never) (makes_none, shuts) =
      rw
        (
          effects_of-append effects rest.0,
          times_made-append p effects (effects_of rest.0),
          times_shut-append p effects (effects_of rest.0),
        )
        (
          omega arith,
          elim shuts [
            | inl (gw, starts, signal, zero_, one) ↦ inl (gw, starts, signal, zero_, omega arith)
            | inr (why, one, zero_) ↦ inr (why, one, omega arith)
          ],
        )

  module _ {F B P K : Type 0} (w : World B P K) (ending : Ending) (cfg : GatewayConfig F) where
    abbrev rest : List Event × ℕ
    rest = with_router lib true ending (build_router w cfg)

    run_ok :
        (c : ℕ) (endpoint : Text) (effects : List Effect)
        → cfg.otel_endpoint ≡ c ∷ endpoint
        → setup lib (c ∷ endpoint) (intervals_of lib w ending cfg) ≡ (effects, sdk)
        → run lib w ending (ok cfg) ≡ (map telemetry effects ++ rest.0, rest.1)
    unfolding run
    run_ok c endpoint effects on up =
        ap (with_endpoint lib w ending cfg) on ∙ ap (after_setup lib rest) up

    -- Of a process whose telemetry has been set up, each provider has been made once, and it ends in one
    -- of two ways: the gateway was built and a signal ended it, and then it exits with 0 and each provider
    -- has been shut down once; or the gateway could not be built or its server failed, and then it
    -- exits with 1 and no provider has been shut down.
    pub run_flushes :
        (c : ℕ) (endpoint : Text) (effects : List Effect) (p : Provider)
        → cfg.otel_endpoint ≡ c ∷ endpoint
        → setup lib (c ∷ endpoint) (intervals_of lib w ending cfg) ≡ (effects, sdk)
        → let (events, code) = run lib w ending (ok cfg) in
          (times_made p (effects_of events) ≡ 1)
          × (((gw : Gateway F K) × (build_router w cfg ≡ done gw)
                × (ending ≡ signalled)
                × (code ≡ 0)
                × (times_shut p (effects_of events) ≡ 1))
              ⊎ ((((why : Err) × (build_router w cfg ≡ failed why)) ⊎ (ending ≡ listen_failed))
                  × (code ≡ 1)
                  × (times_shut p (effects_of events) ≡ 0)))
    run_flushes c endpoint effects p on up =
        let released : IsReleased {E = E} (effects, sdk) p =
          subst (λ r. IsReleased r p) up
            (setup-IsReleased lib (c ∷ endpoint) (intervals_of lib w ending cfg) p) in
        subst (Ends 1 p ending (build_router w cfg)) (sym (run_ok c endpoint effects on up)) (
          after_setup-Ends p ending (build_router w cfg) effects rest released
            (with_router-Ends p ending (build_router w cfg)))
