-- ===== src/Startup/Services.antt =====
-- When `buildRouter` of cmd/gateway/server.go builds the services of a configuration.
use go_api_gateway.Prelude.{
  ◌≡◌, refl, Bool, true, false, List, [], ◌∷◌, map, All, ap₂, sym, ◌∙◌, inl, inr, ◌⊎◌, ◌&&◌, not,
}
use go_api_gateway.Config.Types.{ServiceConfig, GatewayConfig}
use go_api_gateway.Startup.Conditions.{bind_done, done_injective}
use go_api_gateway.Server.{build_service_limiter, build_service_handler}
use go_api_gateway.Startup.{auth_without_key, failed, done, Service, build_service, build_services}

guard_cases :
    (auth has_key : Bool)
    → (auth && not has_key ≡ true)
      ⊎ ((auth && not has_key ≡ false) × (auth ≡ true → has_key ≡ true))
guard_cases true true = inr (refl, λ _. refl)
guard_cases true false = inl refl
guard_cases false has_key = inr (refl, λ e. absurd (let q : false ≡ true = e in cc))

guard_passes : (auth has_key : Bool) → (auth ≡ true → has_key ≡ true) → auth && not has_key ≡ false
guard_passes true has_key h = rw (h refl) refl
guard_passes false has_key h = refl

module _ {F : Type 0} (cfg : GatewayConfig F) where
  -- A service that has been built, but not probed.
  abbrev pub built : Bool → ServiceConfig F → Service F
  built redis svc = record {
    config = svc;
    handler = (build_service_handler svc cfg).0;
    checker = (build_service_handler svc cfg).1;
    limiter = build_service_limiter svc cfg redis;
  }

  -- A service with `auth` has a key.
  abbrev pub IsGuarded : Bool → ServiceConfig F → Type 0
  IsGuarded has_key svc = svc.auth ≡ true → has_key ≡ true

  build_service_sound :
      (has_key redis : Bool) (svc : ServiceConfig F) (service : Service F)
      → build_service has_key redis cfg svc ≡ done service
      → IsGuarded has_key svc × (built redis svc ≡ service)
  unfolding build_service
  build_service_sound has_key redis svc service h = elim (guard_cases svc.auth has_key) [
    | inl refused ↦
        let e : build_service has_key redis cfg svc ≡ failed (auth_without_key svc.name) =
          rw refused refl in
        absurd (let q : failed (auth_without_key svc.name) ≡ done service = sym e ∙ h in cc)
    | inr (passes, guarded) ↦
        let e : build_service has_key redis cfg svc ≡ done (built redis svc) = rw passes refl in
        (guarded, done_injective (sym e ∙ h))
  ]

  build_service_complete :
      (has_key redis : Bool) (svc : ServiceConfig F)
      → IsGuarded has_key svc
      → build_service has_key redis cfg svc ≡ done (built redis svc)
  unfolding build_service
  build_service_complete has_key redis svc guarded = rw (guard_passes svc.auth has_key guarded) refl

  pub build_services_sound :
      (has_key redis : Bool) (svcs : List (ServiceConfig F)) (services : List (Service F))
      → build_services has_key redis cfg svcs ≡ done services
      → All (IsGuarded has_key) svcs × (map (built redis) svcs ≡ services)
  unfolding build_services
  build_services_sound has_key redis [] services h = (tt, done_injective h)
  build_services_sound has_key redis (svc ∷ svcs) services h =
      let (service, one, h₁) = bind_done (build_service has_key redis cfg svc) _ services h in
      let (rest, others, same) =
        bind_done (build_services has_key redis cfg svcs) (λ r. done (service ∷ r)) services h₁ in
      let (guarded, is_built) = build_service_sound has_key redis svc service one in
      let (all_guarded, all_built) = build_services_sound has_key redis svcs rest others in
      ((guarded, all_guarded), ap₂ (λ x xs. x ∷ xs) is_built all_built ∙ done_injective same)

  pub build_services_complete :
      (has_key redis : Bool) (svcs : List (ServiceConfig F))
      → All (IsGuarded has_key) svcs
      → build_services has_key redis cfg svcs ≡ done (map (built redis) svcs)
  unfolding build_services
  build_services_complete has_key redis [] h = refl
  build_services_complete has_key redis (svc ∷ svcs) (guarded, h) =
      rw
        (
          build_service_complete has_key redis svc guarded,
          build_services_complete has_key redis svcs h,
        )
        refl
