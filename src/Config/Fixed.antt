-- ===== src/Config/Fixed.antt =====
-- Which configurations `validate` of internal/config/validate.go leaves as they are.
use go_api_gateway.Prelude.{
  ℕ, ◌+◌, ◌≡◌, refl, ◌≢◌, ◌↔◌, Bool, true, false, Option, none, some, List, [], ◌∷◌, Text, arith,
  All-map₂, ap,
}
use go_api_gateway.Prelude.Dict.{Dict, put, find-put}
use go_api_gateway.Config.Types.{
  ServiceRateLimitConfig, ServiceConfig, RateLimitConfig, CbConfig, GatewayConfig, ok,
}
use go_api_gateway.Config.Services.{
  seen, apply_service_cache_defaults, check_rate_limit, validate_service, services_loop,
  validate_services,
}
use go_api_gateway.Config.{apply_defaults, validate, validate_rate_limit, validate_circuit_breaker}
use go_api_gateway.Config.Accepts.{CacheOk, LimitOk, ServiceOk, ServicesOk}
use go_api_gateway.Config.Soundness.{RateLimitOk, BreakerOk, ConfigOk, validate_sound}

seen-put_ne :
    (k j : Text) (m : Dict Bool) → k ≢ j → seen j m ≡ false → seen j (put k true m) ≡ false
unfolding seen
seen-put_ne k j m h e = ground (arith, find-put k j true m)

module _ {F : Type 0} (not_positive : F → Bool) where
  check_rate_limit_fixed :
      (name : Text) (auth : Bool) (rl : Option (ServiceRateLimitConfig F))
      → LimitOk not_positive auth rl
      → check_rate_limit not_positive name auth rl ≡ ok rl
  unfolding check_rate_limit
  check_rate_limit_fixed name auth none h = refl
  check_rate_limit_fixed name auth (some rl) h = ground arith

  fill_cache_fixed :
      (svc : ServiceConfig F) → CacheOk svc.cache → apply_service_cache_defaults svc ≡ svc
  unfolding apply_service_cache_defaults
  fill_cache_fixed svc h = ground arith

  validate_service_fixed :
      (i : ℕ) (sn sp : Dict Bool) (svc : ServiceConfig F)
      → ServiceOk not_positive svc
      → seen svc.name sn ≡ false
      → seen svc.prefix sp ≡ false
      → validate_service not_positive i sn sp svc ≡ ok svc
  unfolding validate_service
  validate_service_fixed i sn sp svc v n p = ground (
    arith,
    check_rate_limit_fixed svc.name svc.auth svc.rate_limit v.limited,
    fill_cache_fixed svc v.cached,
  )

  tail-ServicesOk :
      (sn sp : Dict Bool) (svc : ServiceConfig F) (svcs : List (ServiceConfig F))
      → ServicesOk not_positive sn sp (svc ∷ svcs)
      → ServicesOk not_positive (put svc.name true sn) (put svc.prefix true sp) svcs
  tail-ServicesOk sn sp svc svcs v = record {
    each = v.each.1;
    names = v.names.1;
    prefixes = v.prefixes.1;
    new_names = All-map₂ (λ t d h. seen-put_ne svc.name t.name sn d h) svcs v.names.0 v.new_names.1;
    new_prefixes =
        All-map₂ (λ t d h. seen-put_ne svc.prefix t.prefix sp d h) svcs v.prefixes.0
          v.new_prefixes.1;
  }

  services_loop_fixed :
      (i : ℕ) (sn sp : Dict Bool) (svcs : List (ServiceConfig F))
      → ServicesOk not_positive sn sp svcs
      → services_loop not_positive i sn sp svcs ≡ ok svcs
  unfolding services_loop
  services_loop_fixed i sn sp [] v = refl
  services_loop_fixed i sn sp (svc ∷ svcs) v =
      let one = validate_service_fixed i sn sp svc v.each.0 v.new_names.0 v.new_prefixes.0 in
      let others =
        services_loop_fixed (i + 1) (put svc.name true sn) (put svc.prefix true sp) svcs
          (tail-ServicesOk sn sp svc svcs v) in
      ground (arith, one, others)

  validate_services_fixed :
      (svcs : List (ServiceConfig F))
      → svcs ≢ []
      → ServicesOk not_positive [] [] svcs
      → validate_services not_positive svcs ≡ ok svcs
  unfolding validate_services
  validate_services_fixed [] n v = absurd (n refl)
  validate_services_fixed (svc ∷ svcs) n v = services_loop_fixed 0 [] [] (svc ∷ svcs) v

  validate_rate_limit_fixed :
      (rl : Option (RateLimitConfig F))
      → RateLimitOk not_positive rl
      → validate_rate_limit not_positive rl ≡ ok rl
  unfolding validate_rate_limit
  validate_rate_limit_fixed none h = refl
  validate_rate_limit_fixed (some rl) h = ground arith

  validate_circuit_breaker_fixed :
      (cb : Option CbConfig) → BreakerOk not_positive cb → validate_circuit_breaker cb ≡ ok cb
  unfolding validate_circuit_breaker
  validate_circuit_breaker_fixed none h = refl
  validate_circuit_breaker_fixed (some cb) h = ground arith

  apply_defaults_fixed :
      (cfg : GatewayConfig F) → ConfigOk not_positive cfg → apply_defaults cfg ≡ cfg
  unfolding apply_defaults
  apply_defaults_fixed cfg v = ground arith

  validate_fixed :
      (cfg : GatewayConfig F) → ConfigOk not_positive cfg → validate not_positive cfg ≡ ok cfg
  unfolding validate
  validate_fixed cfg v =
      let s = validate_services_fixed cfg.services v.some_service v.services in
      let r = validate_rate_limit_fixed cfg.rate_limit v.rate_limit in
      let b = validate_circuit_breaker_fixed cfg.circuit_breaker v.circuit_breaker in
      rw (s, r, b) (ap ok (apply_defaults_fixed cfg v))

-- A configuration passes `validate` unchanged exactly when it is sound.
pub validate_fixed_iff :
    {F : Type 0} (not_positive : F → Bool) (cfg : GatewayConfig F)
    → (validate not_positive cfg ≡ ok cfg) ↔ ConfigOk not_positive cfg
validate_fixed_iff not_positive cfg =
    (validate_sound not_positive cfg cfg, validate_fixed not_positive cfg)

-- To validate an accepted configuration again changes nothing.
pub validate_idempotent :
    {F : Type 0} (not_positive : F → Bool) (cfg cfg' : GatewayConfig F)
    → validate not_positive cfg ≡ ok cfg'
    → validate not_positive cfg' ≡ ok cfg'
validate_idempotent not_positive cfg cfg' h =
    validate_fixed not_positive cfg' (validate_sound not_positive cfg cfg' h)
