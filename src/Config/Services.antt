-- ===== src/Config/Services.antt =====
-- `validateServices`, `validateServiceRateLimit` and `applyServiceCacheDefaults` of
-- internal/config/validate.go.
use go_api_gateway.Prelude.{
  ℕ, ◌+◌, Bool, true, false, not, ◌&&◌, Option, none, some, List, [], ◌∷◌, if◌then◌else◌, ite, ℤ,
  pos, Text, codes, text_eq,
}
use go_api_gateway.Prelude.Dict.{Dict, find, put}
use go_api_gateway.Config.Types.{
  ServiceRateLimitConfig, ServiceCacheConfig, ServiceConfig, Err, Result, ok, err, ◌>>=◌, ◌>>◌,
  check, at_most_zero, seconds,
}

-- `seen[k]`, false for a missing key.
unfoldable pub seen : Text → Dict Bool → Bool
unfolding find
seen k m = elim (find k m) [ none ↦ false | some b ↦ b ]

abbrev pub is_nil {ℓ} : {A : Type ℓ} → List A → Bool
is_nil [] = true
is_nil (x ∷ xs) = false

-- `if x <= 0 { x = d }`.
abbrev pub default : ℤ → ℤ → ℤ
default x d = if at_most_zero x then d else x

unfoldable pub fill_cache : ServiceCacheConfig → ServiceCacheConfig
fill_cache cc = record {
  ttl = default cc.ttl (seconds 60);
  max_entries = default cc.max_entries (pos 1024);
  max_bytes = default cc.max_bytes (pos 16777216);
}

-- The `switch` on `key_by`.
unfoldable pub check_key_by : Text → Bool → Text → Result Text
unfolding text_eq
check_key_by name auth key_by = ite (text_eq key_by []) (ok (codes "ip")) (
    ite (text_eq key_by (codes "ip")) (ok (codes "ip")) (
      ite (text_eq key_by (codes "jwt_sub"))
        (if auth then ok key_by else err (Err.jwt_sub_requires_auth name))
        (err (Err.unknown_key_by name key_by))))

module _ {F : Type 0} where
  unfoldable pub apply_service_cache_defaults : ServiceConfig F → ServiceConfig F
  unfolding fill_cache
  apply_service_cache_defaults svc = elim svc.cache [
    | none ↦ svc
    | some cc ↦ record svc { cache = some (fill_cache cc) }
  ]

module _ {F : Type 0} (not_positive : F → Bool) where
  unfoldable pub check_rate_limit :
      Text → Bool → Option (ServiceRateLimitConfig F) → Result (Option (ServiceRateLimitConfig F))
  unfolding check_key_by
  check_rate_limit name auth none = ok none
  check_rate_limit name auth (some rl) = do
    check (not_positive rl.rate) (Err.service_rate_not_positive name)
    check (at_most_zero rl.burst) (Err.service_burst_not_positive name)
    key_by ← check_key_by name auth rl.key_by
    ok (some (record rl { key_by = key_by }))

  unfoldable pub validate_service_rate_limit : ServiceConfig F → Result (ServiceConfig F)
  unfolding check_rate_limit
  validate_service_rate_limit svc = do
    rl ← check_rate_limit svc.name svc.auth svc.rate_limit
    ok (record svc { rate_limit = rl })

  -- The body of the loop: the guards in their order, then the rate limit and the cache defaults.
  unfoldable pub validate_service :
      ℕ → Dict Bool → Dict Bool → ServiceConfig F → Result (ServiceConfig F)
  unfolding seen validate_service_rate_limit apply_service_cache_defaults
  validate_service i seen_name seen_prefix svc = do
    check (is_nil svc.name) (Err.name_required i)
    check (is_nil svc.prefix) (Err.prefix_required svc.name)
    check (is_nil svc.upstreams) (Err.upstream_required svc.name)
    check (seen svc.name seen_name) (Err.duplicate_name svc.name)
    check (seen svc.prefix seen_prefix) (Err.duplicate_prefix svc.name svc.prefix)
    check (not (is_nil svc.required_roles) && not svc.auth) (Err.roles_require_auth svc.name)
    svc' ← validate_service_rate_limit svc
    ok (apply_service_cache_defaults svc')

  unfoldable pub services_loop :
      ℕ → Dict Bool → Dict Bool → List (ServiceConfig F) → Result (List (ServiceConfig F))
  unfolding validate_service put
  services_loop i seen_name seen_prefix [] = ok []
  services_loop i seen_name seen_prefix (svc ∷ svcs) = do
    svc' ← validate_service i seen_name seen_prefix svc
    svcs' ←
        services_loop (i + 1) (put svc.name true seen_name) (put svc.prefix true seen_prefix) svcs
    ok (svc' ∷ svcs')

  unfoldable pub validate_services : List (ServiceConfig F) → Result (List (ServiceConfig F))
  unfolding services_loop
  validate_services [] = err Err.no_services
  validate_services (svc ∷ svcs) = services_loop 0 [] [] (svc ∷ svcs)
