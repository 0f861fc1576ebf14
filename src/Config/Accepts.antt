-- ===== src/Config/Accepts.antt =====
-- What holds of the services that internal/config/validate.go accepts.
use go_api_gateway.Prelude.{
  ℕ, ◌+◌, ◌≡◌, refl, ◌≢◌, ◌⊎◌, Bool, true, false, not, ◌&&◌, Option, none, some, List, [], ◌∷◌, ℤ,
  Text, codes, arith, All, All-map, subst, ◌∙◌, ap,
}
use go_api_gateway.Prelude.Dict.{Dict, put, find-put}
use go_api_gateway.Config.Types.{
  ServiceRateLimitConfig, ServiceCacheConfig, ServiceConfig, Err, Result, ok, err, ◌>>=◌, ◌>>◌,
  check, at_most_zero,
}
use go_api_gateway.Config.Services.{
  seen, is_nil, default, apply_service_cache_defaults, check_rate_limit,
  validate_service_rate_limit, validate_service, services_loop, validate_services,
}

pub ok-injective {ℓ} : {A : Type ℓ} {a b : A} → ok a ≡ ok b → a ≡ b
ok-injective h = cc

pub bind-ok {ℓ κ} :
    {A : Type ℓ} {B : Type κ} (first : Result A) (rest : A → Result B) {result : B}
    → (first >>= rest) ≡ ok result
    → (value : A) × (first ≡ ok value) × (rest value ≡ ok result)
bind-ok (err why) rest h = cc
bind-ok (ok value) rest h = (value, refl, h)

pub check-ok {ℓ} :
    {A : Type ℓ} (b : Bool) (e : Err) (k : Result A) {a : A}
    → (check b e >> k) ≡ ok a
    → (b ≡ false) × (k ≡ ok a)
check-ok true e k h = cc
check-ok false e k h = (refl, h)

pub seen-put :
    (k j : Text) (m : Dict Bool) → seen j (put k true m) ≡ false → (k ≢ j) × (seen j m ≡ false)
unfolding seen
seen-put k j m h = ground (arith, find-put k j true m)

abbrev pub IsPositive : ℤ → Type 0
IsPositive x = at_most_zero x ≡ false

pub default-IsPositive : (x d : ℤ) → IsPositive d → IsPositive (default x d)
default-IsPositive x d h = ground arith

abbrev pub CacheOk : Option ServiceCacheConfig → Type 0
CacheOk none = Unit
CacheOk (some cc) = IsPositive cc.ttl × IsPositive cc.max_entries × IsPositive cc.max_bytes

module _ {F : Type 0} (not_positive : F → Bool) where
  abbrev pub LimitOk : Bool → Option (ServiceRateLimitConfig F) → Type 0
  LimitOk auth none = Unit
  LimitOk auth (some rl) =
      (not_positive rl.rate ≡ false)
      × IsPositive rl.burst
      × ((rl.key_by ≡ codes "ip") ⊎ ((rl.key_by ≡ codes "jwt_sub") × (auth ≡ true)))

  pub record ServiceOk (svc : ServiceConfig F) : Type 0 where
    pub named : svc.name ≢ []
    pub prefixed : svc.prefix ≢ []
    pub backed : svc.upstreams ≢ []
    pub guarded : svc.required_roles ≢ [] → svc.auth ≡ true
    pub limited : LimitOk svc.auth svc.rate_limit
    pub cached : CacheOk svc.cache

  -- What `validate_service` leaves as it is.
  pub record SameService (svc svc' : ServiceConfig F) : Type 0 where
    pub name : svc'.name ≡ svc.name
    pub prefix : svc'.prefix ≡ svc.prefix
    pub upstreams : svc'.upstreams ≡ svc.upstreams
    pub auth : svc'.auth ≡ svc.auth
    pub required_roles : svc'.required_roles ≡ svc.required_roles

  check_rate_limit_sound :
      (name : Text) (auth : Bool) (rl rl' : Option (ServiceRateLimitConfig F))
      → check_rate_limit not_positive name auth rl ≡ ok rl'
      → LimitOk auth rl'
  unfolding check_rate_limit
  check_rate_limit_sound name auth none rl' h = ground arith
  check_rate_limit_sound name auth (some rl) none h = ground arith
  check_rate_limit_sound name auth (some rl) (some rl') h = ground arith

  fill_cache_sound : (svc : ServiceConfig F) → CacheOk (apply_service_cache_defaults svc).cache
  unfolding apply_service_cache_defaults
  fill_cache_sound svc = ground arith

  check_rate_limit-SameService :
      (svc svc' : ServiceConfig F)
      → validate_service_rate_limit not_positive svc ≡ ok svc'
      → SameService svc svc' × LimitOk svc'.auth svc'.rate_limit × (svc'.cache ≡ svc.cache)
  unfolding validate_service_rate_limit
  check_rate_limit-SameService svc svc' h =
      let (rl, limited, done) =
        bind-ok (check_rate_limit not_positive svc.name svc.auth svc.rate_limit)
          (λ rl. ok (record svc { rate_limit = rl })) h in
      ground (arith, check_rate_limit_sound svc.name svc.auth svc.rate_limit rl limited)

  pub record Accepts (seen_name seen_prefix : Dict Bool) (svc svc' : ServiceConfig F) : Type 0 where
    pub sound : ServiceOk svc'
    pub same : SameService svc svc'
    pub new_name : seen svc.name seen_name ≡ false
    pub new_prefix : seen svc.prefix seen_prefix ≡ false

  cached-Accepts :
      (sn sp : Dict Bool) (svc mid : ServiceConfig F)
      → is_nil svc.name ≡ false
      → is_nil svc.prefix ≡ false
      → is_nil svc.upstreams ≡ false
      → (not (is_nil svc.required_roles) && not svc.auth) ≡ false
      → seen svc.name sn ≡ false
      → seen svc.prefix sp ≡ false
      → SameService svc mid
      → LimitOk mid.auth mid.rate_limit
      → Accepts sn sp svc (apply_service_cache_defaults mid)
  unfolding apply_service_cache_defaults
  cached-Accepts sn sp svc mid n p u r a b s l = ground arith

  validate_service_sound :
      (i : ℕ) (sn sp : Dict Bool) (svc svc' : ServiceConfig F)
      → validate_service not_positive i sn sp svc ≡ ok svc'
      → Accepts sn sp svc svc'
  unfolding validate_service
  validate_service_sound i sn sp svc svc' h =
      let (n, h₁) = check-ok (is_nil svc.name) _ _ h in
      let (p, h₂) = check-ok (is_nil svc.prefix) _ _ h₁ in
      let (u, h₃) = check-ok (is_nil svc.upstreams) _ _ h₂ in
      let (a, h₄) = check-ok (seen svc.name sn) _ _ h₃ in
      let (b, h₅) = check-ok (seen svc.prefix sp) _ _ h₄ in
      let (r, h₆) = check-ok (not (is_nil svc.required_roles) && not svc.auth) _ _ h₅ in
      let (mid, limited, done) =
        bind-ok (validate_service_rate_limit not_positive svc)
          (λ m. ok (apply_service_cache_defaults m)) h₆ in
      let (same, fine, _) = check_rate_limit-SameService svc mid limited in
      subst (Accepts sn sp svc) (ok-injective done)
        (cached-Accepts sn sp svc mid n p u r a b same fine)

  -- No two services share a name or a prefix.
  abbrev pub HasDistinct : (ServiceConfig F → Text) → List (ServiceConfig F) → Type 0
  HasDistinct f [] = Unit
  HasDistinct f (s ∷ ss) = All (λ t. f s ≢ f t) ss × HasDistinct f ss

  pub record ServicesOk (sn sp : Dict Bool) (svcs : List (ServiceConfig F)) : Type 0 where
    pub each : All ServiceOk svcs
    pub names : HasDistinct (λ s. s.name) svcs
    pub prefixes : HasDistinct (λ s. s.prefix) svcs
    pub new_names : All (λ s. seen s.name sn ≡ false) svcs
    pub new_prefixes : All (λ s. seen s.prefix sp ≡ false) svcs

  cons-ServicesOk :
      (sn sp : Dict Bool) (svc svc' : ServiceConfig F) (svcs : List (ServiceConfig F))
      → Accepts sn sp svc svc'
      → ServicesOk (put svc.name true sn) (put svc.prefix true sp) svcs
      → ServicesOk sn sp (svc' ∷ svcs)
  cons-ServicesOk sn sp svc svc' svcs a rest = record {
    each = (a.sound, rest.each);
    names = (
      All-map (λ t h. rw a.same.name (seen-put svc.name t.name sn h).0) svcs rest.new_names,
      rest.names,
    );
    prefixes = (
      All-map (λ t h. rw a.same.prefix (seen-put svc.prefix t.prefix sp h).0) svcs
          rest.new_prefixes,
      rest.prefixes,
    );
    new_names = (
      rw a.same.name a.new_name,
      All-map (λ t h. (seen-put svc.name t.name sn h).1) svcs rest.new_names,
    );
    new_prefixes = (
      rw a.same.prefix a.new_prefix,
      All-map (λ t h. (seen-put svc.prefix t.prefix sp h).1) svcs rest.new_prefixes,
    );
  }

  services_loop_sound :
      (i : ℕ) (sn sp : Dict Bool) (svcs svcs' : List (ServiceConfig F))
      → services_loop not_positive i sn sp svcs ≡ ok svcs'
      → ServicesOk sn sp svcs'
  unfolding services_loop
  services_loop_sound i sn sp [] svcs' h =
      subst (ServicesOk sn sp) (ok-injective h)
        (record { each = tt; names = tt; prefixes = tt; new_names = tt; new_prefixes = tt })
  services_loop_sound i sn sp (svc ∷ svcs) svcs' h =
      let (svc', one, h₁) = bind-ok (validate_service not_positive i sn sp svc) _ h in
      let (rest, others, done) =
        bind-ok
          (services_loop not_positive (i + 1) (put svc.name true sn) (put svc.prefix true sp) svcs)
          (λ r. ok (svc' ∷ r)) h₁ in
      subst (ServicesOk sn sp) (ok-injective done) (
        cons-ServicesOk sn sp svc svc' rest (validate_service_sound i sn sp svc svc' one) (
          services_loop_sound (i + 1) (put svc.name true sn) (put svc.prefix true sp) svcs rest
            others))

  services_loop-ne-nil :
      (i : ℕ) (sn sp : Dict Bool) (svc : ServiceConfig F) (svcs : List (ServiceConfig F))
      → services_loop not_positive i sn sp (svc ∷ svcs) ≢ ok []
  unfolding services_loop
  services_loop-ne-nil i sn sp svc svcs h =
      let (svc', one, h₁) = bind-ok (validate_service not_positive i sn sp svc) _ h in
      let (rest, others, done) =
        bind-ok
          (services_loop not_positive (i + 1) (put svc.name true sn) (put svc.prefix true sp) svcs)
          (λ r. ok (svc' ∷ r)) h₁ in
      cc

  pub validate_services_sound :
      (svcs svcs' : List (ServiceConfig F))
      → validate_services not_positive svcs ≡ ok svcs'
      → (svcs' ≢ []) × ServicesOk [] [] svcs'
  unfolding validate_services
  validate_services_sound [] svcs' h = cc
  validate_services_sound (svc ∷ svcs) svcs' h =
      let sound = services_loop_sound 0 [] [] (svc ∷ svcs) svcs' h in
      (λ e. services_loop-ne-nil 0 [] [] svc svcs (h ∙ ap ok e), sound)
