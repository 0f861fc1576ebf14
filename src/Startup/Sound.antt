-- ===== src/Startup/Sound.antt =====
-- When the gateway of cmd/gateway/server.go starts, and what holds of it then.
use go_api_gateway.Prelude.{
  ◌≡◌, ◌↔◌, refl, Bool, true, false, List, [], ◌∷◌, map, Text, All, ap, sym, ◌∙◌, subst,
  if◌then◌else◌,
}
use go_api_gateway.Strings.{is_some}
use go_api_gateway.Config.Types.{ServiceConfig, GatewayConfig}
use go_api_gateway.Health.{Probe, probe}
use go_api_gateway.Recording.Instruments.{new_metrics, register_upstream_health, is_nil_error}
use go_api_gateway.Startup.Conditions.{
  bind_done, done_injective, LoadsKey, key_for-LoadsKey, LoadsKey-key_for, HasRedis,
  redis_client-HasRedis, HasRedis-redis_client, new_metrics_iff, register_iff,
}
use go_api_gateway.Startup.Services.{
  built, IsGuarded, build_services_sound, build_services_complete,
}
use go_api_gateway.Startup.Probes.{IsUp, probe-last}
use go_api_gateway.Server.{build_service_handler}
use go_api_gateway.Startup.{
  startup_probe, creating_metrics, registering_health, failed, done, require, key_for, Service,
  Gateway, World, build_redis_client, build_services, probe_all, watched, all_up, build_router,
}

require-done : {E : Type 0} (b : Bool) (e : E) (u : Unit {0}) → require b e ≡ done u → b ≡ true
require-done true e u h = refl
require-done false e u h = absurd (let q : failed e ≡ done u = h in cc)

none_down :
    (up : Bool) (name : Text) (down : List Text)
    → ((if up then down else name ∷ down) ≡ []) ↔ ((up ≡ true) × (down ≡ []))
none_down true name down = (λ e. (refl, e), λ h. h.1)
none_down false name down = (
  λ e. absurd (let q : name ∷ down ≡ [] = e in cc),
  λ h. absurd (let q : false ≡ true = h.0 in cc),
)

module _ {F : Type 0} (ended : Text → List (Text × Probe)) where
  abbrev pub probed : Service F → Service F
  probed service = record service {
    checker = (probe service.checker (ended service.config.name)).0;
  }

  -- The startup probe of the service succeeds.
  abbrev ProbesWell : Service F → Type 0
  ProbesWell service = (probe service.checker (ended service.config.name)).1 ≡ true

  probe_all-services :
      (services : List (Service F)) → (probe_all ended services).0 ≡ map probed services
  unfolding probe_all
  probe_all-services [] = refl
  probe_all-services (service ∷ services) =
      ap (λ xs. probed service ∷ xs) (probe_all-services services)

  probe_all_iff :
      (services : List (Service F)) → ((probe_all ended services).1 ≡ []) ↔ All ProbesWell services
  unfolding probe_all
  probe_all_iff [] = (λ _. tt, λ _. refl)
  probe_all_iff (service ∷ services) =
      let (forth, back) = probe_all_iff services in
      let (out, into) =
        none_down (probe service.checker (ended service.config.name)).1 service.config.name
          (probe_all ended services).1 in
      (λ e. let (up, rest) = out e in (up, forth rest), λ (up, rest). into (up, back rest))

All-map_iff :
    {A B : Type 0} (f : A → B) (p : B → Type 0) (q : A → Type 0)
    → ((a : A) → p (f a) ↔ q a)
    → (as_ : List A) → All p (map f as_) ↔ All q as_
All-map_iff f p q same [] = (λ h. tt, λ h. tt)
All-map_iff f p q same (a ∷ as_) =
    let (to, from) = same a in
    let (forth, back) = All-map_iff f p q same as_ in
    (λ (h, hs). (to h, forth hs), λ (h, hs). (from h, back hs))

-- The checker that `buildServiceHandler` builds knows nothing yet.
ProbesWell-iff :
    {F : Type 0} (ended : Text → List (Text × Probe)) (cfg : GatewayConfig F) (redis : Bool)
    (svc : ServiceConfig F)
    → ProbesWell ended (built cfg redis svc) ↔ IsUp ended svc
unfolding build_service_handler
ProbesWell-iff ended cfg redis svc =
    probe-last svc.upstreams cfg.health_check.interval cfg.health_check.path (ended svc.name)

all_up-done :
    {B P K : Type 0} (w : World B P K) (down : List Text) (u : Unit {0})
    → all_up w down ≡ done u
    → down ≡ []
all_up-done w [] u h = refl
all_up-done w (name ∷ names) u h =
    absurd (let q : failed (startup_probe (w.first name names)) ≡ done u = h in cc)

module _ {F B P K : Type 0} (w : World B P K) (cfg : GatewayConfig F) where
  -- The services that `redis` makes of the configuration.
  abbrev pub services_for : Bool → List (Service F)
  services_for redis = map (built cfg redis) cfg.services

  IsUp-iff :
      (redis : Bool)
      → All (ProbesWell w.ended) (services_for redis) ↔ All (IsUp w.ended) cfg.services
  IsUp-iff redis =
      All-map_iff (built cfg redis) (ProbesWell w.ended) (IsUp w.ended)
        (ProbesWell-iff w.ended cfg redis) cfg.services

  -- What the start asks for, and the gateway that comes of it.
  pub record Starts (gw : Gateway F K) : Type 0 where
    pub counter : w.meter.int64_counter ≡ true
    pub histogram : w.meter.float64_histogram ≡ true
    pub key : LoadsKey w.keys cfg.jwt_public_key gw.public_key
    pub redis : HasRedis w.ping cfg.redis_password cfg.rate_limit gw.redis
    pub guarded : All (IsGuarded cfg (is_some gw.public_key)) cfg.services
    pub gauge : w.meter.int64_observable_gauge ≡ true
    pub callback : w.meter.register_callback ≡ true
    pub up : All (IsUp w.ended) cfg.services
    pub services :
        gw.services ≡ map (watched w.again) (map (probed w.ended) (services_for gw.redis))

  build_router_sound : (gw : Gateway F K) → build_router w cfg ≡ done gw → Starts gw
  unfolding build_router build_redis_client
  build_router_sound gw h =
      let (m, meter, h₁) =
        bind_done (require (is_nil_error (new_metrics w.meter)) creating_metrics) _ gw h in
      let (key, has_key, h₂) = bind_done (key_for w.keys cfg.jwt_public_key) _ gw h₁ in
      let (redis, has_redis, h₃) = bind_done (build_redis_client w.ping cfg) _ gw h₂ in
      let (services, are_built, h₄) =
        bind_done (build_services (is_some key) redis cfg cfg.services) _ gw h₃ in
      let (g, gauge, h₅) =
        bind_done (require (is_nil_error (register_upstream_health w.meter)) registering_health) _
          gw h₄ in
      let (u, is_up, h₆) = bind_done (all_up w (probe_all w.ended services).1) _ gw h₅ in
      let (guarded, same) =
        build_services_sound cfg (is_some key) redis cfg.services services are_built in
      let none_is_down = all_up-done w (probe_all w.ended services).1 u is_up in
      let (counter, histogram) =
        (new_metrics_iff w.meter).0
          (require-done (is_nil_error (new_metrics w.meter)) creating_metrics m meter) in
      let (observable, callback) = (register_iff w.meter).0 (
        require-done (is_nil_error (register_upstream_health w.meter)) registering_health g
          gauge) in
      subst Starts (done_injective h₆) (record {
        counter = counter;
        histogram = histogram;
        key = key_for-LoadsKey w.keys cfg.jwt_public_key key has_key;
        redis = redis_client-HasRedis w.ping cfg.redis_password cfg.rate_limit redis has_redis;
        guarded = guarded;
        gauge = observable;
        callback = callback;
        up = (IsUp-iff redis).0 (
            subst (All (ProbesWell w.ended)) (sym same)
              ((probe_all_iff w.ended services).0 none_is_down));
        services =
            ap (map (watched w.again))
              (probe_all-services w.ended services ∙ ap (map (probed w.ended)) (sym same));
      })

  build_router_complete : (gw : Gateway F K) → Starts gw → build_router w cfg ≡ done gw
  unfolding build_router build_redis_client
  build_router_complete gw s =
      rw
        (
          (new_metrics_iff w.meter).1 (s.counter, s.histogram),
          LoadsKey-key_for w.keys cfg.jwt_public_key gw.public_key s.key,
          HasRedis-redis_client w.ping cfg.redis_password cfg.rate_limit gw.redis s.redis,
          build_services_complete cfg (is_some gw.public_key) gw.redis cfg.services s.guarded,
          (register_iff w.meter).1 (s.gauge, s.callback),
          (probe_all_iff w.ended (services_for gw.redis)).1 ((IsUp-iff gw.redis).1 s.up),
          probe_all-services w.ended (services_for gw.redis),
        )
        (ap (λ services. done (record gw { services = services })) (sym s.services))

  pub build_router_iff : (gw : Gateway F K) → (build_router w cfg ≡ done gw) ↔ Starts gw
  build_router_iff gw = (build_router_sound gw, build_router_complete gw)
