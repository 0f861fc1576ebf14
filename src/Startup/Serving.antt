-- ===== src/Startup/Serving.antt =====
-- What a gateway that cmd/gateway/server.go has started promises of its services.
use go_api_gateway.Prelude.{◌≡◌, refl, true, false, Option, none, some, Text, Any, All-lookup, ◌⊎◌}
use go_api_gateway.Strings.{is_some}
use go_api_gateway.Config.Types.{ServiceConfig, GatewayConfig}
use go_api_gateway.Http.{Request, Handler}
use go_api_gateway.Auth.{Token}
use go_api_gateway.Auth.Access.{Authenticated, identified, IsRefused}
use go_api_gateway.RateLimit.{Verdict}
use go_api_gateway.ResponseCache.{State}
use go_api_gateway.Server.{Limiter}
use go_api_gateway.Router.{Moment}
use go_api_gateway.Router.Protection.{chain, behind, HasRole, service_protected}
use go_api_gateway.Startup.{done, Gateway, World, build_router}
use go_api_gateway.Startup.Services.{IsGuarded}
use go_api_gateway.Startup.Sound.{build_router_iff}

found_key : {K : Type 0} (k : Option K) → is_some k ≡ true → (key : K) × (k ≡ some key)
found_key none h = absurd (let q : false ≡ true = h in cc)
found_key (some key) h = (key, refl)

module _ {F B P K : Type 0} (w : World B P K) (cfg : GatewayConfig F) (gw : Gateway F K) where
  module _ {L M : Type 0} (split_host : Text → Option Text)
      (ask : Limiter F → L → Text → L × Verdict) (digest detect gzip : Text → Text)
      (mounted : Handler M) (parse : K → Text → Option Token) (at : Moment) where
    -- In a gateway that starts, every service with `auth` has the gateway's key, and a request to it
    -- either is refused with 401 or 403, with its limiter, its cache and what it mounts untouched, or
    -- bears a token that verifies with that key, holds one of the roles where any is required, and
    -- goes on to the limiter with the identity of the token in place of any other.
    pub started_protects :
        (svc : ServiceConfig F)
        → build_router w cfg ≡ done gw
        → Any (λ other. other ≡ svc) cfg.services
        → svc.auth ≡ true
        → (r : Request) (s : L × State M)
        → (key : K) × (gw.public_key ≡ some key)
          × (IsRefused
                (chain split_host ask digest detect gzip mounted
                  (parse key)
                  svc
                  cfg
                  gw.redis
                  at
                  r
                  s)
                s
              ⊎ ((who : Authenticated (parse key) r) × HasRole svc.required_roles who.identity.roles
                  × (chain split_host ask digest detect gzip mounted
                        (parse key)
                        svc
                        cfg
                        gw.redis
                        at
                        r
                        s
                      ≡ behind split_host ask digest detect gzip mounted
                          (parse key)
                          svc
                          cfg
                          gw.redis
                          at
                          (identified r who.identity)
                          s)))
    started_protects svc start member auth r s =
        let guarded = ((build_router_iff w cfg gw).0 start).guarded in
        let (key, has_key) = found_key gw.public_key (
          All-lookup (IsGuarded cfg (is_some gw.public_key)) cfg.services svc guarded member
            auth) in
        (
          key,
          has_key,
          service_protected split_host ask digest detect gzip mounted (parse key) svc cfg gw.redis
              at auth r s,
        )
