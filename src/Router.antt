-- ===== src/Router.antt =====
-- cmd/gateway/server.go and cmd/gateway/handlers.go: the middleware around every route, in the order
-- of `r.Use`, and the chain of one service. Which route a path takes is chi's to choose; the handler
-- that a service mounts, `net.SplitHostPort`, the parsing of tokens, the limiter's answers, content
-- sniffing and gzip are parameters.
pub mod Protection
pub mod Edge
pub mod Once
pub mod Upstream
use go_api_gateway.Prelude.{
  ℕ, Bool, true, false, Option, none, some, List, [], ◌∷◌, if◌then◌else◌, ℤ, Text, codes,
}
use go_api_gateway.Config.Types.{
  CompressionConfig, ServiceCacheConfig, ServiceConfig, GatewayConfig,
}
use go_api_gateway.Http.{
  Request, Action, set_header, write_header, write, Handler, json_object, error_message,
}
use go_api_gateway.Middleware.{Reply, Panicky, recoverer, request_id, max_body, concurrency_limit}
use go_api_gateway.Recording.{LogLine, Sample, Span, logger, metrics, tracing}
use go_api_gateway.Auth.{Token, jwt_auth, require_any_role}
use go_api_gateway.RateLimit.{Verdict, rate_limit}
use go_api_gateway.RateLimit
use go_api_gateway.ResponseCache.{SfResult, State, handle}
use go_api_gateway.Compress.{compress}
use go_api_gateway.Server.{KeyFunc, key_by_ip, key_by_jwt_sub, Limiter, build_service_limiter}

-- handlers.go.
abbrev pub no_store : ℕ → List Action
no_store status = set_header (codes "Cache-Control") (codes "no-store") ∷ write_header status ∷ []

abbrev pub no_store_error : ℕ → Text → List Action
no_store_error status message =
    set_header (codes "Content-Type") (codes "application/json")
    ∷ set_header (codes "Cache-Control") (codes "no-store")
    ∷ write_header status
    ∷ write (json_object (error_message message))
    ∷ []

abbrev pub healthz_handler : {S : Type 0} → Handler S
healthz_handler r s = (no_store 200, s)

abbrev pub not_found_handler : {S : Type 0} → Handler S
not_found_handler r s = (no_store_error 404 (codes "not found"), s)

abbrev pub method_not_allowed_handler : {S : Type 0} → Handler S
method_not_allowed_handler r s = (no_store_error 405 (codes "method not allowed"), s)

-- What a request meets besides the state: the flights of the cache, and the times at which the cache
-- looks up and stores.
pub record Moment : Type 0 where
  pub flights : Text → Option SfResult
  pub at_lookup : ℤ
  pub at_store : ℤ

-- `if cond { r.Use(m) }`.
abbrev pub use_if : {S : Type 0} → Bool → (Handler S → Handler S) → Handler S → Handler S
use_if true m next = m next
use_if false m next = next

abbrev pub role_check : {S : Type 0} → List Text → Handler S → Handler S
role_check [] next = next
role_check (role ∷ roles) next = require_any_role next (role ∷ roles)

module _ (split_host : Text → Option Text) where
  abbrev pub key_of : KeyFunc → Request → Text
  key_of key_by_ip = RateLimit.key_by_ip split_host
  key_of key_by_jwt_sub = RateLimit.key_by_jwt_sub split_host

module _ {F L P : Type 0} (split_host : Text → Option Text)
    (ask : Limiter F → L → Text → L × Verdict) (digest detect gzip : Text → Text)
    (mounted : Handler P) where
  abbrev pub compressed : CompressionConfig → Handler P
  compressed c = use_if c.enabled (compress detect gzip c.min_bytes) mounted

  abbrev pub cached : Moment → Option ServiceCacheConfig → Handler P → Handler (State P)
  cached at none next r st =
      let (actions, world) = next r st.world in (actions, record st { world = world })
  cached at (some cc) next r st =
      handle next digest
        (record { ttl = cc.ttl; max_entries = cc.max_entries; max_bytes = cc.max_bytes }) at.flights
        r at.at_lookup at.at_store st

  abbrev pub rate_limited : Option (Limiter F × KeyFunc) → Handler (State P) → Handler (L × State P)
  rate_limited none next r (l, st) = let (actions, st') = next r st in (actions, (l, st'))
  rate_limited (some (limiter, key_func)) next r s =
      rate_limit (ask limiter) (key_of split_host key_func) next r s

  -- What stands behind the check of the roles.
  unfoldable pub behind_roles :
      ServiceConfig F → GatewayConfig F → (redis : Bool) → Moment → Handler (L × State P)
  unfolding build_service_limiter
  behind_roles svc cfg redis at =
      rate_limited (build_service_limiter svc cfg redis)
        (cached at svc.cache (compressed cfg.compression))

  -- The route of a service, where `parse` is `parseAndValidateToken` with the gateway's key.
  unfoldable pub service_chain :
      (Text → Option Token)
      → ServiceConfig F
      → GatewayConfig F
      → Bool
      → Moment
      → Handler (L × State P)
  unfolding jwt_auth require_any_role behind_roles
  service_chain parse svc cfg redis at =
      use_if svc.auth (λ next. jwt_auth next parse)
        (role_check svc.required_roles (behind_roles svc cfg redis at))

-- What happens to a request on its way in that is not up to the gateway: the identifier drawn for
-- it, the time it takes, the requests in flight when it comes, and the route that chi matches.
pub record Arrival : Type 0 where
  pub uuid : Option Text
  pub duration : ℤ
  pub in_flight : ℕ
  pub route : Text

-- The middleware that `buildRouter` puts around every route.
unfoldable pub edge :
    {F S : Type 0}
    → GatewayConfig F
    → Arrival
    → Panicky S
    → Panicky (List LogLine × (List Sample × (List Span × S)))
unfolding recoverer request_id logger max_body metrics tracing concurrency_limit
edge cfg a route = recoverer (
    request_id
      (logger
        (max_body
          (metrics (tracing (concurrency_limit cfg.max_in_flight a.in_flight route)) a.duration
            a.route)
          cfg.max_body_bytes)
        a.duration)
      a.uuid)
