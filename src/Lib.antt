-- ===== src/Lib.antt =====
-- A model of the API gateway, and what makes its parts correct. A request for a service passes the
-- authentication and the check of roles, the service's rate limit, its response cache and the
-- compression of its response, and reaches the proxy, which asks the load balancer for a healthy
-- upstream and that upstream's circuit breaker for leave. The health checker decides what is
-- healthy; the configuration decides what is built.
--
-- Prelude, Strings and Http hold what the parts share: lists, bytes, Go's int64 with its
-- wrap-around, maps, and the functions of strings, sort, strconv and net/http that the code calls. A
-- text is the list of its bytes. A response is the list of the calls that a handler makes on its
-- ResponseWriter. An instant is a number of nanoseconds that the caller passes in.
--
-- Config is internal/config/config.go and validate.go: `validate`, with its defaults, and `load`.
--   A float64 is of a type `F`, of which the code uses one test; the YAML file and the
--   environment are parameters.
-- Breaker is internal/circuitbreaker/breaker.go: `allow`, `record_success`, `record_failure`, one
--   step each under the mutex. Trips and Recovery are about sequences of calls.
-- RoundRobin is internal/loadbalancer/roundrobin.go: `next_among` is `Next` while other calls move
--   the shared counter between its attempts, `next` is `Next` alone.
-- Health is internal/health/checker.go: `check`, `check_all` with the order in which its goroutines
--   end, `probe`. The HTTP requests are parameters; `start` is the passes that `Start` runs.
-- Proxy is internal/proxy/proxy.go and rewrite.go: `serve` is `ServeHTTP` for requests that come one
--   after another, and `settle` is `ModifyResponse` and `ErrorHandler`. The round trip of
--   httputil.ReverseProxy is a parameter, whose outcome is a response, one whose copy to the client
--   breaks off, where the ReverseProxy panics, or an error. Overlap has requests of one handler
--   that overlap: `admit` is `ServeHTTP` up to `Allow`, `complete` what the ReverseProxy calls back, and `run` goes through
--   a sequence of both with the requests in flight between. Outgoing is `Rewrite`, with the user
--   headers, and the transport; url.Parse, SetXForwarded and the propagator are parameters.
-- Lru is internal/cache/lru.go, with the list, the map of its elements and the count of bytes kept
--   apart as in the code. The loops of `evict` run on the length of the list as fuel: each round
--   removes an element.
-- ResponseCache is internal/middleware/cache.go: `handle` is the handler of `Cache`, `fill_cache`
--   and `store` are `fillCache`. Entries and Conditional describe an entry and a
--   matching If-None-Match without the code. singleflight is a parameter that gives the result of the
--   flight a request joins, if there is one; the SHA-256 of a body is a parameter.
-- Compress is internal/middleware/compress.go: `step` is a call on `compressWriter`. The bytes for
--   gzip are kept as they are given to its writer; content sniffing is a parameter.
-- Auth is internal/middleware/auth.go: `jwt_auth`, `require_any_role` and their chain `protected`.
--   Parsing and verifying a token is the JWT library's, and a parameter, which
--   `parse_and_validate_token` asks with the key function and the valid methods.
-- RateLimit is internal/ratelimit/limiter.go and internal/middleware/ratelimit.go: `allow` and
--   `cleanup` of the in-memory limiter, with calls one after another, over a parameter for the
--   token bucket; and the middleware over any limiter.
--   Racing makes each call on the `sync.Map` a step, so that calls of `Allow` and the cleanup
--   interleave.
-- Redis is internal/ratelimit/redis.go: `run_script` is its Lua script, `allow` the limiter over the
--   store of Redis, which drops keys. A rate is a fraction, and the rounding of Lua's floats is left
--   out.
-- Middleware is recoverer.go, maxbody.go, requestid.go and concurrencylimit.go of
--   internal/middleware, with handlers that may panic; Middleware/Semaphore has the requests in
--   flight as a step relation.
-- Recording is logger.go and tracing.go of internal/middleware and internal/metrics/metrics.go: what
--   is written down of a request. Instruments is the creation of the metrics, by its errors.
-- Server is the part of cmd/gateway/server.go that builds the proxy, the limiter and the Redis
--   options of a service; Router has the middleware around every route, `edge`, and the chain of a
--   service, `service_chain`, in the order of `buildRouter`, and the handlers of
--   cmd/gateway/handlers.go; Startup is `buildRouter` from the configuration to a gateway that
--   serves, or an error, with Conditions and Probes for what it needs of its surroundings.
--   Router/Once and Router/Upstream join the chain with the proxy, its `Rewrite` and the upstreams
--   that it reaches, behind http.StripPrefix.
-- Telemetry is internal/otel: `setup` with what it makes and shuts down, and the fan-out of log
--   records.
-- Upstreams is the handlers and the connection pool of upstream/orders/main.go and
--   upstream/catalog/main.go; Programs is their `main`, and ForSubject puts orders behind the chain
--   of a service.
-- Process is cmd/gateway/main.go: `run`, from the loaded configuration to the exit code.
-- LoadTest is loadtest/scenarios/user_flow.go, with loadtest/token.go and
--   loadtest/cmd/gentoken/main.go in LoadTest/Token. `run_user` is the flow of one user over what
--   `rand` draws and the HTTP client answers; Snapshots has the calls of the users and the two
--   halves of `snapshot` as a step relation; `print_interval` is `printInterval` up to the text.
-- Tests runs the code on concrete inputs.
--
-- Not modelled: flags, signals and the HTTP server of the library, the router of chi and the patterns
-- of net/http but for `POST /orders`, escaped paths, what a client without a cache in between
-- has got of a response of a service that breaks off, the exporters of OpenTelemetry, the SQL that
-- the upstreams send, the text of log lines and of the lines of the load test, and `cloneHeader`,
-- since a header here is a value.
pub mod Prelude
pub mod Strings
pub mod Http
pub mod Config
pub mod Breaker
pub mod RoundRobin
pub mod Health
pub mod Proxy
pub mod Lru
pub mod ResponseCache
pub mod Compress
pub mod Auth
pub mod RateLimit
pub mod Redis
pub mod Middleware
pub mod Recording
pub mod Server
pub mod Router
pub mod Startup
pub mod Telemetry
pub mod Upstreams
pub mod Process
pub mod LoadTest
pub mod Tests
