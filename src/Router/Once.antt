-- ===== src/Router/Once.antt =====
-- That what a service of cmd/gateway/server.go mounts runs at most once for a request, and with that
-- request.
use go_api_gateway.Prelude.{
  ◌≡◌, refl, ◌∙◌, ◌⊎◌, inl, inr, Bool, Option, none, some, ℤ, Text, codes, Bool-cases, Option-cases,
}
use go_api_gateway.Http.{Request, Handler, header_get}
use go_api_gateway.Config.Types.{
  CompressionConfig, ServiceCacheConfig, ServiceConfig, GatewayConfig,
}
use go_api_gateway.Compress.{compress, client_accepts_gzip}
use go_api_gateway.Lru.{get}
use go_api_gateway.RateLimit.{Verdict}
use go_api_gateway.RateLimit.Gate.{rate_limit_lem}
use go_api_gateway.ResponseCache.Directives.{
  parse_cache_control, has_directive, parse_vary, build_key,
}
use go_api_gateway.ResponseCache.{
  CacheConfig, Captured, SfResult, State, store, fill_cache, fly, pass, miss, lookup, handle,
  headers_for, is_get_or_head, cacheable_response,
}
use go_api_gateway.Server.{Limiter, KeyFunc, build_service_limiter}
use go_api_gateway.Router.{Moment, key_of, compressed, cached, rate_limited, behind_roles}

-- The state behind is as before, or what one run of the handler makes of it.
abbrev pub AtMostOnce : {S : Type 0} → Handler S → Request → S → S → Type 0
AtMostOnce next r s after = (after ≡ s) ⊎ (after ≡ (next r s).1)

module _ {S : Type 0} (next : Handler S) where
  compress-once :
      (detect gzip : Text → Text) (min_size : ℤ) (r : Request) (s : S)
      → (compress detect gzip min_size next r s).1 ≡ (next r s).1
  unfolding compress
  compress-once detect gzip min_size r s =
      elim (Bool-cases (client_accepts_gzip (header_get (codes "Accept-Encoding") r.header))) [
        | inl zips ↦ rw zips refl
        | inr plain ↦ rw plain refl
      ]

  module _ (digest : Text → Text) (cfg : CacheConfig) (flights : Text → Option SfResult)
      (r : Request) where
    store-world :
        (cw : Captured) (at_store : ℤ) (st : State S)
        → (store digest cfg r cw at_store st).1.world ≡ st.world
    unfolding store
    store-world cw at_store st =
        elim (Bool-cases (
          cacheable_response cw.status
            (parse_cache_control (header_get (codes "Cache-Control") cw.header))
            (parse_vary (header_get (codes "Vary") cw.header)).1 r)) [
              | inl kept ↦ rw kept refl
              | inr passed ↦ rw passed refl
            ]

    miss-AtMostOnce :
        (key : Text) (at_store : ℤ) (st : State S)
        → AtMostOnce next r st.world (miss next digest cfg flights key r at_store st).1.world
    unfolding miss fly fill_cache
    miss-AtMostOnce key at_store st = elim (Option-cases (flights key)) [
      | inr (res, joined) ↦ rw joined (inl refl)
      | inl alone ↦ rw alone (inr (store-world _ at_store _))
    ]

    lookup-AtMostOnce :
        (key : Text) (at_lookup at_store : ℤ) (st : State S)
        → AtMostOnce next r st.world
            (lookup next digest cfg flights key r at_lookup at_store st).1.world
    unfolding lookup
    lookup-AtMostOnce key at_lookup at_store st = elim (Option-cases (get st.lru key at_lookup).1) [
      | inr (entry, hit) ↦ rw (hit, lookup) (inl refl)
      | inl gone ↦
          rw (gone, lookup)
            (miss-AtMostOnce key at_store (record st { lru = (get st.lru key at_lookup).0 }))
    ]

    handle-AtMostOnce :
        (at_lookup at_store : ℤ) (st : State S)
        → AtMostOnce next r st.world
            (handle next digest cfg flights r at_lookup at_store st).1.world
    unfolding handle pass
    handle-AtMostOnce at_lookup at_store st =
        let cc = parse_cache_control (header_get (codes "Cache-Control") r.header) in
        let key = build_key r (headers_for r st.vary) in
        elim (Bool-cases (is_get_or_head r.method)) [
          | inr other ↦ rw other (inr refl)
          | inl reads ↦ elim (Bool-cases (has_directive (codes "no-store") cc)) [
            | inl no_store ↦ rw (reads, no_store) (inr refl)
            | inr may ↦ elim (Bool-cases (has_directive (codes "no-cache") cc)) [
              | inl no_cache ↦ rw (reads, may, no_cache) (miss-AtMostOnce key at_store st)
              | inr cached_ ↦ rw (reads, may, cached_) (lookup-AtMostOnce key at_lookup at_store st)
            ]
          ]
        ]

module _ {F L P : Type 0} (split_host : Text → Option Text)
    (ask : Limiter F → L → Text → L × Verdict) (digest detect gzip : Text → Text)
    (mounted : Handler P) where
  compressed-once :
      (c : CompressionConfig) (r : Request) (p : P)
      → (compressed split_host ask digest detect gzip mounted c r p).1 ≡ (mounted r p).1
  compressed-once c r p = elim (Bool-cases c.enabled) [
    | inl on ↦ rw on (compress-once mounted detect gzip c.min_bytes r p)
    | inr off ↦ rw off refl
  ]

  -- The same for a handler that runs another once.
  AtMostOnce-through :
      (next : Handler P) (r : Request) (p after : P)
      → (next r p).1 ≡ (mounted r p).1
      → AtMostOnce next r p after
      → AtMostOnce mounted r p after
  AtMostOnce-through next r p after same (inl kept) = inl kept
  AtMostOnce-through next r p after same (inr ran) = inr (ran ∙ same)

  cached-AtMostOnce :
      (at : Moment) (cc : Option ServiceCacheConfig) (c : CompressionConfig) (r : Request)
      (st : State P)
      → AtMostOnce mounted r st.world
          (cached split_host ask digest detect gzip mounted at cc
            (compressed split_host ask digest detect gzip mounted c)
            r
            st).1.world
  cached-AtMostOnce at none c r st = inr (compressed-once c r st.world)
  cached-AtMostOnce at (some cc) c r st =
      AtMostOnce-through (compressed split_host ask digest detect gzip mounted c) r st.world _
        (compressed-once c r st.world)
        (handle-AtMostOnce (compressed split_host ask digest detect gzip mounted c) digest
          (record { ttl = cc.ttl; max_entries = cc.max_entries; max_bytes = cc.max_bytes })
          at.flights r at.at_lookup at.at_store st)

  rate_limited-AtMostOnce :
      (limits : Option (Limiter F × KeyFunc)) (next : Handler (State P)) (r : Request) (l : L)
      (st : State P)
      → AtMostOnce mounted r st.world (next r st).1.world
      → AtMostOnce mounted r st.world
          (rate_limited split_host ask digest detect gzip mounted limits next r (l, st)).1.1.world
  rate_limited-AtMostOnce none next r l st once = once
  rate_limited-AtMostOnce (some (limiter, key_func)) next r l st once =
      elim (rate_limit_lem (ask limiter) (key_of split_host key_func) next r l st) [
        | inl (denied, answer) ↦ rw answer (inl refl)
        | inr (passes, answer) ↦ rw answer once
      ]

  -- Behind the roles, what the service mounts runs at most once for a request.
  pub behind_roles-AtMostOnce :
      (svc : ServiceConfig F) (cfg : GatewayConfig F) (redis : Bool) (at : Moment) (r : Request)
      (l : L) (st : State P)
      → AtMostOnce mounted r st.world
          (behind_roles split_host ask digest detect gzip mounted svc cfg redis at r
            (l, st)).1.1.world
  unfolding behind_roles
  behind_roles-AtMostOnce svc cfg redis at r l st =
      rate_limited-AtMostOnce (build_service_limiter svc cfg redis)
        (cached split_host ask digest detect gzip mounted at svc.cache
          (compressed split_host ask digest detect gzip mounted cfg.compression))
        r l st (cached-AtMostOnce at svc.cache cfg.compression r st)
