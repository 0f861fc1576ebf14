-- ===== src/ResponseCache/Storing.antt =====
-- What internal/middleware/cache.go stores, and that it keeps the LRU in order.
use go_api_gateway.Prelude.{
  ◌≡◌, refl, ◌↔◌, ◌⊎◌, inl, inr, Bool, true, false, Option, none, some, [], ℤ, Text, codes, arith,
  Bool-cases, Option-cases, List,
}
use go_api_gateway.Prelude.Dict.{put}
use go_api_gateway.Http.{Request, Handler, header_get}
use go_api_gateway.Lru.{Lru, Entry}
use go_api_gateway.Lru
use go_api_gateway.Lru.Invariant.{IsValid, get-IsValid, set-IsValid}
use go_api_gateway.ResponseCache.Directives.{
  parse_cache_control, has_directive, parse_vary, build_key,
}
use go_api_gateway.ResponseCache.{
  CacheConfig, Captured, cacheable_response, SfResult, State, store, fill_cache, fly, pass, miss,
  lookup, handle, headers_for, write_raw, respond, vary_key,
}
use go_api_gateway.ResponseCache.Entries.{IsEntryOf, stored_entry, stored_entry-IsEntryOf}

-- The conditions under which a response may be stored.
pub record MayStore (r : Request) (cw : Captured) : Type 0 where
  pub found : cw.status ≡ 200
  pub not_no_store :
      has_directive
        (codes "no-store")
        (parse_cache_control (header_get (codes "Cache-Control") cw.header))
      ≡ false
  pub not_private :
      has_directive
        (codes "private")
        (parse_cache_control (header_get (codes "Cache-Control") cw.header))
      ≡ false
  pub not_vary_any : (parse_vary (header_get (codes "Vary") cw.header)).1 ≡ false
  pub own_or_public :
      (header_get (codes "Authorization") r.header ≡ [])
      ⊎ (has_directive
            (codes "public")
            (parse_cache_control (header_get (codes "Cache-Control") cw.header))
          ≡ true)

differ : {b : Bool} → b ≡ true → b ≡ false → ⊥
differ e f = cc

abbrev pub may_store : Request → Captured → Bool
may_store r cw =
    cacheable_response cw.status
      (parse_cache_control (header_get (codes "Cache-Control") cw.header))
      (parse_vary (header_get (codes "Vary") cw.header)).1 r

pub cacheable_iff : (r : Request) (cw : Captured) → (may_store r cw ≡ true) ↔ MayStore r cw
unfolding cacheable_response
cacheable_iff r cw = (λ h. ground arith, λ h. ground arith)

-- What storing the response under the names of its Vary headers comes to.
pub record IsStored {S : Type 0} (digest : Text → Text) (cfg : CacheConfig) (r : Request)
    (cw : Captured) (names : List Text) (at_store : ℤ) (st : State S) (entry : Entry)
    (out : SfResult × State S) : Type 0 where
  pub is_entry : IsEntryOf digest cfg cw at_store entry
  pub result : out.0.entry ≡ some entry
  pub state : out.1 ≡ record st {
    lru = Lru.set st.lru (build_key r names) entry;
    vary = put (vary_key r) names st.vary;
  }

-- What not storing it comes to.
pub record IsAsCaptured {S : Type 0} (r : Request) (cw : Captured) (st : State S)
    (out : SfResult × State S) : Type 0 where
  pub result : out.0.entry ≡ none
  pub state : out.1 ≡ st
  pub answer : respond r out.0 ≡ write_raw cw.status cw.header cw.body

-- A captured response is stored exactly when it is a 200 without no-store, private and
-- `Vary: *`, for a request with no Authorization or with `public` in the response. Then the LRU's
-- `Set`, which may evict it at once where it is over the bounds, is given an entry with the response's
-- status, body, headers and tag, or a tag made of the body, that lives for max-age or the
-- configured time, under the key by the response's Vary headers, which are remembered. Else the cache
-- and the remembered Vary names are as they were, and the response is answered as it was captured.
pub store_iff :
    {S : Type 0} (digest : Text → Text) (cfg : CacheConfig) (r : Request) (cw : Captured)
    (at_store : ℤ) (st : State S)
    → (MayStore r cw
        × ((entry : Entry) × IsStored digest cfg r cw
              (parse_vary (header_get (codes "Vary") cw.header)).0
              at_store
              st
              entry
              (store digest cfg r cw at_store st)))
      ⊎ (¬ MayStore r cw × IsAsCaptured r cw st (store digest cfg r cw at_store st))
unfolding store respond
store_iff digest cfg r cw at_store st = elim (Bool-cases (may_store r cw)) [
  | inl allowed ↦ inl (
    (cacheable_iff r cw).0 allowed,
    (
      stored_entry digest cfg cw at_store,
      record {
        is_entry = stored_entry-IsEntryOf digest cfg cw at_store;
        result = rw allowed refl;
        state = rw allowed refl;
      },
    ),
  )
  | inr refused ↦ inr (
    λ m. absurd (differ ((cacheable_iff r cw).1 m) refused),
    record { result = rw refused refl; state = rw refused refl; answer = rw refused refl },
  )
]

module _ {S : Type 0} (next : Handler S) (digest : Text → Text) (cfg : CacheConfig) where
  store-IsValid :
      (r : Request) (cw : Captured) (at_store : ℤ) (st : State S)
      → IsValid st.lru
      → IsValid (store digest cfg r cw at_store st).1.lru
  unfolding store
  store-IsValid r cw at_store st v =
      elim (Bool-cases (
        cacheable_response cw.status
          (parse_cache_control (header_get (codes "Cache-Control") cw.header))
          (parse_vary (header_get (codes "Vary") cw.header)).1 r)) [
            | inl allowed ↦ rw allowed (set-IsValid st.lru _ _ v)
            | inr refused ↦ rw refused v
          ]

  miss-IsValid :
      (flights : Text → Option SfResult) (key : Text) (r : Request) (at_store : ℤ) (st : State S)
      → IsValid st.lru
      → IsValid (miss next digest cfg flights key r at_store st).1.lru
  unfolding miss fly fill_cache
  miss-IsValid flights key r at_store st v = elim (Option-cases (flights key)) [
    | inl leader ↦
        rw (leader, fly) (store-IsValid r _ at_store (record st { world = (next r st.world).1 }) v)
    | inr (res, follower) ↦ rw (follower, fly) v
  ]

  lookup-IsValid :
      (flights : Text → Option SfResult) (key : Text) (r : Request) (at_lookup at_store : ℤ)
      (st : State S)
      → IsValid st.lru
      → IsValid (lookup next digest cfg flights key r at_lookup at_store st).1.lru
  unfolding lookup
  lookup-IsValid flights key r at_lookup at_store st v =
      let after : IsValid (Lru.get st.lru key at_lookup).0 = get-IsValid st.lru v key at_lookup in
      elim (Option-cases (Lru.get st.lru key at_lookup).1) [
        | inl missed ↦
            rw (missed, lookup)
              (miss-IsValid flights key r at_store
                (record st { lru = (Lru.get st.lru key at_lookup).0 }) after)
        | inr (entry, hit) ↦ rw (hit, lookup) after
      ]

  -- Every request leaves a valid LRU valid, whether it is passed on, served, stored or joins a flight.
  pub handle-IsValid :
      (flights : Text → Option SfResult) (r : Request) (at_lookup at_store : ℤ) (st : State S)
      → IsValid st.lru
      → IsValid (handle next digest cfg flights r at_lookup at_store st).1.lru
  unfolding handle pass
  handle-IsValid flights r at_lookup at_store st v = ground (
    arith,
    miss-IsValid flights (build_key r (headers_for r st.vary)) r at_store st v,
    lookup-IsValid flights (build_key r (headers_for r st.vary)) r at_lookup at_store st v,
  )
