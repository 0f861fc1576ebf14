-- ===== src/ResponseCache/Serving.antt =====
-- What a client gets from internal/middleware/cache.go: the response behind a list of writes, the
-- answer to a conditional request, and a hit after a store.
use mathlib.Core.List.{append-nil}
use go_api_gateway.Prelude.{
  ◌≤◌, ◌≡◌, refl, Bool, true, false, not, ◌&&◌, Option, some, List, [], ◌∷◌, ◌++◌, ℤ, pos, pos_part,
  ltb_ℤ, ◌+ℤ◌, Text, codes, Bool-cases, ap, sym, ◌∙◌, ◌==◌, if◌then◌else◌, length, ◌⊎◌, inl, inr,
}
use go_api_gateway.Prelude.Dict.{Dict, put, find-put_self}
use go_api_gateway.Strings.{is_nil}
use go_api_gateway.Http.{
  Header, Request, Action, set_header, write_header, write, body_of, status_of, Handler, header_get,
  add_all,
}
use go_api_gateway.Lru.{Lru, Entry, size}
use go_api_gateway.Lru
use go_api_gateway.Lru.Invariant.{IsValid}
use go_api_gateway.Lru.Reads.{get-set}
use go_api_gateway.ResponseCache.Directives.{
  parse_cache_control, has_directive, parse_vary, build_key, etag_matches,
}
use go_api_gateway.ResponseCache.{
  CacheConfig, Captured, empty_capture, capture, State, SfResult, store, lookup, handle,
  headers_for, write_raw, add_validators, serve_from_cache, vary_key, is_get_or_head,
}
use go_api_gateway.ResponseCache.Entries.{
  IsTtl, HasTag, IsTtl-ttl_for, stored_entry, stored_entry-IsEntryOf,
}
use go_api_gateway.ResponseCache.Conditional.{
  Matches, Matches-iff, headers_first, add_all-IsHeaderOnly, add_validators-IsHeaderOnly,
  tag_of_304,
}
use go_api_gateway.ResponseCache.Storing.{MayStore, may_store, cacheable_iff}

-- The condition of `serveFromCache`.
abbrev is_fresh : Request → Entry → Bool
is_fresh r entry =
    let matched = header_get (codes "If-None-Match") r.header in
    not (is_nil matched) && etag_matches matched entry.etag

is_stale :
    (r : Request) (entry : Entry)
    → is_fresh r entry ≡ false
    → ¬ Matches (header_get (codes "If-None-Match") r.header) entry.etag
is_stale r entry stale m =
    let fresh = (Matches-iff (header_get (codes "If-None-Match") r.header) entry.etag).1 m in
    let q : true ≡ false = sym fresh ∙ stale in absurd cc

-- A conditional request that names the entry's tag gets a 304 without a body, with that tag; any other
-- request gets the body that was stored, with the status that was stored, 200 where that is 0.
pub serve_from_cache_lem :
    (r : Request) (entry : Entry)
    → let matched = header_get (codes "If-None-Match") r.header in
      let reply = serve_from_cache r entry in
      (Matches matched entry.etag
        × (status_of reply ≡ 304)
        × (body_of reply ≡ [])
        × (header_get (codes "ETag") (capture empty_capture reply).header ≡ entry.etag))
      ⊎ (¬ Matches matched entry.etag
          × (status_of reply ≡ (if entry.status == 0 then 200 else entry.status))
          × (body_of reply ≡ entry.body))
unfolding serve_from_cache write_raw
serve_from_cache_lem r entry = elim (Bool-cases (is_fresh r entry)) [
  | inl fresh ↦
      let (status, body) =
        headers_first (add_validators entry.header)
          (set_header (codes "ETag") entry.etag ∷ write_header 304 ∷ [])
          (add_validators-IsHeaderOnly entry.header) in
      rw fresh (
        inl (
          (Matches-iff (header_get (codes "If-None-Match") r.header) entry.etag).0 fresh,
          status,
          body,
          tag_of_304 (add_validators entry.header) entry.etag,
        ))
  | inr stale ↦
      let sent : List Action =
        write_header (if entry.status == 0 then 200 else entry.status) ∷ write entry.body ∷ [] in
      let (status, body) =
        headers_first (add_all entry.header) sent (add_all-IsHeaderOnly entry.header) in
      rw stale (inr (is_stale r entry stale, status, body ∙ append-nil entry.body))
]

-- The same, with the whole reply where the tag is not named.
serve_from_cache-sent :
    (r : Request) (entry : Entry) (body : Text)
    → entry.status ≡ 200
    → entry.body ≡ body
    → let matched = header_get (codes "If-None-Match") r.header in
      let reply = serve_from_cache r entry in
      (Matches matched entry.etag × (status_of reply ≡ 304) × (body_of reply ≡ []))
      ⊎ (¬ Matches matched entry.etag
          × (reply ≡ add_all entry.header ++ write_header 200 ∷ write body ∷ []))
unfolding serve_from_cache write_raw
serve_from_cache-sent r entry body ok same = elim (Bool-cases (is_fresh r entry)) [
  | inl fresh ↦
      let (status, empty) =
        headers_first (add_validators entry.header)
          (set_header (codes "ETag") entry.etag ∷ write_header 304 ∷ [])
          (add_validators-IsHeaderOnly entry.header) in
      let matched = header_get (codes "If-None-Match") r.header in
      rw fresh (inl ((Matches-iff matched entry.etag).0 fresh, status, empty))
  | inr stale ↦ rw (stale, ok, same) (inr (is_stale r entry stale, refl))
]

-- The request may be answered from the cache.
pub record MayRead (r : Request) : Type 0 where
  pub reading : is_get_or_head r.method ≡ true
  pub storing :
      has_directive
        (codes "no-store")
        (parse_cache_control (header_get (codes "Cache-Control") r.header))
      ≡ false
  pub cached :
      has_directive
        (codes "no-cache")
        (parse_cache_control (header_get (codes "Cache-Control") r.header))
      ≡ false

module _ {S : Type 0} (next : Handler S) (digest : Text → Text) (cfg : CacheConfig) where
  pub handle-lookup :
      (flights : Text → Option SfResult) (r : Request) (at_lookup at_store : ℤ) (st : State S)
      → MayRead r
      → handle next digest cfg flights r at_lookup at_store st
        ≡ lookup next digest cfg flights
            (build_key r (headers_for r st.vary))
            r
            at_lookup
            at_store
            st
  unfolding handle
  handle-lookup flights r at_lookup at_store st m = rw (m.reading, m.storing, m.cached)

  lookup-hit :
      (flights : Text → Option SfResult) (key : Text) (r : Request) (at_lookup at_store : ℤ)
      (st : State S) (entry : Entry)
      → (Lru.get st.lru key at_lookup).1 ≡ some entry
      → lookup next digest cfg flights key r at_lookup at_store st
        ≡ (serve_from_cache r entry, record st { lru = (Lru.get st.lru key at_lookup).0 })
  unfolding lookup
  lookup-hit flights key r at_lookup at_store st entry hit = rw (hit, lookup)

  -- The state after the store, and the key that the next request looks up in it.
  abbrev after_store : Request → Captured → ℤ → State S → State S
  after_store r cw at_store st =
      let names = (parse_vary (header_get (codes "Vary") cw.header)).0 in
      record st {
        lru = Lru.set st.lru (build_key r names) (stored_entry digest cfg cw at_store);
        vary = put (vary_key r) names st.vary;
      }

  store-after_store :
      (r : Request) (cw : Captured) (at_store : ℤ) (st : State S)
      → may_store r cw ≡ true
      → (store digest cfg r cw at_store st).1 ≡ after_store r cw at_store st
  unfolding store
  store-after_store r cw at_store st may = rw may

  headers_for-put :
      (r r' : Request) (names : List Text) (vary : Dict (List Text))
      → vary_key r' ≡ vary_key r
      → headers_for r' (put (vary_key r) names vary) ≡ names
  unfolding headers_for
  headers_for-put r r' names vary e = rw (e, find-put_self)

  -- When a response that may be stored, with a body within a positive byte bound, has been stored in a
  -- valid cache, and the next request may read the cache, with the same method and path, the same key
  -- by the response's Vary headers and before the entry expires, by max-age or the configured time,
  -- then that request gets a 304 without a body if it names the response's tag, which is one made of
  -- the body where the response has none; else it gets the response's headers with that tag, 200 and
  -- the body. The handler behind does not run.
  pub hit_after-store :
      (flights : Text → Option SfResult) (r r' : Request) (cw : Captured)
      (at_store at_lookup later ttl : ℤ) (st : State S)
      → IsValid st.lru
      → MayStore r cw
      → (ltb_ℤ (pos 0) st.lru.max_bytes ≡ true → length cw.body ≤ pos_part st.lru.max_bytes)
      → MayRead r'
      → vary_key r' ≡ vary_key r
      → (let names = (parse_vary (header_get (codes "Vary") cw.header)).0 in
          build_key r' names ≡ build_key r names)
      → IsTtl cfg.ttl (parse_cache_control (header_get (codes "Cache-Control") cw.header)) ttl
      → ltb_ℤ (at_store +ℤ ttl) at_lookup ≡ false
      → let st' = (store digest cfg r cw at_store st).1 in
        let (reply, after) = handle next digest cfg flights r' at_lookup later st' in
        let matched = header_get (codes "If-None-Match") r'.header in
        (after.world ≡ st.world)
        × ((tag : Text) × (header : Header) × HasTag digest cw tag header
            × ((Matches matched tag × (status_of reply ≡ 304) × (body_of reply ≡ []))
                ⊎ (¬ Matches matched tag
                    × (reply ≡ add_all header ++ write_header 200 ∷ write cw.body ∷ []))))
  hit_after-store flights r r' cw at_store at_lookup later ttl st v may fits m same_path same_key
        lives live =
      let cc_ = parse_cache_control (header_get (codes "Cache-Control") cw.header) in
      let names = (parse_vary (header_get (codes "Vary") cw.header)).0 in
      let entry : Entry = stored_entry digest cfg cw at_store in
      let kept = stored_entry-IsEntryOf digest cfg cw at_store in
      let (ttl', lives', expires) = kept.lives in
      let same_ttl : ttl' ≡ ttl =
        IsTtl-ttl_for cfg.ttl cc_ ttl' lives' ∙ sym (IsTtl-ttl_for cfg.ttl cc_ ttl lives) in
      let live' : ltb_ℤ entry.expires_at at_lookup ≡ false =
        ap (λ t. ltb_ℤ t at_lookup) (expires ∙ ap (λ t. at_store +ℤ t) same_ttl) ∙ live in
      let st' : State S = after_store r cw at_store st in
      let key_eq : build_key r' (headers_for r' st'.vary) ≡ build_key r names =
        ap (build_key r') (headers_for-put r r' names st.vary same_path) ∙ same_key in
      let room : ltb_ℤ (pos 0) st.lru.max_bytes ≡ true
          → size (some entry) ≤ pos_part st.lru.max_bytes =
        λ on. rw kept.same_body (fits on) in
      let hit : (Lru.get st'.lru (build_key r names) at_lookup).1 ≡ some entry =
        get-set st.lru (build_key r names) entry at_lookup v room live' in
      let served =
        handle-lookup flights r' at_lookup later st' m
        ∙ ap (λ k. lookup next digest cfg flights k r' at_lookup later st') key_eq
        ∙ lookup-hit flights (build_key r names) r' at_lookup later st' entry hit in
      let answer =
        serve_from_cache-sent r' entry cw.body (kept.same_status ∙ may.found) kept.same_body in
      rw
        (
          store-after_store r cw at_store st ((cacheable_iff r cw).1 may),
          ap (λ p. p.0) served,
          ap (λ p. p.1.world) served,
        )
        (refl, (entry.etag, entry.header, kept.tagged, answer))
