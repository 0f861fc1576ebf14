-- ===== src/Tests/Responses.antt =====
-- Runs of the caching middleware of internal/middleware/cache.go.
use go_api_gateway.Prelude.{
  ℕ, suc, ◌≤◌, ◌≡◌, refl, ap, true, false, Option, none, some, [], ◌∷◌, ◌++◌, pos, ltb_ℤ, ◌+ℤ◌,
  Text, codes, length, pos_part, arith, text_eq, inl, ◌⊎◌,
}
use go_api_gateway.Prelude.Dict.{find}
use go_api_gateway.Strings.{text_leb}
use go_api_gateway.Http.{
  status_of, body_of, Request, Handler, write, set_header, header_get, canonical, Header, add_all,
  write_header,
}
use go_api_gateway.Lru.{Entry, new_lru, get}
use go_api_gateway.Lru.Invariant.{IsValid, new_lru-IsValid}
use go_api_gateway.ResponseCache.Directives.{
  parse_cache_control, has_directive, parse_vary, build_key, base_key, etag_matches,
}
use go_api_gateway.ResponseCache.{
  CacheConfig, Captured, State, SfResult, store, write_raw, serve_from_cache, handle,
  add_validators, fill_cache, headers_for, cacheable_response, capture, empty_capture,
}
use go_api_gateway.ResponseCache.Storing.{
  MayStore, IsStored, IsAsCaptured, store_iff, handle-IsValid,
}
use go_api_gateway.ResponseCache.Entries.{IsTtl, no_max_age, HasTag}
use go_api_gateway.ResponseCache.Conditional.{Matches}
use go_api_gateway.ResponseCache.Serving.{MayRead, hit_after-store, serve_from_cache_lem}
use go_api_gateway.ResponseCache.Flights.{as_user, follower_sees_leader}
use go_api_gateway.ResponseCache.Keys.{with_query, query_collision}

abbrev request : Request
request = record {
  method = codes "GET";
  path = codes "/items";
  query = [];
  header = [];
  remote_addr = codes "1.2.3.4:5";
  content_length = pos 0;
  body_limit = none;
  claims = none;
  request_id = none;
  target = none;
}

abbrev config : CacheConfig
config = record { ttl = pos 60; max_entries = pos 2; max_bytes = pos 100 }

-- The handler behind counts its requests; the state is the count.
abbrev counting : Handler ℕ
counting r n =
    (set_header (codes "Cache-Control") (codes "private") ∷ write (codes "mine") ∷ [], suc n)

abbrev empty_state : State ℕ
empty_state = record { lru = new_lru (pos 2) (pos 100); vary = []; world = 0 }

abbrev page : Captured
page = record { status = 200; header = []; body = codes "page" }

abbrev same_digest : Text → Text
same_digest body = body

abbrev no_flights : Text → Option SfResult
no_flights key = none

store_iff_example :
    (MayStore request page
      × ((entry : Entry) × IsStored same_digest config request page
            (parse_vary (header_get (codes "Vary") page.header)).0
            (pos 10)
            empty_state
            entry
            (store same_digest config request page (pos 10) empty_state)))
    ⊎ (¬ MayStore request page
        × IsAsCaptured request page empty_state
            (store same_digest config request page (pos 10) empty_state))
store_iff_example = store_iff same_digest config request page (pos 10) empty_state

handle-IsValid_example :
    IsValid
      (handle counting same_digest config no_flights request (pos 1) (pos 2) empty_state).1.lru
handle-IsValid_example =
    handle-IsValid counting same_digest config no_flights request (pos 1) (pos 2) empty_state
      (new_lru-IsValid (pos 2) (pos 100))

abbrev stale_entry : Entry
stale_entry = record {
  status = 200;
  header = [];
  body = codes "page";
  etag = codes "\"t\"";
  expires_at = pos 70;
}

-- It names the tag of the entry, as a weak one, behind another.
abbrev asking : Request
asking = record request {
  header =
      (codes "If-None-Match", (codes "x, W/" ++ (codes "\"" ++ (codes "t" ++ codes "\""))) ∷ [])
      ∷ [];
}

serve_from_cache_lem_example :
    let matched = header_get (codes "If-None-Match") asking.header in
    let reply = serve_from_cache asking stale_entry in
    (Matches matched stale_entry.etag
      × (status_of reply ≡ 304)
      × (body_of reply ≡ [])
      × (header_get (codes "ETag") (capture empty_capture reply).header ≡ stale_entry.etag))
    ⊎ (¬ Matches matched stale_entry.etag
        × (status_of reply ≡ 200)
        × (body_of reply ≡ codes "page"))
serve_from_cache_lem_example = serve_from_cache_lem asking stale_entry

asking_is_answered : status_of (serve_from_cache asking stale_entry) ≡ 304
unfolding serve_from_cache add_validators etag_matches text_eq header_get canonical find
asking_is_answered = refl

request-MayRead : MayRead request
unfolding header_get canonical find text_eq parse_cache_control has_directive
request-MayRead = record { reading = refl; storing = refl; cached = refl }

asking-MayRead : MayRead asking
unfolding header_get canonical find text_eq parse_cache_control has_directive
asking-MayRead = record { reading = refl; storing = refl; cached = refl }

same_keys :
    (let names = (parse_vary (header_get (codes "Vary") page.header)).0 in
      build_key asking names ≡ build_key request names)
unfolding build_key base_key parse_vary header_get
same_keys = refl

page-MayStore : MayStore request page
unfolding has_directive parse_cache_control parse_vary header_get
page-MayStore = record {
  found = refl;
  not_no_store = refl;
  not_private = refl;
  not_vary_any = refl;
  own_or_public = inl refl;
}

page-IsTtl :
    IsTtl config.ttl (parse_cache_control (header_get (codes "Cache-Control") page.header)) (pos 60)
unfolding parse_cache_control header_get find
page-IsTtl = no_max_age refl

page_is_live : ltb_ℤ (pos 10 +ℤ pos 60) (pos 20) ≡ false
unfolding ◌+ℤ◌
page_is_live = refl

page_fits :
    ltb_ℤ (pos 0) empty_state.lru.max_bytes ≡ true
    → length page.body ≤ pos_part empty_state.lru.max_bytes
unfolding new_lru
page_fits e = omega arith

hit_after-store_example :
    let st = (store same_digest config request page (pos 10) empty_state).1 in
    let (reply, after) =
      handle counting same_digest config no_flights asking (pos 20) (pos 21) st in
    let matched = header_get (codes "If-None-Match") asking.header in
    (after.world ≡ 0)
    × ((tag : Text) × (header : Header) × HasTag same_digest page tag header
        × ((Matches matched tag × (status_of reply ≡ 304) × (body_of reply ≡ []))
            ⊎ (¬ Matches matched tag
                × (reply ≡ add_all header ++ write_header 200 ∷ write (codes "page") ∷ []))))
hit_after-store_example =
    hit_after-store counting same_digest config no_flights request asking page (pos 10) (pos 20)
      (pos 21) (pos 60) empty_state (new_lru-IsValid (pos 2) (pos 100)) page-MayStore page_fits
      asking-MayRead refl same_keys page-IsTtl page_is_live

abbrev first_byte : Text → ℕ
first_byte [] = 0
first_byte (c ∷ s) = c

query_collision_example :
    build_key
      (with_query ((codes "a", codes "1" ∷ []) ∷ (codes "b", codes "2" ∷ []) ∷ []) request)
      []
    ≡ build_key
        (with_query
          ((codes "a", (codes "1" ++ (codes "&" ++ (codes "b" ++ (codes "=" ++ codes "2")))) ∷ [])
            ∷ [])
          request)
        []
unfolding text_leb
query_collision_example =
    query_collision (codes "a") (codes "b") (codes "1") (codes "2") [] request refl
      (λ e. let q : 97 ≡ 98 = ap first_byte e in omega arith)

abbrev flying : Text → Option SfResult
flying key = some (fill_cache counting same_digest config request (pos 5) empty_state).0

nothing_remembered : headers_for request empty_state.vary ≡ []
unfolding headers_for find
nothing_remembered = refl

nothing_cached : (get empty_state.lru (build_key request []) (pos 6)).1 ≡ none
unfolding get new_lru
nothing_cached = refl

leader_is_private :
    (fill_cache counting same_digest config request (pos 5) empty_state).0.entry ≡ none
unfolding fill_cache store capture cacheable_response has_directive parse_cache_control parse_vary
    header_get
leader_is_private = refl

follower_sees_leader_example :
    let res = (fill_cache counting same_digest config request (pos 5) empty_state).0 in
    ((handle counting same_digest config flying
        (as_user (codes "Bearer eve") request)
        (pos 6)
        (pos 7)
        empty_state).0
      ≡ write_raw res.status res.header res.body)
    × ((handle counting same_digest config flying
          (as_user (codes "Bearer eve") request)
          (pos 6)
          (pos 7)
          empty_state).1.world
        ≡ 0)
follower_sees_leader_example =
    follower_sees_leader counting same_digest config flying (codes "Bearer eve") request (pos 6)
      (pos 7) (pos 5) empty_state empty_state request-MayRead nothing_remembered nothing_cached refl
      leader_is_private
