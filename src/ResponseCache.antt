-- ===== src/ResponseCache.antt =====
-- internal/middleware/cache.go: the caching middleware over the LRU. The handler behind it, the hash
-- of a body (SHA-256 cut to 16 bytes, in hexadecimal) and the flights of `singleflight.Group` are
-- parameters; `at_lookup` and `at_store` are the times of the lookup and of the store.
pub mod Directives
pub mod Entries
pub mod Conditional
pub mod Storing
pub mod Serving
pub mod Flights
pub mod Keys
pub mod Copies
pub mod Varying
use go_api_gateway.Prelude.{
  ℕ, ◌+◌, ◌*◌, Bool, true, false, not, ◌&&◌, ◌||◌, Option, none, some, List, [], ◌∷◌, ◌++◌,
  if◌then◌else◌, ite, ℤ, pos, ltb_ℤ, ◌+ℤ◌, ◌*ℤ◌, wrap64, Text, codes, text_eq, ◌==◌,
}
use go_api_gateway.Prelude.Dict.{Dict, find, put}
use go_api_gateway.Strings.{is_nil, is_some, atoi}
use go_api_gateway.Http.{
  Header, Request, Action, set_header, add_header, del_header, write_header, write, Handler,
  header_get, header_set, header_add, header_del, add_values, add_all,
}
use go_api_gateway.Lru.{Lru, Entry}
use go_api_gateway.Lru
use go_api_gateway.ResponseCache.Directives.{
  parse_cache_control, has_directive, parse_vary, etag_matches, build_key, values_of,
}

pub record CacheConfig : Type 0 where
  pub ttl : ℤ
  pub max_entries : ℤ
  pub max_bytes : ℤ

-- `captureWriter`: a status of 0 is one that was never written.
pub record Captured : Type 0 where
  pub status : ℕ
  pub header : Header
  pub body : Text

abbrev pub empty_capture : Captured
empty_capture = record { status = 0; header = []; body = [] }

unfoldable pub capture_one : Captured → Action → Captured
unfolding header_set header_add header_del
capture_one cw (set_header name v) = record cw { header = header_set name v cw.header }
capture_one cw (add_header name v) = record cw { header = header_add name v cw.header }
capture_one cw (del_header name) = record cw { header = header_del name cw.header }
capture_one cw (write_header code) = record cw { status = code }
capture_one cw (write b) = record cw {
  status = if cw.status == 0 then 200 else cw.status;
  body = cw.body ++ b;
}

unfoldable pub capture : Captured → List Action → Captured
unfolding capture_one
capture cw [] = cw
capture cw (a ∷ as_) = capture (capture_one cw a) as_

unfoldable pub cacheable_response : ℕ → Dict Text → Bool → Request → Bool
cacheable_response status cc vary_any r =
    if not (status == 200)
    then false
    else (if has_directive (codes "no-store") cc
        then false
        else (if has_directive (codes "private") cc
            then false
            else (if vary_any
                then false
                else (if not (is_nil (header_get (codes "Authorization") r.header))
                    then has_directive (codes "public") cc
                    else true))))

-- The keys of `varyState`.
abbrev pub vary_key : Request → Text
vary_key r = r.method ++ (codes " " ++ r.path)

unfoldable pub headers_for : Request → Dict (List Text) → List Text
headers_for r vary = values_of (find (vary_key r) vary)

-- `secs, err := strconv.Atoi(maxAge)`, with `time.Duration(secs) * time.Second` on int64.
abbrev pub ttl_of_secs : ℤ → Option ℤ → ℤ
ttl_of_secs ttl none = ttl
ttl_of_secs ttl (some secs) = if ltb_ℤ (pos 0) secs then wrap64 (secs *ℤ pos 1000000000) else ttl

abbrev pub ttl_of_max_age : ℤ → Option Text → ℤ
ttl_of_max_age ttl none = ttl
ttl_of_max_age ttl (some max_age) = ttl_of_secs ttl (atoi max_age)

unfoldable pub ttl_for : ℤ → Dict Text → ℤ
unfolding find atoi wrap64 ◌*ℤ◌
ttl_for ttl cc = ttl_of_max_age ttl (find (codes "max-age") cc)

pub record SfResult : Type 0 where
  pub entry : Option Entry
  pub status : ℕ
  pub header : Header
  pub body : Text

-- What the requests share, and the state of the handler behind.
pub record State (S : Type 0) : Type 0 where
  pub lru : Lru
  pub vary : Dict (List Text)
  pub world : S

unfoldable pub write_raw : ℕ → Header → Text → List Action
write_raw status header body =
    add_all header ++ write_header (if status == 0 then 200 else status) ∷ write body ∷ []

-- The headers of a 304: all but Content-Length and Content-Type.
unfoldable pub add_validators : Header → List Action
unfolding text_eq
add_validators [] = []
add_validators ((k, vs) ∷ h) =
    let rest = add_validators h in
    ite (text_eq k (codes "Content-Length")) rest
      (ite (text_eq k (codes "Content-Type")) rest (add_values k vs ++ rest))

unfoldable pub serve_from_cache : Request → Entry → List Action
serve_from_cache r entry =
    let matched = header_get (codes "If-None-Match") r.header in
    if not (is_nil matched) && etag_matches matched entry.etag
    then add_validators entry.header ++ set_header (codes "ETag") entry.etag ∷ write_header 304 ∷ []
    else write_raw entry.status entry.header entry.body

unfoldable pub respond : Request → SfResult → List Action
respond r res = elim res.entry [
  | some entry ↦ serve_from_cache r entry
  | none ↦ write_raw res.status res.header res.body
]

-- `computeETag`.
unfoldable pub compute_etag : (Text → Text) → Text → Text
compute_etag digest body = codes "\"" ++ (digest body ++ codes "\"")

-- The entry for a captured response; an ETag of its own is kept.
unfoldable pub make_entry : (Text → Text) → Captured → ℤ → ℤ → Entry
make_entry digest cw ttl at_store =
    let own = header_get (codes "ETag") cw.header in
    let etag = if is_nil own then compute_etag digest cw.body else own in
    record {
      status = cw.status;
      header = if is_nil own then header_set (codes "ETag") etag cw.header else cw.header;
      body = cw.body;
      etag = etag;
      expires_at = at_store +ℤ ttl;
    }

-- `fillCache` from the captured response on.
unfoldable pub store :
    {S : Type 0}
    → (Text → Text)
    → CacheConfig
    → Request
    → Captured
    → ℤ
    → State S
    → SfResult × State S
store digest cfg r cw at_store st =
    let cc = parse_cache_control (header_get (codes "Cache-Control") cw.header) in
    let (vary_headers, vary_any) = parse_vary (header_get (codes "Vary") cw.header) in
    let entry = make_entry digest cw (ttl_for cfg.ttl cc) at_store in
    if cacheable_response cw.status cc vary_any r
    then (
      record { entry = some entry; status = 0; header = []; body = [] },
      record st {
        lru = Lru.set st.lru (build_key r vary_headers) entry;
        vary = put (vary_key r) vary_headers st.vary;
      },
    )
    else (record { entry = none; status = cw.status; header = cw.header; body = cw.body }, st)

abbrev pub is_get_or_head : Text → Bool
is_get_or_head m = ite (text_eq m (codes "GET")) true (ite (text_eq m (codes "HEAD")) true false)

module _ {S : Type 0} (next : Handler S) (digest : Text → Text) (cfg : CacheConfig) where
  unfoldable pub fill_cache : Request → ℤ → State S → SfResult × State S
  fill_cache r at_store st =
      let (actions, world) = next r st.world in
      store digest cfg r (capture empty_capture actions) at_store (record st { world = world })

  -- `sf.Do`: `flight` is the result of the call in progress for this key, if there is one, and its
  -- followers take that; else this request makes the call.
  unfoldable pub fly : Option SfResult → Request → ℤ → State S → SfResult × State S
  fly (some res) r at_store st = (res, st)
  fly none r at_store st = fill_cache r at_store st

  unfoldable pub pass : Request → State S → List Action × State S
  pass r st = let (actions, world) = next r st.world in (actions, record st { world = world })

  unfoldable pub miss :
      (Text → Option SfResult) → Text → Request → ℤ → State S → List Action × State S
  miss flights key r at_store st =
      let (res, st') = fly (flights key) r at_store st in (respond r res, st')

  -- The lookup, with what follows a hit and a miss.
  unfoldable pub lookup :
      (Text → Option SfResult) → Text → Request → ℤ → ℤ → State S → List Action × State S
  lookup flights key r at_lookup at_store st =
      let (lru, hit) = Lru.get st.lru key at_lookup in
      elim hit [
        | some entry ↦ (serve_from_cache r entry, record st { lru = lru })
        | none ↦ miss flights key r at_store (record st { lru = lru })
      ]

  -- The handler that `Cache` returns.
  unfoldable pub handle :
      (Text → Option SfResult) → Request → ℤ → ℤ → State S → List Action × State S
  handle flights r at_lookup at_store st =
      let cc = parse_cache_control (header_get (codes "Cache-Control") r.header) in
      let key = build_key r (headers_for r st.vary) in
      if not (is_get_or_head r.method)
      then pass r st
      else (if has_directive (codes "no-store") cc
          then pass r st
          else (if has_directive (codes "no-cache") cc
              then miss flights key r at_store st
              else lookup flights key r at_lookup at_store st))
