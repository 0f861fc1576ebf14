-- ===== src/ResponseCache/Flights.antt =====
-- What a request gets that joins a flight of internal/middleware/cache.go.
use go_api_gateway.Prelude.{
  ◌≡◌, refl, ◌≢◌, Option, none, some, [], ◌∷◌, ◌++◌, ℤ, Text, codes, arith, ap, ◌∙◌,
}
use go_api_gateway.Prelude.Dict.{find-put_ne}
use go_api_gateway.Http.{Header, Request, Handler, header_get, header_set, canonical}
use go_api_gateway.Lru
use go_api_gateway.ResponseCache.Directives.{
  parse_cache_control, has_directive, base_key, write_vary, build_key,
}
use go_api_gateway.ResponseCache.{
  CacheConfig, State, SfResult, fill_cache, fly, miss, lookup, handle, headers_for, respond,
  write_raw,
}
use go_api_gateway.ResponseCache.Serving.{MayRead, handle-lookup}

-- The same request with another Authorization header.
abbrev pub as_user : Text → Request → Request
as_user token r = record r { header = header_set (codes "Authorization") token r.header }

header_get_other :
    (name v other : Text) (h : Header)
    → canonical name ≢ canonical other
    → header_get other (header_set name v h) ≡ header_get other h
unfolding header_get header_set
header_get_other name v other h n = rw (find-put_ne (canonical name) (canonical other) (v ∷ []) h n)

auth-ne-cache_control : canonical (codes "Authorization") ≢ canonical (codes "Cache-Control")
unfolding canonical
auth-ne-cache_control = λ e. cc

base_key-as_user : (token : Text) (r : Request) → base_key (as_user token r) ≡ base_key r
unfolding base_key
base_key-as_user token r = refl

build_key-as_user : (token : Text) (r : Request) → build_key (as_user token r) [] ≡ build_key r []
unfolding build_key write_vary
build_key-as_user token r = ap (λ k. k ++ []) (base_key-as_user token r)

MayRead-as_user : (token : Text) (r : Request) → MayRead r → MayRead (as_user token r)
MayRead-as_user token r m =
    let same : header_get (codes "Cache-Control") (as_user token r).header
        ≡ header_get (codes "Cache-Control") r.header =
      header_get_other (codes "Authorization") token (codes "Cache-Control") r.header
        auth-ne-cache_control in
    record {
      reading = m.reading;
      storing = ap (λ v. has_directive (codes "no-store") (parse_cache_control v)) same ∙ m.storing;
      cached = ap (λ v. has_directive (codes "no-cache") (parse_cache_control v)) same ∙ m.cached;
    }

module _ {S : Type 0} (next : Handler S) (digest : Text → Text) (cfg : CacheConfig) where
  miss_joined :
      (flights : Text → Option SfResult) (key : Text) (r : Request) (at_store : ℤ) (st : State S)
      (res : SfResult)
      → flights key ≡ some res
      → res.entry ≡ none
      → miss next digest cfg flights key r at_store st
        ≡ (write_raw res.status res.header res.body, st)
  unfolding miss fly respond
  miss_joined flights key r at_store st res joined private = ground arith

  lookup_missed :
      (flights : Text → Option SfResult) (key : Text) (r : Request) (at_lookup at_store : ℤ)
      (st : State S)
      → (Lru.get st.lru key at_lookup).1 ≡ none
      → lookup next digest cfg flights key r at_lookup at_store st
        ≡ miss next digest cfg flights key r at_store
            (record st { lru = (Lru.get st.lru key at_lookup).0 })
  unfolding lookup
  lookup_missed flights key r at_lookup at_store st missed = rw (missed, lookup)

  -- The key of a flight leaves the Authorization header out. While a GET or HEAD is in flight whose
  -- response may not be stored, such as a private one, and no Vary headers are remembered for its path,
  -- the same request with any other token, if it misses the cache, is answered with that response,
  -- and the handler behind does not see it.
  pub follower_sees_leader :
      (flights : Text → Option SfResult) (token : Text) (r : Request)
      (at_lookup at_store at_leader : ℤ) (st leader : State S)
      → MayRead r
      → headers_for r st.vary ≡ []
      → (Lru.get st.lru (build_key r []) at_lookup).1 ≡ none
      → flights (build_key r []) ≡ some (fill_cache next digest cfg r at_leader leader).0
      → (fill_cache next digest cfg r at_leader leader).0.entry ≡ none
      → let res = (fill_cache next digest cfg r at_leader leader).0 in
        ((handle next digest cfg flights (as_user token r) at_lookup at_store st).0
          ≡ write_raw res.status res.header res.body)
        × ((handle next digest cfg flights (as_user token r) at_lookup at_store st).1.world
            ≡ st.world)
  follower_sees_leader flights token r at_lookup at_store at_leader st leader m no_vary missed
        joined private =
      let r' : Request = as_user token r in
      let same_names : headers_for r' st.vary ≡ [] = unfold headers_for in no_vary in
      let key_eq : build_key r' (headers_for r' st.vary) ≡ build_key r [] =
        ap (build_key r') same_names ∙ build_key-as_user token r in
      let answered =
        handle-lookup next digest cfg flights r' at_lookup at_store st (MayRead-as_user token r m)
        ∙ ap (λ k. lookup next digest cfg flights k r' at_lookup at_store st) key_eq
        ∙ lookup_missed flights (build_key r []) r' at_lookup at_store st missed
        ∙ miss_joined flights (build_key r []) r' at_store
            (record st { lru = (Lru.get st.lru (build_key r []) at_lookup).0 })
            (fill_cache next digest cfg r at_leader leader).0 joined private in
      (ap (λ p. p.0) answered, ap (λ p. p.1.world) answered)
