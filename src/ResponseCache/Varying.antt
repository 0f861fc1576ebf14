-- ===== src/ResponseCache/Varying.antt =====
-- What internal/middleware/cache.go reads of Vary behind internal/middleware/compress.go, where the chain
-- of a service has both.
use go_api_gateway.Prelude.{
  ◌≡◌, refl, ap, ◌⊎◌, Bool, true, false, none, some, List, [], ◌∷◌, ℤ, Text, codes, All, Option, ℕ,
  Bool-cases, inl, inr, subst,
}
use go_api_gateway.Prelude.Dict.{put, find, find-put_self}
use go_api_gateway.Http.{
  Header, Request, add_header, write_header, write, Handler, header_get, header_add, canonical,
  all_token, canonical_from, first_value,
}
use go_api_gateway.Http.Vary.{LeavesVary, VaryStarts, IsFine}
use go_api_gateway.Compress.Vary.{compress_response-sent, SentFine}
use go_api_gateway.ResponseCache.Copies.{capture-VaryStarts, add_all-VaryStarts}
use go_api_gateway.Compress.{
  CompressWriter, emit, body_sent, vary_header, compress_response, compress, client_accepts_gzip,
}
use go_api_gateway.ResponseCache.Directives.{parse_cache_control, has_directive, parse_vary}
use go_api_gateway.ResponseCache.{
  CacheConfig, Captured, empty_capture, capture, capture_one, State, fill_cache, store,
}
use go_api_gateway.ResponseCache.Storing.{MayStore, IsStored, IsAsCaptured, store_iff}
use go_api_gateway.Lru.{Entry}

-- What it takes to store a response, Vary left aside.
pub record StoresButVary (r : Request) (cw : Captured) : Type 0 where
  pub found : cw.status ≡ 200
  pub not_no_store :
      has_directive
        (codes "no-store")
        (parse_cache_control (header_get (codes "Cache-Control") cw.header))
      ≡ false
  pub not_private :
      has_directive
        (codes "private")
        (parse_cache_control (header_get (codes "Cache-Control") cw.header))
      ≡ false
  pub own_or_public :
      (header_get (codes "Authorization") r.header ≡ [])
      ⊎ (has_directive
            (codes "public")
            (parse_cache_control (header_get (codes "Cache-Control") cw.header))
          ≡ true)

first_added :
    VaryStarts
      (codes "Accept-Encoding")
      (capture_one empty_capture (add_header (codes "Vary") (codes "Accept-Encoding"))).header
unfolding capture_one header_add canonical all_token canonical_from
first_added = ([], find-put_self (codes "Vary") (codes "Accept-Encoding" ∷ []) [])

header_get-VaryStarts :
    (first : Text) (h : Header) → VaryStarts first h → header_get (codes "Vary") h ≡ first
unfolding header_get canonical all_token canonical_from
header_get-VaryStarts first h (rest, found) = ap first_value found

parse_vary-VaryStarts :
    (h : Header)
    → VaryStarts (codes "Accept-Encoding") h
    → parse_vary (header_get (codes "Vary") h) ≡ (codes "Accept-Encoding" ∷ [], false)
unfolding parse_vary
parse_vary-VaryStarts h starts = rw (header_get-VaryStarts (codes "Accept-Encoding") h starts) refl

drop_vary : (r : Request) (cw : Captured) → MayStore r cw → StoresButVary r cw
drop_vary r cw m = record {
  found = m.found;
  not_no_store = m.not_no_store;
  not_private = m.not_private;
  own_or_public = m.own_or_public;
}

with_vary :
    (r : Request) (cw : Captured)
    → (parse_vary (header_get (codes "Vary") cw.header)).1 ≡ false
    → StoresButVary r cw
    → MayStore r cw
with_vary r cw not_any m = record {
  found = m.found;
  not_no_store = m.not_no_store;
  not_private = m.not_private;
  not_vary_any = not_any;
  own_or_public = m.own_or_public;
}

added-IsFine : (detect : Text → Text) → IsFine (codes "Accept-Encoding") (vary_header detect [])
unfolding header_add canonical all_token canonical_from put find
added-IsFine detect =
    (([], find-put_self (codes "Vary") (codes "Accept-Encoding" ∷ []) []), (refl, tt))

emitted-VaryStarts :
    (detect gzip : Text → Text) (cw : CompressWriter) (sent : Option (ℕ × Header))
    → SentFine (codes "Accept-Encoding") true sent
    → VaryStarts (codes "Accept-Encoding") (capture empty_capture (emit detect gzip cw sent)).header
unfolding find
emitted-VaryStarts detect gzip cw none fine = absurd fine
emitted-VaryStarts detect gzip cw (some (status, h)) fine =
    add_all-VaryStarts (codes "Accept-Encoding") empty_capture h
      (write_header status ∷ write (body_sent detect gzip cw) ∷ []) (tt, (tt, tt)) fine refl

module _ {S : Type 0} (next : Handler S) (digest detect gzip : Text → Text) (cfg : CacheConfig)
    (min_size : ℤ) where
  -- What `fillCache` captures of the compressing handler.
  abbrev pub captured : Request → S → Captured
  captured r s = capture empty_capture (compress detect gzip min_size next r s).0

  captured-VaryStarts :
      (r : Request) (s : S)
      → All LeavesVary (next r s).0
      → VaryStarts (codes "Accept-Encoding") (captured r s).header
  unfolding compress capture
  captured-VaryStarts r s leaves =
      elim (Bool-cases (client_accepts_gzip (header_get (codes "Accept-Encoding") r.header))) [
        | inr plain ↦ rw plain (
            capture-VaryStarts (codes "Accept-Encoding")
              (capture_one empty_capture (add_header (codes "Vary") (codes "Accept-Encoding")))
              (next r s).0 leaves first_added)
        | inl zips ↦
            let cw = compress_response detect min_size [] (next r s).0 in
            let fine =
              compress_response-sent (codes "Accept-Encoding") detect min_size (next r s).0
                (added-IsFine detect) leaves in
            rw zips (emitted-VaryStarts detect gzip cw cw.sent fine)
      ]

  -- Where the cache is in front of the compression, whether or not the client accepts gzip: if the handler
  -- behind only adds values to Vary, the cache reads Accept-Encoding there and nothing else. So it
  -- stores the response, under the key by the client's Accept-Encoding, exactly if it is a 200
  -- without no-store and private, for a request with no Authorization or with `public` in the
  -- response; what the handler says in Vary, `*` or a name, does not matter.
  pub fill_cache-compress :
      (r : Request) (at_store : ℤ) (st : State S)
      → All LeavesVary (next r st.world).0
      → let cw = captured r st.world in
        let world = (compress detect gzip min_size next r st.world).1 in
        let out = fill_cache (compress detect gzip min_size next) digest cfg r at_store st in
        (parse_vary (header_get (codes "Vary") cw.header) ≡ (codes "Accept-Encoding" ∷ [], false))
        × ((StoresButVary r cw
              × ((entry : Entry) × IsStored digest cfg r cw
                    (codes "Accept-Encoding" ∷ [])
                    at_store
                    (record st { world = world })
                    entry
                    out))
            ⊎ (¬ StoresButVary r cw × IsAsCaptured r cw (record st { world = world }) out))
  unfolding fill_cache
  fill_cache-compress r at_store st leaves =
      let cw = captured r st.world in
      let read = parse_vary-VaryStarts cw.header (captured-VaryStarts r st.world leaves) in
      let world = (compress detect gzip min_size next r st.world).1 in
      let st' : State S = record st { world = world } in
      let not_any = ap (λ (p : List Text × Bool). p.1) read in
      (
        read,
        elim (store_iff digest cfg r cw at_store st') [
          | inl (m, (entry, stored)) ↦ inl (
            drop_vary r cw m,
            (
              entry,
              subst
                  (λ (p : List Text × Bool).
                    IsStored digest cfg r cw p.0 at_store st' entry
                      (store digest cfg r cw at_store st'))
                  read stored,
            ),
          )
          | inr (refused, left) ↦ inr (λ m. refused (with_vary r cw not_any m), left)
        ],
      )
