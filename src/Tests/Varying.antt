-- ===== src/Tests/Varying.antt =====
-- A run of the response cache in front of the compression.
use go_api_gateway.Prelude.{ℕ, suc, ◌≡◌, ◌⊎◌, false, none, [], ◌∷◌, pos, Text, codes}
use go_api_gateway.Http.{Request, Handler, header_get, add_header, write_header, write}
use go_api_gateway.Lru.{new_lru}
use go_api_gateway.Compress.{compress, client_accepts_gzip}
use go_api_gateway.ResponseCache.Directives.{parse_vary}
use go_api_gateway.ResponseCache.{CacheConfig, State, fill_cache}
use go_api_gateway.Lru.{Entry}
use go_api_gateway.ResponseCache.Storing.{IsStored, IsAsCaptured}
use go_api_gateway.ResponseCache.Varying.{StoresButVary, captured, fill_cache-compress}

abbrev request : Request
request = record {
  method = codes "GET";
  path = codes "/items";
  query = [];
  header = (codes "Accept-Encoding", codes "gzip" ∷ []) ∷ [];
  remote_addr = codes "1.2.3.4:5";
  content_length = pos 0;
  body_limit = none;
  claims = none;
  request_id = none;
  target = none;
}

-- It says that its response may not be reused.
abbrev unpredictable : Handler ℕ
unpredictable r n =
    (add_header (codes "Vary") (codes "*") ∷ write_header 200 ∷ write (codes "page") ∷ [], suc n)

abbrev same : Text → Text
same body = body

abbrev config : CacheConfig
config = record { ttl = pos 60; max_entries = pos 2; max_bytes = pos 1000 }

abbrev empty_state : State ℕ
empty_state = record { lru = new_lru (pos 2) (pos 1000); vary = []; world = 0 }

fill_cache-compress_example :
    let cw = captured unpredictable same same same config (pos 10) request 0 in
    let st : State ℕ = record empty_state { world = 1 } in
    let filled =
      fill_cache
        (compress same same (pos 10) unpredictable)
        same
        config
        request
        (pos 5)
        empty_state in
    (parse_vary (header_get (codes "Vary") cw.header) ≡ (codes "Accept-Encoding" ∷ [], false))
    × ((StoresButVary request cw
          × ((entry : Entry) × IsStored same config request cw
                (codes "Accept-Encoding" ∷ [])
                (pos 5)
                st
                entry
                filled))
        ⊎ (¬ StoresButVary request cw × IsAsCaptured request cw st filled))
unfolding new_lru compress client_accepts_gzip
fill_cache-compress_example =
    fill_cache-compress unpredictable same same same config (pos 10) request (pos 5) empty_state
      (tt, (tt, (tt, tt)))
