-- ===== src/Tests/Caching.antt =====
-- Runs of the LRU of internal/cache/lru.go and of the middleware of internal/middleware/cache.go.
use go_api_gateway.Prelude.{◌≡◌, [], ◌∷◌, ℤ, pos, Text, codes}
use go_api_gateway.Prelude.Dict.{find, delete}
use go_api_gateway.Lru.{Entry, Lru, new_lru, get, set}
use go_api_gateway.Lru.Invariant.{IsValid, new_lru-IsValid, set-IsValid}
use go_api_gateway.Lru.Prefix.{fit_entries, fit_bytes}
use go_api_gateway.Lru.Methods.{view, pair_size, view-set}
use go_api_gateway.Lru.Reads.{touch, get_lem}

abbrev entry_of : Text → ℤ → Entry
entry_of body expires_at = record {
  status = 200;
  header = [];
  body = body;
  etag = codes "\"t\"";
  expires_at = expires_at;
}

abbrev page : Entry
page = entry_of (codes "page") (pos 50)

abbrev empty_lru : Lru
empty_lru = new_lru (pos 2) (pos 10)

-- Two entries, the bound.
abbrev full_lru : Lru
full_lru = set (set empty_lru (codes "a") page) (codes "b") page

full_lru-IsValid : IsValid full_lru
full_lru-IsValid =
    set-IsValid (set empty_lru (codes "a") page) (codes "b") page
      (set-IsValid empty_lru (codes "a") page (new_lru-IsValid (pos 2) (pos 10)))

view-set_example :
    view (set full_lru (codes "c") page)
    ≡ fit_bytes pair_size full_lru.max_bytes
        (fit_entries full_lru.max_entries ((codes "c", page) ∷ delete (codes "c") (view full_lru)))
view-set_example = view-set full_lru full_lru-IsValid (codes "c") page

get_lem_example :
    (view (get full_lru (codes "a") (pos 7)).0, (get full_lru (codes "a") (pos 7)).1)
    ≡ touch (codes "a") (pos 7) (view full_lru) (find (codes "a") (view full_lru))
get_lem_example = get_lem full_lru full_lru-IsValid (codes "a") (pos 7)
