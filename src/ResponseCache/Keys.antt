-- ===== src/ResponseCache/Keys.antt =====
-- Which requests share a key of internal/middleware/cache.go, and which Vary headers it reads.
use mathlib.Core.List.{append_assoc, append-nil}
use go_api_gateway.Prelude.{
  ◌≡◌, refl, ◌≢◌, true, some, List, [], ◌∷◌, ◌++◌, Text, codes, text_eq, ap, sym, ◌∙◌, if_pos,
  if_neg,
}
use go_api_gateway.Prelude.Dict.{Dict, find, find-put_self}
use go_api_gateway.Strings.{sort_strings, insert_sorted, text_leb}
use go_api_gateway.Http.{Header, Request, header_get, header_add, canonical}
use go_api_gateway.ResponseCache.Directives.{
  write_values, write_keys, base_key, write_vary, build_key, parse_vary,
}

-- A request with another decoded query.
abbrev pub with_query : Dict (List Text) → Request → Request
with_query q r = record r { query = q }

write_two :
    (a b v w : Text)
    → text_leb a b ≡ true
    → a ≢ b
    → write_keys ((a, v ∷ []) ∷ (b, w ∷ []) ∷ []) (sort_strings (a ∷ b ∷ []))
      ≡ write_values a (v ∷ []) ++ (write_values b (w ∷ []) ++ [])
unfolding write_keys sort_strings insert_sorted find
write_two a b v w le ne =
    rw (le, if_pos (text_eq a a) refl, if_neg (text_eq a b) ne, if_pos (text_eq b b) refl)

write_one :
    (a v : Text)
    → write_keys ((a, v ∷ []) ∷ []) (sort_strings (a ∷ [])) ≡ write_values a (v ∷ []) ++ []
unfolding write_keys sort_strings insert_sorted find
write_one a v = rw (if_pos (text_eq a a) refl)

same_text :
    (a b v w : Text)
    → write_values a (v ∷ []) ++ (write_values b (w ∷ []) ++ [])
      ≡ write_values a ((v ++ (codes "&" ++ (b ++ (codes "=" ++ w)))) ∷ []) ++ []
unfolding write_values
same_text a b v w = simp (append_assoc, append-nil)

-- The key writes decoded names and values with no escape for `=` and `&`. For names `a` and `b` in
-- order, a request with the two parameters `a=v` and `b=w`, and one whose single parameter `a` has the value `v&b=w` (sent as
-- `a=v%26b%3Dw`), share every key.
pub query_collision :
    (a b v w : Text) (names : List Text) (r : Request)
    → text_leb a b ≡ true
    → a ≢ b
    → build_key (with_query ((a, v ∷ []) ∷ (b, w ∷ []) ∷ []) r) names
      ≡ build_key
          (with_query ((a, (v ++ (codes "&" ++ (b ++ (codes "=" ++ w)))) ∷ []) ∷ []) r)
          names
unfolding build_key base_key
query_collision a b v w names r le ne =
    ap (λ q. (r.method ++ (codes " " ++ (r.path ++ (codes "?" ++ q)))) ++ write_vary r.header names)
      (write_two a b v w le ne
        ∙ same_text a b v w
        ∙ sym (write_one a (v ++ (codes "&" ++ (b ++ (codes "=" ++ w))))))

-- `Header.Get` reads the first value alone: where a Vary header is there already, the Vary names read
-- from the response are those of its first value, whatever another `Add` puts behind it.
pub later_vary_ignored :
    (v w : Text) (vs : List Text) (h : Header)
    → find (canonical (codes "Vary")) h ≡ some (v ∷ vs)
    → parse_vary (header_get (codes "Vary") (header_add (codes "Vary") w h)) ≡ parse_vary v
unfolding header_get header_add
later_vary_ignored v w vs h e = rw (find-put_self, e)
