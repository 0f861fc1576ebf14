-- ===== src/ResponseCache/Directives.antt =====
-- How internal/middleware/cache.go reads Cache-Control, Vary and If-None-Match, and builds its keys.
use go_api_gateway.Prelude.{
  Bool, true, false, Option, none, some, List, [], ◌∷◌, ◌++◌, map, if◌then◌else◌, ite, Text, codes,
  text_eq,
}
use go_api_gateway.Prelude.Dict.{Dict, find, put}
use go_api_gateway.Strings.{
  is_nil, is_some, split, trim_space, cut, to_lower, trim_prefix, sort_strings,
}
use go_api_gateway.Http.{Header, header_get, Request}

-- The loop of `parseCacheControl`.
unfoldable pub add_directives : List Text → Dict Text → Dict Text
unfolding trim_space cut to_lower put
add_directives [] out = out
add_directives (part ∷ parts) out =
    let token = trim_space part in
    let (name, val, _) = cut b'=' token in
    add_directives parts
      (if is_nil token then out else put (to_lower (trim_space name)) (trim_space val) out)

unfoldable pub parse_cache_control : Text → Dict Text
unfolding add_directives split
parse_cache_control value = if is_nil value then [] else add_directives (split b',' value) []

-- `_, ok := cc[name]`.
unfoldable pub has_directive : Text → Dict Text → Bool
unfolding find
has_directive name cc = is_some (find name cc)

-- The loop of `parseVary`: the names so far, and `true` on a `*`.
unfoldable pub vary_loop : List Text → List Text → List Text × Bool
unfolding trim_space text_eq
vary_loop out [] = (out, false)
vary_loop out (part ∷ parts) =
    let p = trim_space part in
    let rest = vary_loop (if is_nil p then out else out ++ p ∷ []) parts in
    ite (text_eq p (codes "*")) ([], true) rest

unfoldable pub parse_vary : Text → List Text × Bool
unfolding vary_loop split
parse_vary vary = if is_nil vary then ([], false) else vary_loop [] (split b',' vary)

-- The loop of `etagMatches` over the parts of If-None-Match.
unfoldable pub any_tag : Text → List Text → Bool
unfolding trim_space trim_prefix text_eq
any_tag stored [] = false
any_tag stored (part ∷ parts) =
    let token = trim_prefix (trim_space part) (codes "W/") in
    let rest = any_tag stored parts in
    ite (text_eq token (codes "*")) true (ite (text_eq token stored) true rest)

unfoldable pub etag_matches : Text → Text → Bool
unfolding any_tag split trim_prefix
etag_matches if_none_match etag =
    if is_nil etag
    then false
    else any_tag (trim_prefix etag (codes "W/")) (split b',' if_none_match)

-- `k=v&` for every value of a key.
unfoldable pub write_values : Text → List Text → Text
write_values k [] = []
write_values k (v ∷ vs) = k ++ (codes "=" ++ (v ++ (codes "&" ++ write_values k vs)))

abbrev pub values_of : Option (List Text) → List Text
values_of none = []
values_of (some vs) = vs

unfoldable pub write_keys : Dict (List Text) → List Text → Text
unfolding write_values sort_strings find
write_keys q [] = []
write_keys q (k ∷ ks) = write_values k (sort_strings (values_of (find k q))) ++ write_keys q ks

unfoldable pub write_vary : Header → List Text → Text
unfolding to_lower header_get
write_vary h [] = []
write_vary h (name ∷ names) =
    codes "|" ++ (to_lower name ++ (codes "=" ++ (header_get name h ++ write_vary h names)))

-- Without the values of the Vary headers.
unfoldable pub base_key : Request → Text
unfolding write_keys sort_strings
base_key r =
    r.method
    ++ (codes " "
        ++ (r.path ++ (codes "?" ++ write_keys r.query (sort_strings (map (λ p. p.0) r.query)))))

unfoldable pub build_key : Request → List Text → Text
unfolding base_key write_vary
build_key r vary_headers = base_key r ++ write_vary r.header vary_headers
