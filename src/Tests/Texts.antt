-- ===== src/Tests/Texts.antt =====
-- Runs of the text and header functions at fixed inputs.
use go_api_gateway.Compress.{client_accepts_gzip}
use go_api_gateway.Prelude.{◌≡◌, refl, some, true, [], ◌∷◌, codes}
use go_api_gateway.Strings.{split, trim_space, atoi, sort_strings, negated}
use go_api_gateway.Http.{canonical}

split_demo : split b',' (codes "a, b") ≡ codes "a" ∷ codes " b" ∷ []
unfolding split
split_demo = refl

trim_demo : trim_space (codes " a b ") ≡ codes "a b"
unfolding trim_space
trim_demo = refl

atoi_demo : atoi (codes "-120") ≡ some (negated 120)
unfolding atoi
atoi_demo = refl

sort_demo :
    sort_strings (codes "b" ∷ codes "ab" ∷ codes "a" ∷ []) ≡ codes "a" ∷ codes "ab" ∷ codes "b" ∷ []
unfolding sort_strings
sort_demo = refl

canonical_demo : canonical (codes "x-request-id") ≡ codes "X-Request-Id"
unfolding canonical
canonical_demo = refl

-- A quality of 0 refuses an encoding, but the parameters are not read.
gzip_refused_demo : client_accepts_gzip (codes "br, gzip;q=0") ≡ true
unfolding client_accepts_gzip
gzip_refused_demo = refl
