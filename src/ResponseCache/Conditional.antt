-- ===== src/ResponseCache/Conditional.antt =====
-- When a request of internal/middleware/cache.go names the tag of an entry, and what the headers that
-- are written before a status leave of it.
use go_api_gateway.Prelude.{
  ◌≡◌, ◌≢◌, ◌↔◌, refl, true, not, ◌&&◌, List, [], ◌∷◌, ◌++◌, Text, codes, text_eq, arith, All, Any,
  here, there, ◌⊎◌, inl, inr, ap, sym, ◌∙◌, if_neg,
}
use go_api_gateway.Prelude.Dict.{find-put_self}
use go_api_gateway.Strings.{is_nil, split, trim_space, trim_prefix}
use go_api_gateway.Http.{
  Header, Action, set_header, add_header, del_header, write_header, write, body_of, status_of,
  header_get, header_set, canonical, all_token, canonical_from, first_value, add_values, add_all,
}
use go_api_gateway.ResponseCache.Directives.{any_tag, etag_matches}
use go_api_gateway.ResponseCache.Copies.{capture-append}
use go_api_gateway.ResponseCache.Entries.{nil_cases}
use go_api_gateway.ResponseCache.{empty_capture, capture, capture_one, add_validators}

-- A part of If-None-Match names the tag, or any; W/ is left aside on both.
abbrev pub Names : Text → Text → Type 0
Names etag part =
    (trim_prefix (trim_space part) (codes "W/") ≡ codes "*")
    ⊎ (trim_prefix (trim_space part) (codes "W/") ≡ trim_prefix etag (codes "W/"))

-- If-None-Match is there and holds the tag.
pub record Matches (if_none_match etag : Text) : Type 0 where
  pub is_sent : if_none_match ≢ []
  pub is_tagged : etag ≢ []
  pub named : Any (Names etag) (split b',' if_none_match)

any_tag-named :
    (etag : Text) (parts : List Text)
    → any_tag (trim_prefix etag (codes "W/")) parts ≡ true
    → Any (Names etag) parts
unfolding any_tag
any_tag-named etag [] h = cc
any_tag-named etag (part ∷ parts) h =
    let token = trim_prefix (trim_space part) (codes "W/") in
    elim (text_eq token (codes "*")) [
      | yes any_ ↦ here (inl any_)
      | no not_any ↦ elim (text_eq token (trim_prefix etag (codes "W/"))) [
        | yes same ↦ here (inr same)
        | no other ↦ there (
            any_tag-named etag parts (
              sym (
                if_neg (text_eq token (codes "*")) not_any _ _
                ∙ if_neg (text_eq token (trim_prefix etag (codes "W/"))) other _ _)
              ∙ h))
      ]
    ]

named-any_tag :
    (etag : Text) (parts : List Text)
    → Any (Names etag) parts
    → any_tag (trim_prefix etag (codes "W/")) parts ≡ true
unfolding any_tag
named-any_tag etag [] a = elim a [ ]
named-any_tag etag (part ∷ parts) (here n) = ground arith
named-any_tag etag (part ∷ parts) (there a) = ground (arith, named-any_tag etag parts a)

-- The condition of `serveFromCache` holds exactly then.
pub Matches-iff :
    (if_none_match etag : Text)
    → (not (is_nil if_none_match) && etag_matches if_none_match etag ≡ true)
      ↔ Matches if_none_match etag
unfolding etag_matches
Matches-iff inm etag = elim (nil_cases inm) [
  | inl (unsent, nil) ↦ rw nil (λ e. cc, λ m. absurd (m.is_sent unsent))
  | inr (sent, not_nil) ↦ elim (nil_cases etag) [
    | inl (untagged, nil) ↦ rw (not_nil, nil) (λ e. cc, λ m. absurd (m.is_tagged untagged))
    | inr (tagged, not_nil') ↦
        rw (not_nil, not_nil')
          (
            λ e. record {
              is_sent = sent;
              is_tagged = tagged;
              named = any_tag-named etag (split b',' inm) e;
            },
            λ m. named-any_tag etag (split b',' inm) m.named,
          )
  ]
]

-- Only headers are written.
abbrev pub IsHeaderOnly : Action → Type 0
IsHeaderOnly (write b) = ⊥
IsHeaderOnly (write_header code) = ⊥
IsHeaderOnly _ = Unit

pub headers_first :
    (as_ bs : List Action)
    → All IsHeaderOnly as_
    → (status_of (as_ ++ bs) ≡ status_of bs) × (body_of (as_ ++ bs) ≡ body_of bs)
headers_first [] bs h = (refl, refl)
headers_first (set_header name v ∷ as_) bs (p, h) = headers_first as_ bs h
headers_first (add_header name v ∷ as_) bs (p, h) = headers_first as_ bs h
headers_first (del_header name ∷ as_) bs (p, h) = headers_first as_ bs h
headers_first (write_header code ∷ as_) bs (p, h) = absurd p
headers_first (write b ∷ as_) bs (p, h) = absurd p

add_values-IsHeaderOnly :
    (k : Text) (vs : List Text) (rest : List Action)
    → All IsHeaderOnly rest
    → All IsHeaderOnly (add_values k vs ++ rest)
add_values-IsHeaderOnly k [] rest h = h
add_values-IsHeaderOnly k (v ∷ vs) rest h = (tt, add_values-IsHeaderOnly k vs rest h)

pub add_all-IsHeaderOnly : (h : Header) → All IsHeaderOnly (add_all h)
unfolding add_all
add_all-IsHeaderOnly [] = tt
add_all-IsHeaderOnly ((k, vs) ∷ h) =
    add_values-IsHeaderOnly k vs (add_all h) (add_all-IsHeaderOnly h)

pub add_validators-IsHeaderOnly : (h : Header) → All IsHeaderOnly (add_validators h)
unfolding add_validators
add_validators-IsHeaderOnly [] = tt
add_validators-IsHeaderOnly ((k, vs) ∷ h) =
    let rest = add_validators-IsHeaderOnly h in
    ground (arith, rest, add_values-IsHeaderOnly k vs (add_validators h))

-- A 304 has the tag that is set before its status.
pub tag_of_304 :
    (as_ : List Action) (etag : Text)
    → header_get
        (codes "ETag")
        (capture empty_capture
          (as_ ++ set_header (codes "ETag") etag ∷ write_header 304 ∷ [])).header
      ≡ etag
unfolding header_get header_set canonical all_token canonical_from capture capture_one
tag_of_304 as_ etag =
    let cw = capture empty_capture as_ in
    rw (capture-append empty_capture as_ (set_header (codes "ETag") etag ∷ write_header 304 ∷ []))
      (ap first_value (find-put_self (codes "Etag") (etag ∷ []) cw.header))
