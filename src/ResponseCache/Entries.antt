-- ===== src/ResponseCache/Entries.antt =====
-- What an entry of internal/middleware/cache.go keeps of a captured response, described on its own.
use go_api_gateway.Prelude.{
  ◌≡◌, ◌≢◌, refl, true, false, none, some, [], ◌∷◌, ◌++◌, ℤ, pos, ltb_ℤ, ◌+ℤ◌, ◌*ℤ◌, wrap64, Text,
  codes, Bool-cases, Option-cases, ◌⊎◌, inl, inr,
}
use go_api_gateway.Prelude.Dict.{Dict, find}
use go_api_gateway.Strings.{atoi, is_nil}
use go_api_gateway.Http.{Header, header_get, header_set}
use go_api_gateway.Lru.{Entry}
use go_api_gateway.ResponseCache.Directives.{parse_cache_control}
use go_api_gateway.ResponseCache.{CacheConfig, Captured, ttl_for, compute_etag, make_entry}

-- How long a response is kept: by a positive `max-age` that is a number of seconds, else by the
-- configuration.
pub data IsTtl (ttl : ℤ) (cc : Dict Text) : ℤ → Type 0 where
  no_max_age : find (codes "max-age") cc ≡ none → IsTtl ttl cc ttl
  bad_max_age :
      {max_age : Text}
      → find (codes "max-age") cc ≡ some max_age
      → atoi max_age ≡ none
      → IsTtl ttl cc ttl
  not_positive :
      {max_age : Text} {secs : ℤ}
      → find (codes "max-age") cc ≡ some max_age
      → atoi max_age ≡ some secs
      → ltb_ℤ (pos 0) secs ≡ false
      → IsTtl ttl cc ttl
  by_max_age :
      {max_age : Text} {secs : ℤ}
      → find (codes "max-age") cc ≡ some max_age
      → atoi max_age ≡ some secs
      → ltb_ℤ (pos 0) secs ≡ true
      → IsTtl ttl cc (wrap64 (secs *ℤ pos 1000000000))

-- The tag of a response and the header that carries it: its own, or one made of its body.
pub data HasTag (digest : Text → Text) (cw : Captured) : Text → Header → Type 0 where
  own_tag :
      header_get (codes "ETag") cw.header ≢ []
      → HasTag digest cw (header_get (codes "ETag") cw.header) cw.header
  new_tag :
      header_get (codes "ETag") cw.header ≡ []
      → HasTag digest cw
          (codes "\"" ++ (digest cw.body ++ codes "\""))
          (header_set (codes "ETag") (codes "\"" ++ (digest cw.body ++ codes "\"")) cw.header)

-- The entry is that of the captured response, stored at `at_store`.
pub record IsEntryOf (digest : Text → Text) (cfg : CacheConfig) (cw : Captured) (at_store : ℤ)
    (entry : Entry) : Type 0 where
  pub same_status : entry.status ≡ cw.status
  pub same_body : entry.body ≡ cw.body
  pub tagged : HasTag digest cw entry.etag entry.header
  pub lives :
      (ttl : ℤ) × IsTtl cfg.ttl
        (parse_cache_control (header_get (codes "Cache-Control") cw.header))
        ttl
      × (entry.expires_at ≡ at_store +ℤ ttl)

ttl_for-IsTtl : (ttl : ℤ) (cc : Dict Text) → IsTtl ttl cc (ttl_for ttl cc)
unfolding ttl_for
ttl_for-IsTtl ttl cc = elim (Option-cases (find (codes "max-age") cc)) [
  | inl missing ↦ rw missing (no_max_age missing)
  | inr (max_age, found) ↦ elim (Option-cases (atoi max_age)) [
    | inl bad ↦ rw (found, bad) (bad_max_age found bad)
    | inr (secs, good) ↦ elim (Bool-cases (ltb_ℤ (pos 0) secs)) [
      | inl is_positive ↦ rw (found, good, is_positive) (by_max_age found good is_positive)
      | inr not_ ↦ rw (found, good, not_) (not_positive found good not_)
    ]
  ]
]

-- There is one such time.
pub IsTtl-ttl_for : (ttl : ℤ) (cc : Dict Text) (t : ℤ) → IsTtl ttl cc t → t ≡ ttl_for ttl cc
unfolding ttl_for
IsTtl-ttl_for ttl cc t (no_max_age missing) = rw missing refl
IsTtl-ttl_for ttl cc t (bad_max_age found bad) = rw (found, bad) refl
IsTtl-ttl_for ttl cc t (not_positive found good not_) = rw (found, good, not_) refl
IsTtl-ttl_for ttl cc t (by_max_age found good is_positive) = rw (found, good, is_positive) refl

pub nil_cases : (s : Text) → ((s ≡ []) × (is_nil s ≡ true)) ⊎ ((s ≢ []) × (is_nil s ≡ false))
nil_cases [] = inl (refl, refl)
nil_cases (c ∷ s) = inr (λ e. absurd (let q : c ∷ s ≡ [] = e in cc), refl)

make_entry-HasTag :
    (digest : Text → Text) (cw : Captured) (ttl at_store : ℤ)
    → let entry = make_entry digest cw ttl at_store in HasTag digest cw entry.etag entry.header
unfolding make_entry compute_etag
make_entry-HasTag digest cw ttl at_store = elim (nil_cases (header_get (codes "ETag") cw.header)) [
  | inl (no_tag, nil) ↦ rw nil (new_tag no_tag)
  | inr (own, not_nil) ↦ rw not_nil (own_tag own)
]

-- The entry that `store` makes of a captured response.
abbrev pub stored_entry : (Text → Text) → CacheConfig → Captured → ℤ → Entry
stored_entry digest cfg cw at_store =
    make_entry digest cw
      (ttl_for cfg.ttl (parse_cache_control (header_get (codes "Cache-Control") cw.header)))
      at_store

pub stored_entry-IsEntryOf :
    (digest : Text → Text) (cfg : CacheConfig) (cw : Captured) (at_store : ℤ)
    → IsEntryOf digest cfg cw at_store (stored_entry digest cfg cw at_store)
unfolding make_entry
stored_entry-IsEntryOf digest cfg cw at_store =
    let cc = parse_cache_control (header_get (codes "Cache-Control") cw.header) in
    record {
      same_status = refl;
      same_body = refl;
      tagged = make_entry-HasTag digest cw (ttl_for cfg.ttl cc) at_store;
      lives = (ttl_for cfg.ttl cc, ttl_for-IsTtl cfg.ttl cc, refl);
    }
