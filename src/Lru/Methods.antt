-- ===== src/Lru/Methods.antt =====
-- `Get` and `Set` of internal/cache/lru.go against a list of entries, most recently used first.
use mathlib.Core.Option
use go_api_gateway.Prelude.{
  ℕ, ◌≡◌, refl, sym, ap, ap₂, ◌∙◌, some, List, [], ◌∷◌, map, Text, text_eq, arith, if_pos, if_neg,
}
use go_api_gateway.Prelude.Dict.{Dict, find, delete}
use go_api_gateway.Lru.{Entry, size, Element, Lru, unlink, push, set}
use go_api_gateway.Lru.Elements.{by_key, drop_key, HasDistinctKeys, drop_key_absent}
use go_api_gateway.Lru.Prefix.{fit_entries, fit_bytes, map-fit_entries, map-fit_bytes}
use go_api_gateway.Lru.Invariant.{IsValid, push-IsValid, unlink-IsValid, unlinked, order-unlink}
use go_api_gateway.Lru.Refinement.{order-evict}

-- What a client can see: the keys with their entries, most recently used first.
abbrev pub pair_of : Element → Text × Entry
pair_of x = (x.key, x.entry)

unfoldable pub view : Lru → Dict Entry
view c = map pair_of c.order

abbrev pub pair_size : Text × Entry → ℕ
pair_size p = size (some p.1)

pub find-view :
    (k : Text) (xs : List Element)
    → find k (map pair_of xs) ≡ Option.map (λ x. x.entry) (by_key k xs)
unfolding find by_key
find-view k [] = refl
find-view k (x ∷ xs) = ground (arith, find-view k xs)

pub delete-view :
    (k : Text) (xs : List Element)
    → HasDistinctKeys xs
    → map pair_of (drop_key k xs) ≡ delete k (map pair_of xs)
unfolding delete drop_key
delete-view k [] d = refl
delete-view k (x ∷ xs) (fresh, d) = elim (text_eq x.key k) [
  | yes p ↦
      rw (if_pos _ p, if_pos _ p)
        (ap (map pair_of) (sym (drop_key_absent k xs (sym (ap (λ j. by_key j xs) p) ∙ fresh)))
          ∙ delete-view k xs d)
  | no p ↦ rw (if_neg _ p, if_neg _ p) (ap (◌∷◌ (pair_of x)) (delete-view k xs d))
]

module _ (c : Lru) (v : IsValid c) where
  bounds-push :
      (key : Text) (entry : Entry)
      → ((push (unlink c key) key entry).max_entries ≡ c.max_entries)
        × ((push (unlink c key) key entry).max_bytes ≡ c.max_bytes)
  unfolding push unlink
  bounds-push key entry = ground arith

  order-push :
      (key : Text) (entry : Entry)
      → map pair_of (push (unlink c key) key entry).order
        ≡ (key, entry) ∷ delete key (map pair_of c.order)
  unfolding push
  order-push key entry =
      ap (◌∷◌ (key, entry))
        (ap (map pair_of) (order-unlink c v key) ∙ delete-view key c.order v.keys)

  -- In a valid cache `Set` puts the entry in front of the others, with no other of its key, and keeps
  -- the longest prefix that fits both bounds, the entries first: whatever goes is least recently used.
  pub view-set :
      (key : Text) (entry : Entry)
      → view (set c key entry)
        ≡ fit_bytes pair_size c.max_bytes
            (fit_entries c.max_entries ((key, entry) ∷ delete key (view c)))
  unfolding set view
  view-set key entry =
      let p : Lru = push (unlink c key) key entry in
      let valid : IsValid p =
        push-IsValid (unlink c key) (unlink-IsValid c v key) key entry (unlinked c v key) in
      ap (map pair_of) (order-evict p valid)
      ∙ map-fit_bytes pair_of pair_size p.max_bytes (fit_entries p.max_entries p.order)
      ∙ ap₂ (fit_bytes pair_size) (bounds-push key entry).1 (
          map-fit_entries pair_of p.max_entries p.order
          ∙ ap₂ fit_entries (bounds-push key entry).0 (order-push key entry))
