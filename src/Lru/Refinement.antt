-- ===== src/Lru/Refinement.antt =====
-- The LRU of internal/cache/lru.go against a list of entries, most recently used first.
use go_api_gateway.Prelude.{
  ℕ, zero, suc, ◌≤◌, ◌≡◌, refl, ap₂, ◌∙◌, true, false, none, some, List, [], ◌∷◌, ℤ, pos, pos_part,
  length, arith, Option-cases, Bool-cases, inl, inr,
}
use go_api_gateway.Lru.{
  size, Element, Lru, back, exceeds, remove_back, evict_entries, evict_bytes, evict,
}
use go_api_gateway.Lru.Elements.{total, by_key_of_back}
use go_api_gateway.Lru.Prefix.{
  init, fit_entries, take-init, length-init-le, take_of_length-le, weigh, fit_bytes, keep-init,
  keep_of_weigh-le, drop_back,
}
use go_api_gateway.Lru.Invariant.{
  IsValid, remove_back-IsValid, evict_entries-IsValid, order-remove_element,
}

-- The bounds stay as they are.
pub record SameBounds (c d : Lru) : Type 0 where
  pub entries : d.max_entries ≡ c.max_entries
  pub bytes : d.max_bytes ≡ c.max_bytes

pub remove_back-SameBounds : (c : Lru) → SameBounds c (remove_back c)
unfolding remove_back
remove_back-SameBounds c = ground arith

abbrev pub weight : Element → ℕ
weight x = size (some x.entry)

pub weigh-total : (xs : List Element) → weigh weight xs ≡ total xs
weigh-total [] = refl
weigh-total (x ∷ xs) = omega (arith, weigh-total xs)

init_empty : (xs : List Element) → back xs ≡ none → xs ≡ init xs
unfolding back init
init_empty [] e = refl
init_empty (x ∷ []) e = cc
init_empty (x ∷ y ∷ xs) e = absurd (back_some y xs e)
  where
    back_some : (y : Element) (xs : List Element) → back (y ∷ xs) ≡ none → ⊥
    back_some y [] e = cc
    back_some y (z ∷ xs) e = back_some z xs e

module _ (c : Lru) (v : IsValid c) where
  pub order-remove_back : (remove_back c).order ≡ init c.order
  unfolding remove_back
  order-remove_back = elim (Option-cases (back c.order)) [
    | inl empty ↦ rw (empty, remove_back) (init_empty c.order empty)
    | inr (el, last) ↦
        rw (last, remove_back)
          (order-remove_element c v el (by_key_of_back c.order el v.keys last)
            ∙ drop_back c.order el v.keys last)
  ]

over_entries :
    (m : ℤ) (xs : List Element)
    → exceeds m (pos (length xs)) ≡ true
    → fit_entries m (init xs) ≡ fit_entries m xs
unfolding fit_entries
over_entries m xs over = ground (arith, take-init (pos_part m) xs)

within_entries :
    (m : ℤ) (xs : List Element) → exceeds m (pos (length xs)) ≡ false → xs ≡ fit_entries m xs
unfolding fit_entries
within_entries m xs fits = ground (arith, take_of_length-le (pos_part m) xs)

within_entries_nil : (m : ℤ) (xs : List Element) → length xs ≤ 0 → xs ≡ fit_entries m xs
within_entries_nil m xs h = within_entries m xs (ground arith)

evict_entries_lem :
    (fuel : ℕ) (c : Lru)
    → IsValid c
    → length c.order ≤ fuel
    → (evict_entries fuel c).order ≡ fit_entries c.max_entries c.order
unfolding evict_entries
evict_entries_lem zero c v enough = within_entries_nil c.max_entries c.order enough
evict_entries_lem (suc fuel) c v enough =
    let m : ℤ = c.max_entries in
    elim (Bool-cases (exceeds m (pos (length c.order)))) [
      | inl over ↦
          let shorter : length (remove_back c).order ≤ fuel =
            rw (order-remove_back c v) (length-init-le fuel c.order enough) in
          rw over (
            evict_entries_lem fuel (remove_back c) (remove_back-IsValid c v) shorter
            ∙ ap₂ fit_entries (remove_back-SameBounds c).entries (order-remove_back c v)
            ∙ over_entries m c.order over)
      | inr fits ↦ rw fits (within_entries m c.order fits)
    ]

over_bytes :
    (m : ℤ) (xs : List Element)
    → exceeds m (pos (total xs)) ≡ true
    → fit_bytes weight m (init xs) ≡ fit_bytes weight m xs
unfolding fit_bytes
over_bytes m xs over = ground (arith, keep-init weight (pos_part m) xs, weigh-total xs)

within_bytes :
    (m : ℤ) (xs : List Element) → exceeds m (pos (total xs)) ≡ false → xs ≡ fit_bytes weight m xs
unfolding fit_bytes
within_bytes m xs fits = ground (arith, keep_of_weigh-le weight (pos_part m) xs, weigh-total xs)

pub total_nil : (xs : List Element) → length xs ≤ 0 → total xs ≡ 0
total_nil [] h = refl
total_nil (x ∷ xs) h = absurd (omega arith)

evict_bytes_lem :
    (fuel : ℕ) (c : Lru)
    → IsValid c
    → length c.order ≤ fuel
    → (evict_bytes fuel c).order ≡ fit_bytes weight c.max_bytes c.order
unfolding evict_bytes
evict_bytes_lem zero c v enough =
    within_bytes c.max_bytes c.order (ground (arith, total_nil c.order enough))
evict_bytes_lem (suc fuel) c v enough =
    let m : ℤ = c.max_bytes in
    elim (Bool-cases (exceeds m c.bytes)) [
      | inl over ↦
          let shorter : length (remove_back c).order ≤ fuel =
            rw (order-remove_back c v) (length-init-le fuel c.order enough) in
          rw over (
            evict_bytes_lem fuel (remove_back c) (remove_back-IsValid c v) shorter
            ∙ ap₂ (fit_bytes weight) (remove_back-SameBounds c).bytes (order-remove_back c v)
            ∙ over_bytes m c.order (rw v.counted at over))
      | inr fits ↦ rw fits (within_bytes m c.order (rw v.counted at fits))
    ]

evict_entries-SameBounds : (fuel : ℕ) (c : Lru) → (evict_entries fuel c).max_bytes ≡ c.max_bytes
unfolding evict_entries
evict_entries-SameBounds zero c = refl
evict_entries-SameBounds (suc fuel) c =
    ground (arith, evict_entries-SameBounds fuel (remove_back c), remove_back-SameBounds c)

pub order-evict :
    (c : Lru)
    → IsValid c
    → (evict c).order ≡ fit_bytes weight c.max_bytes (fit_entries c.max_entries c.order)
unfolding evict
order-evict c v =
    let c' : Lru = evict_entries (length c.order) c in
    evict_bytes_lem (length c'.order) c' (evict_entries-IsValid (length c.order) c v) (omega arith)
    ∙ ap₂ (fit_bytes weight) (evict_entries-SameBounds (length c.order) c)
        (evict_entries_lem (length c.order) c v (omega arith))
