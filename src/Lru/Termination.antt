-- ===== src/Lru/Termination.antt =====
-- The two loops of `evict` in internal/cache/lru.go end: fuel for one round per element is enough.
use go_api_gateway.Prelude.{
  ℕ, zero, suc, ◌≤◌, ◌≡◌, refl, subst, false, List, ℤ, pos, length, arith, Bool-cases, ap, ◌∙◌, inl,
  inr,
}
use go_api_gateway.Lru.{Element, Lru, exceeds, remove_back, evict_entries, evict_bytes, evict}
use go_api_gateway.Lru.Invariant.{IsValid, remove_back-IsValid, evict_entries-IsValid}
use go_api_gateway.Lru.Prefix.{length-init-le}
use go_api_gateway.Lru.Refinement.{remove_back-SameBounds, order-remove_back, total_nil}

spent :
    (c : Lru) (fuel : ℕ)
    → IsValid c
    → length c.order ≤ suc fuel
    → length (remove_back c).order ≤ fuel
spent c fuel v enough = rw (order-remove_back c v) (length-init-le fuel c.order enough)

empty_fits : (m : ℤ) (xs : List Element) → length xs ≤ 0 → exceeds m (pos (length xs)) ≡ false
empty_fits m xs h = ground arith

entries_fuel :
    (a b : ℕ) (c : Lru)
    → IsValid c
    → length c.order ≤ a
    → length c.order ≤ b
    → evict_entries a c ≡ evict_entries b c
unfolding evict_entries
entries_fuel zero zero c v h k = refl
entries_fuel zero (suc b) c v h k = rw (empty_fits c.max_entries c.order h) refl
entries_fuel (suc a) zero c v h k = rw (empty_fits c.max_entries c.order k) refl
entries_fuel (suc a) (suc b) c v h k =
    elim (Bool-cases (exceeds c.max_entries (pos (length c.order)))) [
      | inl over ↦ rw over (
          entries_fuel a b (remove_back c) (remove_back-IsValid c v) (spent c a v h)
            (spent c b v k))
      | inr fits ↦ rw fits refl
    ]

empty_bytes_fit : (c : Lru) → IsValid c → length c.order ≤ 0 → exceeds c.max_bytes c.bytes ≡ false
empty_bytes_fit c v h = rw v.counted (ground (arith, total_nil c.order h))

bytes_fuel :
    (a b : ℕ) (c : Lru)
    → IsValid c
    → length c.order ≤ a
    → length c.order ≤ b
    → evict_bytes a c ≡ evict_bytes b c
unfolding evict_bytes
bytes_fuel zero zero c v h k = refl
bytes_fuel zero (suc b) c v h k = rw (empty_bytes_fit c v h) refl
bytes_fuel (suc a) zero c v h k = rw (empty_bytes_fit c v k) refl
bytes_fuel (suc a) (suc b) c v h k = elim (Bool-cases (exceeds c.max_bytes c.bytes)) [
  | inl over ↦
      rw over
        (bytes_fuel a b (remove_back c) (remove_back-IsValid c v) (spent c a v h) (spent c b v k))
  | inr fits ↦ rw fits refl
]

entries_fit :
    (fuel : ℕ) (c : Lru)
    → IsValid c
    → length c.order ≤ fuel
    → exceeds c.max_entries (pos (length (evict_entries fuel c).order)) ≡ false
unfolding evict_entries
entries_fit zero c v h = empty_fits c.max_entries c.order h
entries_fit (suc fuel) c v h = elim (Bool-cases (exceeds c.max_entries (pos (length c.order)))) [
  | inl over ↦ rw over (
      subst (λ m. exceeds m (pos (length (evict_entries fuel (remove_back c)).order)) ≡ false)
        (remove_back-SameBounds c).entries
        (entries_fit fuel (remove_back c) (remove_back-IsValid c v) (spent c fuel v h)))
  | inr fits ↦ rw fits fits
]

bytes_fit :
    (fuel : ℕ) (c : Lru)
    → IsValid c
    → length c.order ≤ fuel
    → exceeds c.max_bytes (evict_bytes fuel c).bytes ≡ false
unfolding evict_bytes
bytes_fit zero c v h = empty_bytes_fit c v h
bytes_fit (suc fuel) c v h = elim (Bool-cases (exceeds c.max_bytes c.bytes)) [
  | inl over ↦ rw over (
      subst (λ m. exceeds m (evict_bytes fuel (remove_back c)).bytes ≡ false)
        (remove_back-SameBounds c).bytes
        (bytes_fit fuel (remove_back c) (remove_back-IsValid c v) (spent c fuel v h)))
  | inr fits ↦ rw fits fits
]

-- On a valid cache each loop of `evict` ends because its condition has become false: with fuel for
-- a round for each element, or with any more, the state is that of `evict`, and neither bound is
-- exceeded behind the loop that keeps it.
pub evict_terminates :
    (c : Lru) (a b : ℕ)
    → IsValid c
    → length c.order ≤ a
    → length (evict_entries a c).order ≤ b
    → (evict_bytes b (evict_entries a c) ≡ evict c)
      × (exceeds c.max_entries (pos (length (evict_entries a c).order)) ≡ false)
      × (exceeds (evict_entries a c).max_bytes (evict c).bytes ≡ false)
unfolding evict
evict_terminates c a b v h k =
    let c' = evict_entries (length c.order) c in
    let v' : IsValid c' = evict_entries-IsValid (length c.order) c v in
    let same : evict_entries a c ≡ c' = entries_fuel a (length c.order) c v h (omega arith) in
    let k' : length c'.order ≤ b = subst (λ d. length d.order ≤ b) same k in
    (
      ap (evict_bytes b) same ∙ bytes_fuel b (length c'.order) c' v' k' (omega arith),
      entries_fit a c v h,
      rw same (bytes_fit (length c'.order) c' v' (omega arith)),
    )
