-- ===== src/Lru/Reads.antt =====
-- What `Get` of internal/cache/lru.go returns, and the bounds that `Set` keeps.
use mathlib.Core.Option
use native.Mathlib.Nat.{le_trans}
use go_api_gateway.Prelude.{
  ℕ, zero, suc, ◌-◌, ◌≤◌, ◌≡◌, refl, sym, ap, ap₂, ◌∙◌, true, false, Option, none, some, List, [],
  ◌∷◌, map, ℤ, pos, negsuc, ltb_ℤ, Text, text_eq, length, arith, if_pos, Option-cases, Bool-cases,
  inl, inr, if◌then◌else◌, pos_part, take,
}
use go_api_gateway.Prelude.Dict.{Dict, find, delete}
use go_api_gateway.Lru.{Entry, size, Element, Lru, get, set, len, byte_count}
use go_api_gateway.Lru.Elements.{drop_key, total}
use go_api_gateway.Lru.Prefix.{
  fit_entries, fit_bytes, weigh, keep, length-take-le, weigh-keep-le, length-keep-le,
}
use go_api_gateway.Lru.Invariant.{
  IsValid, set-IsValid, order-remove_element, order-move_to_front, listed_of_find,
}
use go_api_gateway.Lru.Methods.{view, pair_of, pair_size, find-view, delete-view, view-set}

-- A lookup in the list of entries: an entry past its expiry is a miss and goes, a live one comes
-- to the front.
abbrev pub touch : Text → ℤ → Dict Entry → Option Entry → Dict Entry × Option Entry
touch key now m none = (m, none)
touch key now m (some e) =
    if ltb_ℤ e.expires_at now then (delete key m, none) else ((key, e) ∷ delete key m, some e)

module _ (c : Lru) (v : IsValid c) where
  -- On a valid cache `Get` returns the live entry of the key and makes it the most recently used; an
  -- expired entry is a miss and is removed; no other entry is touched.
  pub get_lem :
      (key : Text) (now : ℤ)
      → (view (get c key now).0, (get c key now).1) ≡ touch key now (view c) (find key (view c))
  unfolding get view
  get_lem key now = elim (Option-cases (find key c.index)) [
    | inl miss ↦
        let absent : find key (map pair_of c.order) ≡ none =
          find-view key c.order ∙ ap (Option.map (λ x. x.entry)) (sym (v.agree key) ∙ miss) in
        rw (miss, get, absent)
    | inr (el, found) ↦
        let (same, listed) = listed_of_find c v key el found in
        let present : find key (map pair_of c.order) ≡ some el.entry =
          find-view key c.order ∙ ap (Option.map (λ x. x.entry)) (sym (v.agree key) ∙ found) in
        let rest : map pair_of (drop_key el.key c.order) ≡ delete key (map pair_of c.order) =
          delete-view el.key c.order v.keys ∙ ap (λ k. delete k (map pair_of c.order)) same in
        elim (Bool-cases (ltb_ℤ el.entry.expires_at now)) [
          | inl expired ↦
              rw (found, get, present, expired)
                (ap (λ o. (o, none)) (ap (map pair_of) (order-remove_element c v el listed) ∙ rest))
          | inr live ↦
              rw (found, get, present, live)
                (ap (λ o. (o, some el.entry))
                  (ap (map pair_of) (order-move_to_front c v el listed)
                    ∙ ap₂ (λ k o. (k, el.entry) ∷ o) same rest))
        ]
  ]

fit_entries_bounded :
    (m : ℤ) (xs : Dict Entry) → ltb_ℤ (pos 0) m ≡ true → length (fit_entries m xs) ≤ pos_part m
unfolding fit_entries
fit_entries_bounded m xs h = rw h (length-take-le (pos_part m) xs)

fit_bytes_bounded :
    (m : ℤ) (xs : Dict Entry)
    → ltb_ℤ (pos 0) m ≡ true
    → weigh pair_size (fit_bytes pair_size m xs) ≤ pos_part m
unfolding fit_bytes
fit_bytes_bounded m xs h = rw h (weigh-keep-le pair_size (pos_part m) xs)

fit_bytes_shorter : (m : ℤ) (xs : Dict Entry) → length (fit_bytes pair_size m xs) ≤ length xs
unfolding fit_bytes
fit_bytes_shorter m xs = ground (arith, length-keep-le pair_size (pos_part m) xs)

length-map-pair : (xs : List Element) → length (map pair_of xs) ≡ length xs
length-map-pair [] = refl
length-map-pair (x ∷ xs) = ap suc (length-map-pair xs)

weigh-map-pair : (xs : List Element) → weigh pair_size (map pair_of xs) ≡ total xs
weigh-map-pair [] = refl
weigh-map-pair (x ∷ xs) = omega (arith, weigh-map-pair xs)

-- After `Set` a valid cache is within each bound that is positive, by its own count of the bytes; a
-- bound that is zero or negative bounds nothing.
pub set_bounded :
    (c : Lru) (key : Text) (entry : Entry)
    → IsValid c
    → (ltb_ℤ (pos 0) c.max_entries ≡ true → len (set c key entry) ≤ pos_part c.max_entries)
      × (ltb_ℤ (pos 0) c.max_bytes ≡ true
          → (n : ℕ) × (byte_count (set c key entry) ≡ pos n) × (n ≤ pos_part c.max_bytes))
unfolding len byte_count view
set_bounded c key entry v =
    let c' : Lru = set c key entry in
    let seen : map pair_of c'.order ≡ _ = view-set c v key entry in
    let all : Dict Entry = (key, entry) ∷ delete key (map pair_of c.order) in
    let fitted : Dict Entry = fit_entries c.max_entries all in
    (
      λ h.
          le_trans
            (let e : length c'.order ≤ length fitted =
                rw (← length-map-pair c'.order, seen) (fit_bytes_shorter c.max_bytes fitted) in
              e)
            (fit_entries_bounded c.max_entries all h),
      λ h. (
        total c'.order,
        (set-IsValid c key entry v).counted,
        rw (← weigh-map-pair c'.order, seen) (fit_bytes_bounded c.max_bytes fitted h),
      ),
    )

module _ (x : Text × Entry) where
  fit_entries-front :
      (m : ℤ) (xs : Dict Entry) → (r : Dict Entry) × (fit_entries m (x ∷ xs) ≡ x ∷ r)
  unfolding fit_entries
  fit_entries-front (pos zero) xs = (xs, ground arith)
  fit_entries-front (pos (suc n)) xs = (take n xs, ground arith)
  fit_entries-front (negsuc n) xs = (xs, ground arith)

  fit_bytes-front :
      (m : ℤ) (xs : Dict Entry)
      → (ltb_ℤ (pos 0) m ≡ true → pair_size x ≤ pos_part m)
      → (r : Dict Entry) × (fit_bytes pair_size m (x ∷ xs) ≡ x ∷ r)
  unfolding fit_bytes
  fit_bytes-front m xs fits = elim (Bool-cases (ltb_ℤ (pos 0) m)) [
    | inl on ↦ (keep pair_size (pos_part m - pair_size x) xs, ground (arith, fits on))
    | inr off ↦ (xs, rw off)
  ]

-- An entry that is no larger than a positive byte bound is found by `Get` right after `Set` has put
-- it into a valid cache, until it expires.
pub get-set :
    (c : Lru) (key : Text) (entry : Entry) (now : ℤ)
    → IsValid c
    → (ltb_ℤ (pos 0) c.max_bytes ≡ true → size (some entry) ≤ pos_part c.max_bytes)
    → ltb_ℤ entry.expires_at now ≡ false
    → (get (set c key entry) key now).1 ≡ some entry
unfolding view
get-set c key entry now v fits live =
    let rest : Dict Entry = delete key (map pair_of c.order) in
    let (r, front) = fit_entries-front (key, entry) c.max_entries rest in
    let (r', whole) = fit_bytes-front (key, entry) c.max_bytes r fits in
    let seen : map pair_of (set c key entry).order ≡ (key, entry) ∷ r' =
      view-set c v key entry ∙ ap (fit_bytes pair_size c.max_bytes) front ∙ whole in
    let found : find key (map pair_of (set c key entry).order) ≡ some entry =
      ap (find key) seen
      ∙ unfold find in if_pos (text_eq key key) refl (some entry) (find key r') in
    ap (λ r. r.1) (get_lem (set c key entry) (set-IsValid c key entry v) key now)
    ∙ ap (λ o. (touch key now (map pair_of (set c key entry).order) o).1) found
    ∙ rw live
