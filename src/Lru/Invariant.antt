-- ===== src/Lru/Invariant.antt =====
-- What holds of the LRU of internal/cache/lru.go between two calls: the map and the list agree, no
-- key stands twice, and `bytes` is the sum of the sizes.
use go_api_gateway.Prelude.{
  ℕ, zero, suc, ◌+◌, ◌<◌, ◌≡◌, refl, Option, none, some, List, [], ◌∷◌, ite, ℤ, pos, ltb_ℤ, ◌+ℤ◌,
  ◌-ℤ◌, Text, text_eq, length, arith, All, All-map, ◌∙◌, ap, sym, if_pos, Option-cases, Bool-cases,
  inl, inr,
}
use go_api_gateway.Prelude.Dict.{find, find-put, find-delete}
use go_api_gateway.Lru.{
  Entry, size, Element, Lru, new_lru, move_to_front, back, remove_element, exceeds, remove_back,
  evict_entries, evict_bytes, evict, get, unlink, push, set,
}
use go_api_gateway.Lru.Elements.{
  by_key, drop_key, HasDistinctKeys, HasDistinctIds, total, key_of_by_key, drop_id-drop_key,
  holds_id_of_by_key, by_key-drop_key, by_id-drop_key_self, by_id_fresh, by_key_of_back,
  drop_key-HasDistinctKeys, drop_key_absent, drop_key-HasDistinctIds, All-drop_key, total-drop_key,
}

pub record IsValid (c : Lru) : Type 0 where
  pub agree : (k : Text) → find k c.index ≡ by_key k c.order
  pub keys : HasDistinctKeys c.order
  pub ids : HasDistinctIds c.order
  pub fresh : All (λ x. x.id < c.next_id) c.order
  pub counted : c.bytes ≡ pos (total c.order)

pub new_lru-IsValid : (max_entries max_bytes : ℤ) → IsValid (new_lru max_entries max_bytes)
unfolding new_lru find by_key
new_lru-IsValid max_entries max_bytes = record {
  agree = λ k. refl;
  keys = tt;
  ids = tt;
  fresh = tt;
  counted = refl;
}

bytes_left : (b : ℤ) (t s r : ℕ) → b ≡ pos t → r + s ≡ t → b -ℤ pos s ≡ pos r
unfolding ◌-ℤ◌
bytes_left b t s r e h = ground arith

find_self : (k : Text) (x y : Option Element) → ite (text_eq k k) x y ≡ x
find_self k x y = if_pos (text_eq k k) refl x y

-- An element of the list leaves the list, the map and the count together.
module _ (c : Lru) (v : IsValid c) (el : Element) (listed : by_key el.key c.order ≡ some el) where
  pub order-remove_element : (remove_element c el).order ≡ drop_key el.key c.order
  unfolding remove_element
  order-remove_element = drop_id-drop_key el.key c.order el v.ids listed

  find-remove_element :
      (k : Text) → find k (remove_element c el).index ≡ by_key k (drop_key el.key c.order)
  unfolding remove_element
  find-remove_element k =
      rw (find-delete el.key k c.index, by_key-drop_key el.key k c.order v.keys, v.agree k)

  bytes-remove_element : (remove_element c el).bytes ≡ pos (total (drop_key el.key c.order))
  unfolding remove_element
  bytes-remove_element =
      bytes_left c.bytes (total c.order) (size (some el.entry)) _ v.counted
        (total-drop_key el.key c.order el listed)

  fresh-remove_element : All (λ x. x.id < (remove_element c el).next_id) (drop_key el.key c.order)
  unfolding remove_element
  fresh-remove_element = All-drop_key (λ x. x.id < c.next_id) el.key c.order v.fresh

  pub remove_element-IsValid : IsValid (remove_element c el)
  remove_element-IsValid = record {
    agree = λ k. rw order-remove_element (find-remove_element k);
    keys = rw order-remove_element (drop_key-HasDistinctKeys el.key c.order v.keys);
    ids = rw order-remove_element (drop_key-HasDistinctIds el.key c.order v.ids);
    fresh = rw order-remove_element fresh-remove_element;
    counted = rw order-remove_element bytes-remove_element;
  }

  pub order-move_to_front : move_to_front el c.order ≡ el ∷ drop_key el.key c.order
  unfolding move_to_front
  order-move_to_front =
      rw (
        holds_id_of_by_key el.key c.order el listed,
        drop_id-drop_key el.key c.order el v.ids listed,
      )

  found_below :
      (n : ℕ) (xs : List Element) → All (λ x. x.id < n) xs → by_key el.key xs ≡ some el → el.id < n
  unfolding by_key
  found_below n [] h e = cc
  found_below n (x ∷ xs) (p, h) e = ground (arith, found_below n xs h)

  drop_key-key : by_key el.key (drop_key el.key c.order) ≡ none
  drop_key-key =
      rw (by_key-drop_key el.key el.key c.order v.keys, if_pos (text_eq el.key el.key) refl)

  -- Moving it to the front changes the order alone.
  find-moved : (k : Text) → find k c.index ≡ by_key k (el ∷ drop_key el.key c.order)
  unfolding by_key
  find-moved k = ground (arith, v.agree k, by_key-drop_key el.key k c.order v.keys)

  counted-moved : c.bytes ≡ pos (total (el ∷ drop_key el.key c.order))
  counted-moved = v.counted ∙ ap pos (omega (arith, total-drop_key el.key c.order el listed))

  pub moved-IsValid : IsValid (record c { order = move_to_front el c.order })
  moved-IsValid = rw order-move_to_front (record {
    agree = find-moved;
    keys = (drop_key-key, drop_key-HasDistinctKeys el.key c.order v.keys);
    ids = (
      by_id-drop_key_self el.key c.order el v.ids listed,
      drop_key-HasDistinctIds el.key c.order v.ids,
    );
    fresh = (
      found_below c.next_id c.order v.fresh listed,
      All-drop_key (λ x. x.id < c.next_id) el.key c.order v.fresh,
    );
    counted = counted-moved;
  })

module _ (c : Lru) (v : IsValid c) where
  pub listed_of_find :
      (key : Text) (el : Element)
      → find key c.index ≡ some el
      → (el.key ≡ key) × (by_key el.key c.order ≡ some el)
  listed_of_find key el found =
      let listed = sym (v.agree key) ∙ found in
      let same = key_of_by_key key c.order el listed in
      (same, ap (λ k. by_key k c.order) same ∙ listed)

  -- `Get` keeps the invariant, where it moves a hit to the front and where it removes an expired entry.
  pub get-IsValid : (key : Text) (now : ℤ) → IsValid (get c key now).0
  unfolding get
  get-IsValid key now = elim (Option-cases (find key c.index)) [
    | inl miss ↦ rw (miss, get) v
    | inr (el, found) ↦
        let listed = (listed_of_find key el found).1 in
        elim (Bool-cases (ltb_ℤ el.entry.expires_at now)) [
          | inl expired ↦ rw (found, get, expired) (remove_element-IsValid c v el listed)
          | inr live ↦ rw (found, get, live) (moved-IsValid c v el listed)
        ]
  ]

  pub unlink-IsValid : (key : Text) → IsValid (unlink c key)
  unfolding unlink
  unlink-IsValid key = elim (Option-cases (find key c.index)) [
    | inl miss ↦ rw (miss, unlink) v
    | inr (el, found) ↦
        rw (found, unlink) (remove_element-IsValid c v el (listed_of_find key el found).1)
  ]

  pub remove_back-IsValid : IsValid (remove_back c)
  unfolding remove_back
  remove_back-IsValid = elim (Option-cases (back c.order)) [
    | inl empty ↦ rw (empty, remove_back) v
    | inr (el, last) ↦
        rw (last, remove_back)
          (remove_element-IsValid c v el (by_key_of_back c.order el v.keys last))
  ]

  pub push-IsValid :
      (key : Text) (entry : Entry) → by_key key c.order ≡ none → IsValid (push c key entry)
  unfolding push
  push-IsValid key entry absent = record {
    agree = λ k. unfold by_key in rw (find-put, v.agree k);
    keys = (absent, v.keys);
    ids = (by_id_fresh c.next_id c.order v.fresh, v.ids);
    fresh = (omega arith, All-map (λ x p. omega arith) c.order v.fresh);
    counted = rw v.counted (unfold ◌+ℤ◌ in ground arith);
  }

  pub order-unlink : (key : Text) → (unlink c key).order ≡ drop_key key c.order
  unfolding unlink
  order-unlink key = elim (Option-cases (find key c.index)) [
    | inl miss ↦ rw (miss, unlink) (sym (drop_key_absent key c.order (sym (v.agree key) ∙ miss)))
    | inr (el, found) ↦
        let (same, listed) = listed_of_find key el found in
        rw (found, unlink) (order-remove_element c v el listed ∙ ap (λ k. drop_key k c.order) same)
  ]

  pub unlinked : (key : Text) → by_key key (unlink c key).order ≡ none
  unlinked key =
      rw (order-unlink key, by_key-drop_key key key c.order v.keys, if_pos (text_eq key key) refl)

pub evict_entries-IsValid : (fuel : ℕ) (c : Lru) → IsValid c → IsValid (evict_entries fuel c)
unfolding evict_entries
evict_entries-IsValid zero c v = v
evict_entries-IsValid (suc fuel) c v =
    elim (Bool-cases (exceeds c.max_entries (pos (length c.order)))) [
      | inl over ↦ rw over (evict_entries-IsValid fuel (remove_back c) (remove_back-IsValid c v))
      | inr fits ↦ rw fits v
    ]

evict_bytes-IsValid : (fuel : ℕ) (c : Lru) → IsValid c → IsValid (evict_bytes fuel c)
unfolding evict_bytes
evict_bytes-IsValid zero c v = v
evict_bytes-IsValid (suc fuel) c v = elim (Bool-cases (exceeds c.max_bytes c.bytes)) [
  | inl over ↦ rw over (evict_bytes-IsValid fuel (remove_back c) (remove_back-IsValid c v))
  | inr fits ↦ rw fits v
]

pub evict-IsValid : (c : Lru) → IsValid c → IsValid (evict c)
unfolding evict
evict-IsValid c v =
    let c' : Lru = evict_entries (length c.order) c in
    evict_bytes-IsValid (length c'.order) c' (evict_entries-IsValid (length c.order) c v)

-- `Set` keeps the invariant, whatever it replaces and evicts.
pub set-IsValid : (c : Lru) (key : Text) (entry : Entry) → IsValid c → IsValid (set c key entry)
unfolding set
set-IsValid c key entry v =
    evict-IsValid _
      (push-IsValid (unlink c key) (unlink-IsValid c v key) key entry (unlinked c v key))
