-- ===== src/Lru.antt =====
-- internal/cache/lru.go: the response cache's LRU. `order` is the `container/list`, front first; an
-- element is told from others by its `id` (its address), and its item is never written again.
-- `bytes` adds up the lengths of bodies held in memory at once, which an `int` counts exactly.
pub mod Termination
pub mod Elements
pub mod Invariant
pub mod Prefix
pub mod Refinement
pub mod Methods
pub mod Reads
use go_api_gateway.Prelude.{
  ℕ, zero, suc, ◌+◌, Bool, true, false, ◌&&◌, Option, none, some, List, [], ◌∷◌, if◌then◌else◌, ite,
  ℤ, pos, ltb_ℤ, ◌+ℤ◌, ◌-ℤ◌, Text, length, ℕ_discrete,
}
use go_api_gateway.Prelude.Dict.{Dict, find, put, delete}

pub record Entry : Type 0 where
  pub status : ℕ
  pub header : Dict (List Text)
  pub body : Text
  pub etag : Text
  pub expires_at : ℤ

-- `Size`, whose receiver may be nil.
abbrev pub size : Option Entry → ℕ
size none = 0
size (some e) = length e.body

pub record Element : Type 0 where
  pub id : ℕ
  pub key : Text
  pub entry : Entry

pub record Lru : Type 0 where
  pub max_entries : ℤ  -- int
  pub max_bytes : ℤ  -- int
  pub bytes : ℤ  -- int
  pub order : List Element
  pub index : Dict Element
  pub next_id : ℕ  -- the address of the next element that is allocated

unfoldable pub new_lru : ℤ → ℤ → Lru
new_lru max_entries max_bytes = record {
  max_entries = max_entries;
  max_bytes = max_bytes;
  bytes = pos 0;
  order = [];
  index = [];
  next_id = 0;
}

-- `order.Remove(el)`: nothing happens if the element is not of this list.
unfoldable pub drop_id : ℕ → List Element → List Element
unfolding ℕ_discrete
drop_id i [] = []
drop_id i (x ∷ xs) = ite (ℕ_discrete x.id i) xs (x ∷ drop_id i xs)

unfoldable pub holds_id : ℕ → List Element → Bool
unfolding ℕ_discrete
holds_id i [] = false
holds_id i (x ∷ xs) = ite (ℕ_discrete x.id i) true (holds_id i xs)

-- `order.MoveToFront(el)`.
unfoldable pub move_to_front : Element → List Element → List Element
unfolding drop_id holds_id
move_to_front el xs = if holds_id el.id xs then el ∷ drop_id el.id xs else xs

-- `order.Back()`.
unfoldable pub back : List Element → Option Element
back [] = none
back (x ∷ []) = some x
back (x ∷ y ∷ xs) = back (y ∷ xs)

unfoldable pub remove_element : Lru → Element → Lru
unfolding drop_id delete ◌-ℤ◌
remove_element c el = record c {
  order = drop_id el.id c.order;
  index = delete el.key c.index;
  bytes = c.bytes -ℤ pos (size (some el.entry));
}

-- `bound > 0 && n > bound`.
abbrev pub exceeds : ℤ → ℤ → Bool
exceeds bound n = ltb_ℤ (pos 0) bound && ltb_ℤ bound n

-- The first loop of `evict` reaches `Back()` only on a list that is not empty.
unfoldable pub remove_back : Lru → Lru
unfolding back remove_element
remove_back c = elim (back c.order) [ none ↦ c | some el ↦ remove_element c el ]

-- The loops of `evict`, on fuel. Each round removes an element, so the list's length is enough.
unfoldable pub evict_entries : ℕ → Lru → Lru
unfolding remove_back
evict_entries zero c = c
evict_entries (suc fuel) c =
    let rest = evict_entries fuel (remove_back c) in
    if exceeds c.max_entries (pos (length c.order)) then rest else c

unfoldable pub evict_bytes : ℕ → Lru → Lru
unfolding remove_back
evict_bytes zero c = c
evict_bytes (suc fuel) c =
    let rest = evict_bytes fuel (remove_back c) in if exceeds c.max_bytes c.bytes then rest else c

unfoldable pub evict : Lru → Lru
unfolding evict_entries evict_bytes
evict c = let c' = evict_entries (length c.order) c in evict_bytes (length c'.order) c'

unfoldable pub get : Lru → Text → ℤ → Lru × Option Entry
unfolding find remove_element move_to_front
get c key now = elim (find key c.index) [
  | none ↦ (c, none)
  | some el ↦
      if ltb_ℤ el.entry.expires_at now
      then (remove_element c el, none)
      else (record c { order = move_to_front el c.order }, some el.entry)
]

-- `Set` up to its call of `evict`: an element of the same key is removed, the new one is put first.
unfoldable pub unlink : Lru → Text → Lru
unfolding find remove_element
unlink c key = elim (find key c.index) [ none ↦ c | some el ↦ remove_element c el ]

unfoldable pub push : Lru → Text → Entry → Lru
unfolding put ◌+ℤ◌
push c key entry =
    let el : Element = record { id = c.next_id; key = key; entry = entry } in
    record c {
      order = el ∷ c.order;
      index = put key el c.index;
      bytes = c.bytes +ℤ pos (size (some entry));
      next_id = c.next_id + 1;
    }

unfoldable pub set : Lru → Text → Entry → Lru
unfolding unlink push evict
set c key entry = evict (push (unlink c key) key entry)

-- `Len` and `Bytes`.
unfoldable pub len : Lru → ℕ
len c = length c.order

unfoldable pub byte_count : Lru → ℤ
byte_count c = c.bytes
