-- ===== src/Lru/Elements.antt =====
-- The elements of the list of internal/cache/lru.go, by key and by address.
use go_api_gateway.Prelude.{
  ℕ, ◌+◌, ◌<◌, ◌≡◌, refl, Option, none, some, List, [], ◌∷◌, ite, Text, text_eq, arith, All,
  ℕ_discrete, true, if_pos, if_neg,
}
use go_api_gateway.Lru.{Element, size, drop_id, holds_id, back}

unfoldable pub by_key : Text → List Element → Option Element
by_key k [] = none
by_key k (x ∷ xs) = ite (text_eq x.key k) (some x) (by_key k xs)

unfoldable pub by_id : ℕ → List Element → Option Element
by_id i [] = none
by_id i (x ∷ xs) = ite (ℕ_discrete x.id i) (some x) (by_id i xs)

unfoldable pub drop_key : Text → List Element → List Element
drop_key k [] = []
drop_key k (x ∷ xs) = ite (text_eq x.key k) xs (x ∷ drop_key k xs)

-- No key and no address stands twice.
abbrev pub HasDistinctKeys : List Element → Type 0
HasDistinctKeys [] = Unit
HasDistinctKeys (x ∷ xs) = (by_key x.key xs ≡ none) × HasDistinctKeys xs

abbrev pub HasDistinctIds : List Element → Type 0
HasDistinctIds [] = Unit
HasDistinctIds (x ∷ xs) = (by_id x.id xs ≡ none) × HasDistinctIds xs

abbrev pub total : List Element → ℕ
total [] = 0
total (x ∷ xs) = size (some x.entry) + total xs

pub key_of_by_key : (k : Text) (xs : List Element) (e : Element) → by_key k xs ≡ some e → e.key ≡ k
unfolding by_key
key_of_by_key k [] e h = cc
key_of_by_key k (x ∷ xs) e h = ground (arith, key_of_by_key k xs e)

pub by_id_of_by_key :
    (k : Text) (xs : List Element) (e : Element)
    → HasDistinctIds xs
    → by_key k xs ≡ some e
    → by_id e.id xs ≡ some e
unfolding by_key by_id
by_id_of_by_key k [] e d h = cc
by_id_of_by_key k (x ∷ xs) e (fresh, d) h = ground (arith, by_id_of_by_key k xs e d)

-- To remove an element by its address is to remove it by its key.
pub drop_id-drop_key :
    (k : Text) (xs : List Element) (e : Element)
    → HasDistinctIds xs
    → by_key k xs ≡ some e
    → drop_id e.id xs ≡ drop_key k xs
unfolding by_key drop_id drop_key by_id
drop_id-drop_key k [] e d h = cc
drop_id-drop_key k (x ∷ xs) e (fresh, d) h =
    ground (arith, drop_id-drop_key k xs e d, by_id_of_by_key k xs e d)

pub holds_id_of_by_key :
    (k : Text) (xs : List Element) (e : Element) → by_key k xs ≡ some e → holds_id e.id xs ≡ true
unfolding by_key holds_id
holds_id_of_by_key k [] e h = cc
holds_id_of_by_key k (x ∷ xs) e h = ground (arith, holds_id_of_by_key k xs e)

pub by_key-drop_key :
    (k j : Text) (xs : List Element)
    → HasDistinctKeys xs
    → by_key j (drop_key k xs) ≡ ite (text_eq k j) none (by_key j xs)
unfolding by_key drop_key
by_key-drop_key k j [] d = ground arith
by_key-drop_key k j (x ∷ xs) (fresh, d) = ground (arith, by_key-drop_key k j xs d)

pub by_id-drop_key :
    (k : Text) (i : ℕ) (xs : List Element) → by_id i xs ≡ none → by_id i (drop_key k xs) ≡ none
unfolding by_id drop_key
by_id-drop_key k i [] h = refl
by_id-drop_key k i (x ∷ xs) h = ground (arith, by_id-drop_key k i xs)

pub drop_key-HasDistinctKeys :
    (k : Text) (xs : List Element) → HasDistinctKeys xs → HasDistinctKeys (drop_key k xs)
unfolding drop_key
drop_key-HasDistinctKeys k [] d = tt
drop_key-HasDistinctKeys k (x ∷ xs) (fresh, d) = elim (text_eq x.key k) [
  | yes p ↦ rw (if_pos _ p) d
  | no p ↦
      rw (if_neg _ p)
        (ground (arith, by_key-drop_key k x.key xs d), drop_key-HasDistinctKeys k xs d)
]

pub drop_key-HasDistinctIds :
    (k : Text) (xs : List Element) → HasDistinctIds xs → HasDistinctIds (drop_key k xs)
unfolding drop_key
drop_key-HasDistinctIds k [] d = tt
drop_key-HasDistinctIds k (x ∷ xs) (fresh, d) = elim (text_eq x.key k) [
  | yes p ↦ rw (if_pos _ p) d
  | no p ↦ rw (if_neg _ p) (by_id-drop_key k x.id xs fresh, drop_key-HasDistinctIds k xs d)
]

pub All-drop_key {κ} :
    (P : Element → Type κ) (k : Text) (xs : List Element) → All P xs → All P (drop_key k xs)
unfolding drop_key
All-drop_key P k [] h = tt
All-drop_key P k (x ∷ xs) (p, h) = elim (text_eq x.key k) [
  | yes q ↦ rw (if_pos _ q) h
  | no q ↦ rw (if_neg _ q) (p, All-drop_key P k xs h)
]

pub total-drop_key :
    (k : Text) (xs : List Element) (e : Element)
    → by_key k xs ≡ some e
    → total (drop_key k xs) + size (some e.entry) ≡ total xs
unfolding by_key drop_key
total-drop_key k [] e h = cc
total-drop_key k (x ∷ xs) e h = ground (arith, total-drop_key k xs e)

pub by_id-drop_key_self :
    (k : Text) (xs : List Element) (e : Element)
    → HasDistinctIds xs
    → by_key k xs ≡ some e
    → by_id e.id (drop_key k xs) ≡ none
unfolding by_id by_key drop_key
by_id-drop_key_self k [] e d h = cc
by_id-drop_key_self k (x ∷ xs) e (fresh, d) h =
    ground (arith, by_id-drop_key_self k xs e d, by_id_of_by_key k xs e d)

pub by_id_fresh : (n : ℕ) (xs : List Element) → All (λ x. x.id < n) xs → by_id n xs ≡ none
unfolding by_id
by_id_fresh n [] h = refl
by_id_fresh n (x ∷ xs) (p, h) = ground (arith, by_id_fresh n xs h)

-- The last element is the one of its key.
pub by_key_of_back :
    (xs : List Element) (e : Element)
    → HasDistinctKeys xs
    → back xs ≡ some e
    → by_key e.key xs ≡ some e
unfolding by_key back
by_key_of_back [] e d h = cc
by_key_of_back (x ∷ []) e d h = ground arith
by_key_of_back (x ∷ y ∷ xs) e (fresh, d) h = ground (arith, by_key_of_back (y ∷ xs) e d h)

pub drop_key_absent : (k : Text) (xs : List Element) → by_key k xs ≡ none → drop_key k xs ≡ xs
unfolding by_key drop_key
drop_key_absent k [] h = refl
drop_key_absent k (x ∷ xs) h = ground (arith, drop_key_absent k xs)
