-- ===== src/Lru/Prefix.antt =====
-- Prefixes of a list that fit a bound, and how dropping last items reaches them: the list side of
-- `evict` in internal/cache/lru.go.
use go_api_gateway.Prelude.{
  ℕ, zero, suc, ◌+◌, ◌-◌, ◌≤◌, ◌<◌, ◌≡◌, refl, ap, List, [], ◌∷◌, ℤ, pos, pos_part, ltb_ℤ, leb,
  arith, length, take, if◌then◌else◌, map,
}
use go_api_gateway.Lru.{Element, back}
use go_api_gateway.Lru.Elements.{by_key, drop_key, HasDistinctKeys, by_key_of_back}
use go_api_gateway.Prelude.{text_eq, some, none, sym, ◌∙◌, if_neg}

module _ {ℓ} {A : Type ℓ} where
  unfoldable pub init : List A → List A
  init [] = []
  init (x ∷ []) = []
  init (x ∷ y ∷ xs) = x ∷ init (y ∷ xs)

  -- At most `bound` items, from the front; a bound that is not positive is none.
  unfoldable pub fit_entries : ℤ → List A → List A
  fit_entries bound xs = if ltb_ℤ (pos 0) bound then take (pos_part bound) xs else xs

  pub length-init : (x : A) (xs : List A) → length (init (x ∷ xs)) ≡ length xs
  unfolding init
  length-init x [] = refl
  length-init x (y ∷ xs) = ap suc (length-init y xs)

  pub length-init-le : (n : ℕ) (xs : List A) → length xs ≤ suc n → length (init xs) ≤ n
  length-init-le n [] h = unfold init in omega arith
  length-init-le n (x ∷ xs) h = omega (arith, length-init x xs)

  pub take-init : (n : ℕ) (xs : List A) → n < length xs → take n (init xs) ≡ take n xs
  unfolding init
  take-init n [] h = absurd (omega arith)
  take-init zero (x ∷ xs) h = refl
  take-init (suc n) (x ∷ []) h = absurd (omega arith)
  take-init (suc n) (x ∷ y ∷ xs) h = ap (◌∷◌ x) (take-init n (y ∷ xs) (omega arith))

  pub take_of_length-le : (m : ℕ) (ys : List A) → length ys ≤ m → take m ys ≡ ys
  take_of_length-le zero (y ∷ ys) short = absurd (omega arith)
  take_of_length-le (suc m) (y ∷ ys) short = ground (arith, take_of_length-le m ys)
  take_of_length-le zero [] short = refl
  take_of_length-le (suc m) [] short = refl

  pub length-take-le : (n : ℕ) (xs : List A) → length (take n xs) ≤ n
  length-take-le zero xs = omega arith
  length-take-le (suc n) [] = omega arith
  length-take-le (suc n) (x ∷ xs) = omega (arith, length-take-le n xs)

module _ {ℓ} {A : Type ℓ} (weight : A → ℕ) where
  abbrev pub weigh : List A → ℕ
  weigh [] = 0
  weigh (x ∷ xs) = weight x + weigh xs

  -- The longest prefix whose weight stays within the budget.
  unfoldable pub keep : ℕ → List A → List A
  keep budget [] = []
  keep budget (x ∷ xs) = if leb (weight x) budget then x ∷ keep (budget - weight x) xs else []

  unfoldable pub fit_bytes : ℤ → List A → List A
  unfolding keep
  fit_bytes bound xs = if ltb_ℤ (pos 0) bound then keep (pos_part bound) xs else xs

  pub keep-init : (b : ℕ) (xs : List A) → b < weigh xs → keep b (init xs) ≡ keep b xs
  unfolding init keep
  keep-init b [] h = absurd (omega arith)
  keep-init b (x ∷ []) h = ground arith
  keep-init b (x ∷ y ∷ xs) h = ground (arith, keep-init (b - weight x) (y ∷ xs))

  pub keep_of_weigh-le : (b : ℕ) (xs : List A) → weigh xs ≤ b → keep b xs ≡ xs
  unfolding keep
  keep_of_weigh-le b [] h = refl
  keep_of_weigh-le b (x ∷ xs) h = ground (arith, keep_of_weigh-le (b - weight x) xs)

  pub weigh-keep-le : (b : ℕ) (xs : List A) → weigh (keep b xs) ≤ b
  unfolding keep
  weigh-keep-le b [] = omega arith
  weigh-keep-le b (x ∷ xs) = ground (arith, weigh-keep-le (b - weight x) xs)

  pub length-keep-le : (b : ℕ) (xs : List A) → length (keep b xs) ≤ length xs
  unfolding keep
  length-keep-le b [] = omega arith
  length-keep-le b (x ∷ xs) = ground (arith, length-keep-le (b - weight x) xs)

-- The bounds commute with a change of the items that keeps their weight.
module _ {ℓ κ} {A : Type ℓ} {B : Type κ} (f : A → B) where
  pub map-fit_entries : (m : ℤ) (xs : List A) → map f (fit_entries m xs) ≡ fit_entries m (map f xs)
  unfolding fit_entries
  map-fit_entries m xs = ground (arith, map-take (pos_part m) xs)
    where
      map-take : (n : ℕ) (xs : List A) → map f (take n xs) ≡ take n (map f xs)
      map-take zero xs = refl
      map-take (suc n) [] = refl
      map-take (suc n) (x ∷ xs) = ap (◌∷◌ (f x)) (map-take n xs)

  pub map-keep :
      (w : B → ℕ) (b : ℕ) (xs : List A) → map f (keep (λ x. w (f x)) b xs) ≡ keep w b (map f xs)
  unfolding keep
  map-keep w b [] = refl
  map-keep w b (x ∷ xs) = ground (arith, map-keep w (b - w (f x)) xs)

  pub map-fit_bytes :
      (w : B → ℕ) (m : ℤ) (xs : List A)
      → map f (fit_bytes (λ x. w (f x)) m xs) ≡ fit_bytes w m (map f xs)
  unfolding fit_bytes
  map-fit_bytes w m xs = ground (arith, map-keep w (pos_part m) xs)

some_not_none : {A : Type 0} {a : A} → some a ≡ none → ⊥
some_not_none e = cc

pub drop_back :
    (xs : List Element) (e : Element)
    → HasDistinctKeys xs
    → back xs ≡ some e
    → drop_key e.key xs ≡ init xs
unfolding back drop_key init by_key
drop_back [] e d h = cc
drop_back (x ∷ []) e d h = ground arith
drop_back (x ∷ y ∷ xs) e (fresh, d) h = elim (text_eq x.key e.key) [
  | yes p ↦
      let last = by_key_of_back (y ∷ xs) e d h in
      absurd (some_not_none (sym last ∙ ap (λ k. by_key k (y ∷ xs)) (sym p) ∙ fresh))
  | no p ↦ rw (if_neg _ p) (ap (◌∷◌ x) (drop_back (y ∷ xs) e d h))
]
