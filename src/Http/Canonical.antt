-- ===== src/Http/Canonical.antt =====
-- That a canonical header name is its own canonical name.
use go_api_gateway.Prelude.{
  ℕ, ◌≡◌, refl, ap, ap₂, subst, ◌∙◌, Bool, true, false, ◌&&◌, ◌||◌, [], ◌∷◌, if◌then◌else◌, ◌==◌,
  leb, Text, codes, Bool-cases, inl, inr, arith,
}
use go_api_gateway.Strings.{lower, upper}
use go_api_gateway.Http.{one_of, is_token, all_token, canonical_from, canonical}

abbrev cased : Bool → ℕ → ℕ
cased start c = if start then upper c else lower c

cased_twice : (start : Bool) (c : ℕ) → cased start (cased start c) ≡ cased start c
cased_twice true c = ground arith
cased_twice false c = ground arith

dash-cased : (start : Bool) (c : ℕ) → (cased start c == b'-') ≡ (c == b'-')
dash-cased true c = ground arith
dash-cased false c = ground arith

or_true : (a b c : Bool) → (a || true || b || c) ≡ true
or_true true b c = refl
or_true false b c = refl

small_token : (c : ℕ) → (leb b'a' c && leb c b'z') ≡ true → is_token c ≡ true
small_token c small = rw small refl

capital_token : (c : ℕ) → (leb b'A' c && leb c b'Z') ≡ true → is_token c ≡ true
capital_token c capital = rw capital (
    or_true (leb b'a' c && leb c b'z') (leb b'0' c && leb c b'9')
      (one_of c (codes "!#$%&'*+-.^_`|~")))

is_token-upper : (c : ℕ) → is_token c ≡ true → is_token (upper c) ≡ true
is_token-upper c token = elim (Bool-cases (leb b'a' c && leb c b'z')) [
  | inl small ↦ capital_token (upper c) (ground (arith, small))
  | inr other ↦
      subst (λ x. is_token x ≡ true) (let q : c ≡ upper c = ground (arith, other) in q) token
]

is_token-lower : (c : ℕ) → is_token c ≡ true → is_token (lower c) ≡ true
is_token-lower c token = elim (Bool-cases (leb b'A' c && leb c b'Z')) [
  | inl capital ↦ small_token (lower c) (ground (arith, capital))
  | inr other ↦
      subst (λ x. is_token x ≡ true) (let q : c ≡ lower c = ground (arith, other) in q) token
]

is_token-cased : (start : Bool) (c : ℕ) → is_token c ≡ true → is_token (cased start c) ≡ true
is_token-cased true c token = is_token-upper c token
is_token-cased false c token = is_token-lower c token

and_true : (a b : Bool) → (a && b) ≡ true → (a ≡ true) × (b ≡ true)
and_true true b h = (refl, h)
and_true false b h = absurd (let q : false ≡ true = h in cc)

all_token-canonical_from :
    (start : Bool) (s : Text) → all_token s ≡ true → all_token (canonical_from start s) ≡ true
unfolding all_token canonical_from
all_token-canonical_from start [] h = refl
all_token-canonical_from start (c ∷ s) h =
    let (token, tokens) = and_true (is_token c) (all_token s) h in
    ap₂ (λ a b. a && b) (is_token-cased start c token)
      (all_token-canonical_from (c == b'-') s tokens)

canonical_from_twice :
    (start : Bool) (s : Text)
    → canonical_from start (canonical_from start s) ≡ canonical_from start s
unfolding canonical_from
canonical_from_twice start [] = refl
canonical_from_twice start (c ∷ s) =
    let dash = ap (λ b. canonical_from b (canonical_from (c == b'-') s)) (dash-cased start c) in
    ap₂ (λ (x : ℕ) (xs : Text). x ∷ xs) (cased_twice start c)
      (dash ∙ canonical_from_twice (c == b'-') s)

-- The canonical name of a canonical name is itself.
pub canonical_twice : (name : Text) → canonical (canonical name) ≡ canonical name
unfolding canonical
canonical_twice name = elim (Bool-cases (all_token name)) [
  | inl tokens ↦
      rw (tokens, all_token-canonical_from true name tokens) (canonical_from_twice true name)
  | inr other ↦ rw (other, other) refl
]
