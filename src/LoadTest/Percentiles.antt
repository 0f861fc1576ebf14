-- ===== src/LoadTest/Percentiles.antt =====
-- What the percentiles that loadtest/scenarios/user_flow.go prints are.
use go_api_gateway.Prelude.{
  ℕ, zero, suc, ◌+◌, ◌*◌, ◌/◌, ◌≤◌, ◌<◌, ◌≡◌, ◌≢◌, refl, sym, ap, subst, ◌∙◌, Bool, true, false,
  Option, none, some, List, [], ◌∷◌, if◌then◌else◌, leb, length, get_elem?, All, ◌==◌, ◌&&◌,
  ℕ_discrete, arith,
}
use go_api_gateway.LoadTest.{
  Snapshot, Line, Printed, silent, line, truncate, print_sorted, print_interval,
}
use mathlib.Core.List.{Permᴰ}

-- How many items pass a test.
abbrev pub count : (ℕ → Bool) → List ℕ → ℕ
count test [] = 0
count test (x ∷ xs) = if test x then suc (count test xs) else count test xs

abbrev pub IsSorted : List ℕ → Type 0
IsSorted [] = Unit
IsSorted (x ∷ xs) = All (λ y. x ≤ y) xs × IsSorted xs

count-cons :
    (test : ℕ → Bool) (a b : ℕ) (xs ys : List ℕ)
    → a ≡ b
    → count test xs ≡ count test ys
    → count test (a ∷ xs) ≡ count test (b ∷ ys)
count-cons test a b xs ys e same = rw (e, same) refl

count-swap :
    (test : ℕ → Bool) (a b : ℕ) (xs : List ℕ) → count test (a ∷ b ∷ xs) ≡ count test (b ∷ a ∷ xs)
count-swap test a b xs = ground arith

-- A permutation keeps the counts.
pub count-Perm : (test : ℕ → Bool) {xs ys : List ℕ} → Permᴰ xs ys → count test xs ≡ count test ys
count-Perm test Permᴰ.nil = refl
count-Perm test (Permᴰ.cons {a = a} {b = b} {l₁ = xs} {l₂ = ys} e p) =
    count-cons test a b xs ys e (count-Perm test p)
count-Perm test (Permᴰ.swap {a = a} {b = b} {a' = a'} {b' = b'} {l = xs} e f) =
    rw (sym e, sym f) (count-swap test a b xs)
count-Perm test (Permᴰ.trans p q) = count-Perm test p ∙ count-Perm test q

abbrev pub everything : ℕ → Bool
everything x = true

count-everything : (xs : List ℕ) → count everything xs ≡ length xs
count-everything [] = refl
count-everything (x ∷ xs) = ap suc (count-everything xs)

pub length-Perm : {xs ys : List ℕ} → Permᴰ xs ys → length xs ≡ length ys
length-Perm {xs} {ys} p = sym (count-everything xs) ∙ count-Perm everything p ∙ count-everything ys

get_elem?-defined : (xs : List ℕ) (i : ℕ) → i < length xs → (x : ℕ) × (get_elem? xs i ≡ some x)
get_elem?-defined [] i lt = absurd (omega (arith, lt))
get_elem?-defined (x ∷ xs) zero lt = (x, refl)
get_elem?-defined (x ∷ xs) (suc i) lt = get_elem?-defined xs i (omega (arith, lt))

All-at : (P : ℕ → Type 0) (xs : List ℕ) (i x : ℕ) → All P xs → get_elem? xs i ≡ some x → P x
All-at P [] i x h e = absurd (let q : none ≡ some x = e in cc)
All-at P (y ∷ xs) zero x (p, h) e = subst P (let q : y ≡ x = cc in q) p
All-at P (y ∷ xs) (suc i) x (p, h) e = All-at P xs i x h e

-- The item at an index of a sorted list.
below :
    (xs : List ℕ) (i x : ℕ) → IsSorted xs → get_elem? xs i ≡ some x → i < count (λ y. leb y x) xs
below [] i x s e = absurd (let q : none ≡ some x = e in cc)
below (y ∷ xs) zero x s e = let q : y ≡ x = cc in ground arith
below (y ∷ xs) (suc i) x (low, s) e =
    let le : y ≤ x = All-at (λ z. y ≤ z) xs i x low e in let rest = below xs i x s e in ground arith

count-all : (xs : List ℕ) (x : ℕ) → All (λ y. x ≤ y) xs → count (λ y. leb x y) xs ≡ length xs
count-all [] x h = refl
count-all (y ∷ xs) x (le, h) = let rest = count-all xs x h in ground arith

above :
    (xs : List ℕ) (i x : ℕ)
    → IsSorted xs
    → get_elem? xs i ≡ some x
    → length xs ≤ i + count (λ y. leb x y) xs
above [] i x s e = absurd (let q : none ≡ some x = e in cc)
above (y ∷ xs) zero x (low, s) e =
    let q : y ≡ x = cc in
    let rest = count-all xs x (subst (λ z. All (λ w. z ≤ w) xs) q low) in ground arith
above (y ∷ xs) (suc i) x (low, s) e = let rest = above xs i x s e in ground arith

-- `d` is cut from a latency that more than `p` hundredths of all are at most, and that at least the
-- rest are at least.
abbrev pub IsPercentile : List ℕ → ℕ → Option ℕ → Type 0
IsPercentile ds p none = ⊥
IsPercentile ds p (some d) =
    (x : ℕ) × (d ≡ truncate x)
    × (length ds * p / 100 < count (λ y. leb y x) ds)
    × (length ds ≤ length ds * p / 100 + count (λ y. leb x y) ds)

-- What is printed for an interval.
pub data Reports (snap : Snapshot) : Printed → Type 0 where
  nothing : snap.latencies ≡ [] → snap.errors ≡ 0 → Reports snap silent
  only_errors :
      snap.latencies ≡ []
      → snap.errors ≢ 0
      → Reports snap (
          line (record {
            requests = 0;
            p50 = none;
            p95 = none;
            p99 = none;
            errors = snap.errors;
            codes = snap.codes;
          }))
  latencies :
      (l : Line)
      → l.requests ≡ length snap.latencies
      → l.errors ≡ snap.errors
      → l.codes ≡ snap.codes
      → IsPercentile snap.latencies 50 l.p50
      → IsPercentile snap.latencies 95 l.p95
      → IsPercentile snap.latencies 99 l.p99
      → Reports snap (line l)

-- The item of a sorted permutation at the index of a percentile under 100.
module _ (ds sorted : List ℕ) (s : IsSorted sorted) (perm : Permᴰ ds sorted) where
  at-IsPercentile :
      (p : ℕ)
      → length sorted * p / 100 < length sorted
      → (x : ℕ) × (get_elem? sorted (length sorted * p / 100) ≡ some x)
        × IsPercentile ds p (some (truncate x))
  at-IsPercentile p lt =
      let (x, at) = get_elem?-defined sorted (length sorted * p / 100) lt in
      let fewer = below sorted (length sorted * p / 100) x s at in
      let more = above sorted (length sorted * p / 100) x s at in
      let P : ℕ → Type 0 = λ n.
        (n * p / 100 < count (λ y. leb y x) ds) × (n ≤ n * p / 100 + count (λ y. leb x y) ds) in
      let both : P (length sorted) =
        rw (count-Perm (λ y. leb y x) perm, count-Perm (λ y. leb x y) perm) (fewer, more) in
      let (low, high) = subst P (sym (length-Perm perm)) both in (x, at, (x, refl, low, high))

print_sorted-Reports :
    (snap : Snapshot) (sorted : List ℕ)
    → IsSorted sorted
    → Permᴰ snap.latencies sorted
    → 0 < length sorted
    → Reports snap (print_sorted snap sorted)
print_sorted-Reports snap [] s perm some_ = absurd (omega (arith, some_))
print_sorted-Reports snap (d ∷ ds) s perm some_ =
    let (a, at_a, is_a) = at-IsPercentile snap.latencies (d ∷ ds) s perm 50 (omega arith) in
    let (b, at_b, is_b) = at-IsPercentile snap.latencies (d ∷ ds) s perm 95 (omega arith) in
    let (c, at_c, is_c) = at-IsPercentile snap.latencies (d ∷ ds) s perm 99 (omega arith) in
    let shown : Line = record {
      requests = length (d ∷ ds);
      p50 = some (truncate a);
      p95 = some (truncate b);
      p99 = some (truncate c);
      errors = snap.errors;
      codes = snap.codes;
    } in
    rw (at_a, at_b, at_c)
      (Reports.latencies shown (sym (length-Perm perm)) refl refl is_a is_b is_c)

nil-of-Perm : (ds sorted : List ℕ) → Permᴰ ds sorted → length ds ≡ 0 → (ds ≡ []) × (sorted ≡ [])
nil-of-Perm [] [] perm e = (refl, refl)
nil-of-Perm [] (d ∷ ds) perm e = absurd (omega (arith, length-Perm perm))
nil-of-Perm (d ∷ ds) sorted perm e = absurd (omega (arith, e))

no_latencies-Reports :
    (sort : List ℕ → List ℕ) (snap : Snapshot)
    → snap.latencies ≡ []
    → sort snap.latencies ≡ []
    → Dec (snap.errors ≡ 0)
    → Reports snap (print_interval sort snap)
unfolding print_interval
no_latencies-Reports sort snap empty sorted_empty (yes quiet) =
    let idle : (length snap.latencies == 0 && snap.errors == 0) ≡ true = rw (empty, quiet) refl in
    rw idle (nothing empty quiet)
no_latencies-Reports sort snap empty sorted_empty (no errs) =
    let busy : (length snap.latencies == 0 && snap.errors == 0) ≡ false = ground arith in
    rw (busy, sorted_empty) (only_errors empty errs)

-- Where `slices.Sort` gives a sorted permutation of the latencies, `printInterval` does not panic. It
-- prints nothing for an interval without requests and errors, dashes for one that has errors only,
-- and otherwise how many latencies there are, the errors, the status codes, and for 50, 95 and 99
-- such a percentile: cut to 100µs from a latency that more than p hundredths of all do not exceed
-- and that the others, at least as many as are left, do not fall below.
pub print_interval-Reports :
    (sort : List ℕ → List ℕ) (snap : Snapshot)
    → IsSorted (sort snap.latencies)
    → Permᴰ snap.latencies (sort snap.latencies)
    → Reports snap (print_interval sort snap)
unfolding print_interval
print_interval-Reports sort snap s perm = elim (ℕ_discrete (length snap.latencies) 0) [
  | no some_ ↦
      let busy : (length snap.latencies == 0 && snap.errors == 0) ≡ false = ground arith in
      let same = length-Perm perm in
      rw busy (print_sorted-Reports snap (sort snap.latencies) s perm (omega (arith, some_, same)))
  | yes none_ ↦
      let (empty, sorted_empty) = nil-of-Perm snap.latencies (sort snap.latencies) perm none_ in
      no_latencies-Reports sort snap empty sorted_empty (ℕ_discrete snap.errors 0)
]
