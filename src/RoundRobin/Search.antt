-- ===== src/RoundRobin/Search.antt =====
-- Whether `Next` of internal/loadbalancer/roundrobin.go finds a healthy upstream.
use native.Mathlib.Nat.{mod-lt, mod-add-mod, add-mod_right, mod-eq_of_lt}
use go_api_gateway.Prelude.{
  ℕ, zero, suc, ◌+◌, ◌-◌, ◌%◌, ◌^◌, ◌≤◌, ◌<◌, ◌≡◌, refl, inl, inr, Bool, true, some, List, [], ◌∷◌,
  arith, Text, length, get_elem?, replicate, Any, here, there, Bool-cases, Option-cases, ◌⊎◌, sym,
  ◌∙◌, ap, dec_le,
}
use go_api_gateway.RoundRobin.{
  RoundRobin, Choice, chosen, add64, attempt, next_loop, next_among, next,
}

pub get_elem?-lt : (xs : List Text) (i : ℕ) → i < length xs → (x : Text) × (get_elem? xs i ≡ some x)
get_elem?-lt [] i h = elim h [ ]
get_elem?-lt (x ∷ xs) zero h = (x, refl)
get_elem?-lt (x ∷ xs) (suc i) h = get_elem?-lt xs i (omega arith)

-- A healthy upstream was found.
abbrev pub IsChosen : Choice → Type 0
IsChosen (chosen v) = Unit
IsChosen _ = ⊥

-- For every residue there is a step at which the counter has it.
residue_reached : (c n j : ℕ) → j < n → (k : ℕ) × (k < n) × ((c + k) % n ≡ j)
residue_reached c n j h =
    let r : ℕ = c % n in
    let small : r < n = mod-lt c (omega arith) in
    elim (dec_le r j) [
      | yes low ↦ (
        j - r,
        omega arith,
        sym (mod-add-mod c n (j - r))
            ∙ ap (λ x. x % n) (let e : r + (j - r) ≡ j = omega arith in e)
            ∙ mod-eq_of_lt h,
      )
      | no high ↦ (
        j + n - r,
        omega arith,
        sym (mod-add-mod c n (j + n - r))
            ∙ ap (λ x. x % n) (let e : r + (j + n - r) ≡ j + n = omega arith in e)
            ∙ add-mod_right j n
            ∙ mod-eq_of_lt h,
      )
    ]

-- The upstream that an attempt without overflow looks at.
module _ (healthy : Text → Bool) (urls : List Text) where
  pub next_loop-suc :
      (m c : ℕ) (u : Text)
      → c + suc m ≤ 2 ^ 64
      → get_elem? urls (c % length urls) ≡ some u
      → next_loop healthy urls (replicate (suc m) 0) c
        ≡ attempt healthy
            ((c + 1) % 2 ^ 64)
            (some u)
            (next_loop healthy urls (replicate m 0) ((c + 1) % 2 ^ 64))
  unfolding next_loop
  next_loop-suc m c u small e =
      let wrapped : (add64 (add64 c 0) 1 + 2 ^ 64 - 1) % 2 ^ 64 ≡ c = omega arith in
      let stored : add64 (add64 c 0) 1 ≡ (c + 1) % 2 ^ 64 = omega arith in rw (wrapped, e, stored)

  first_url : (c : ℕ) → 0 < length urls → (u : Text) × (get_elem? urls (c % length urls) ≡ some u)
  first_url c some_url = get_elem?-lt urls (c % length urls) (mod-lt c some_url)

  -- A loop without overflow stops at the first healthy upstream that it meets.
  next_loop-hit :
      (m c k : ℕ) (u : Text)
      → c + m ≤ 2 ^ 64
      → 0 < length urls
      → k < m
      → get_elem? urls ((c + k) % length urls) ≡ some u
      → healthy u ≡ true
      → IsChosen (next_loop healthy urls (replicate m 0) c).1
  next_loop-hit zero c k u small some_url below e up = absurd (omega arith)
  next_loop-hit (suc m) c zero u small some_url below e up =
      let e' : get_elem? urls (c % length urls) ≡ some u =
        ap (λ x. get_elem? urls (x % length urls)) (let z : c ≡ c + 0 = omega arith in z) ∙ e in
      rw (next_loop-suc m c u (omega arith) e', up) tt
  next_loop-hit (suc m) c (suc k) u small some_url below e up =
      let (w, at_c) = first_url c some_url in
      elim (Bool-cases (healthy w)) [
        | inl good ↦ rw (next_loop-suc m c w (omega arith) at_c, good) tt
        | inr bad ↦
            let in_range : (c + 1) % 2 ^ 64 ≡ c + 1 = omega arith in
            let e' : get_elem? urls ((c + 1 + k) % length urls) ≡ some u =
              ap (λ x. get_elem? urls (x % length urls))
                (let z : c + 1 + k ≡ c + suc k = omega arith in z)
              ∙ e in
            rw (next_loop-suc m c w (omega arith) at_c, bad, in_range)
              (next_loop-hit m (c + 1) k u (omega arith) some_url (omega arith) e' up)
      ]

pub get_elem?-Any :
    (xs : List Text) (i : ℕ) (v : Text) → get_elem? xs i ≡ some v → Any (λ u. u ≡ v) xs
get_elem?-Any [] i v e = cc
get_elem?-Any (x ∷ xs) zero v e = here (cc)
get_elem?-Any (x ∷ xs) (suc i) v e = there (get_elem?-Any xs i v e)

attempt_sound :
    (healthy : Text → Bool) (urls : List Text) (c i : ℕ) (later : ℕ × Choice) (v : Text)
    → (attempt healthy c (get_elem? urls i) later).1 ≡ chosen v
    → ((healthy v ≡ true) × Any (λ u. u ≡ v) urls) ⊎ (later.1 ≡ chosen v)
attempt_sound healthy urls c i later v e = elim (Option-cases (get_elem? urls i)) [
  | inl out ↦ absurd (ground arith)
  | inr (u, at_i) ↦ elim (Bool-cases (healthy u)) [
    | inl up ↦
        let same : u ≡ v = ground arith in
        inl (rw same at up, get_elem?-Any urls i v (at_i ∙ ap some same))
    | inr down ↦ inr (ground arith)
  ]
]

-- What is chosen is a healthy upstream of the list, whatever the other calls do.
pub next_loop_sound :
    (healthy : Text → Bool) (urls : List Text) (foreign : List ℕ) (c : ℕ) (v : Text)
    → (next_loop healthy urls foreign c).1 ≡ chosen v
    → (healthy v ≡ true) × Any (λ u. u ≡ v) urls
unfolding next_loop
next_loop_sound healthy urls [] c v e = cc
next_loop_sound healthy urls (d ∷ foreign) c v e = elim (attempt_sound healthy urls _ _ _ v e) [
  | inl found ↦ found
  | inr later ↦ next_loop_sound healthy urls foreign (add64 (add64 c d) 1) v later
]

-- `Next` chooses only upstreams of its list that the checker reports healthy, however the calls
-- of `Next` interleave.
pub next_among_sound :
    (healthy : Text → Bool) (rr : RoundRobin) (foreign : List ℕ) (v : Text)
    → (next_among healthy rr foreign).1 ≡ chosen v
    → (healthy v ≡ true) × Any (λ u. u ≡ v) rr.urls
unfolding next_among
next_among_sound healthy rr foreign v e = next_loop_sound healthy rr.urls foreign rr.counter v e

Any-index :
    (p : Text → Bool) (xs : List Text)
    → Any (λ u. p u ≡ true) xs
    → (i : ℕ) × (i < length xs) × (u : Text) × (get_elem? xs i ≡ some u) × (p u ≡ true)
Any-index p [] a = elim a [ ]
Any-index p (x ∷ xs) (here h) = (0, omega arith, x, refl, h)
Any-index p (x ∷ xs) (there a) =
    let (i, lt, u, e, h) = Any-index p xs a in (suc i, omega arith, u, e, h)

-- Undisturbed by other calls, and short of an overflow of the counter, `Next` finds a healthy upstream whenever
-- one of the list is healthy.
pub next_complete :
    (healthy : Text → Bool) (rr : RoundRobin)
    → rr.counter + length rr.urls ≤ 2 ^ 64
    → Any (λ u. healthy u ≡ true) rr.urls
    → IsChosen (next healthy rr).1
unfolding next
next_complete healthy rr small up =
    let (j, lt, u, at_j, good) = Any-index healthy rr.urls up in
    let (k, below, reached) = residue_reached rr.counter (length rr.urls) j lt in
    next_loop-hit healthy rr.urls (length rr.urls) rr.counter k u small (omega arith) below
      (ap (get_elem? rr.urls) reached ∙ at_j) good
