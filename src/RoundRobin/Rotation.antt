-- ===== src/RoundRobin/Rotation.antt =====
-- The order in which `Next` of internal/loadbalancer/roundrobin.go hands out upstreams, alone and
-- among other calls.
use mathlib.Core.Option
use native.Mathlib.Nat.{mod-lt, add-zero}
use go_api_gateway.Prelude.{
  ℕ, zero, suc, ◌+◌, ◌-◌, ◌%◌, ◌^◌, ◌≤◌, ◌<◌, ◌≡◌, Bool, true, false, some, List, [], ◌∷◌, arith,
  Text, length, get_elem?, replicate, All,
}
use go_api_gateway.RoundRobin.{
  RoundRobin, Choice, chosen, err_no_healthy, add64, next_loop, next_among, next,
}
use go_api_gateway.RoundRobin.Search.{get_elem?-lt, next_loop-suc}

-- The choices of `m` calls in a row.
unfoldable pub calls : (Text → Bool) → ℕ → RoundRobin → List Choice
calls healthy zero rr = []
calls healthy (suc m) rr = let (rr', choice) = next healthy rr in choice ∷ calls healthy m rr'

healthy_at :
    (healthy : Text → Bool) (xs : List Text) (i : ℕ) (u : Text)
    → All (λ v. healthy v ≡ true) xs
    → get_elem? xs i ≡ some u
    → healthy u ≡ true
healthy_at healthy [] i u h e = cc
healthy_at healthy (x ∷ xs) zero u (good, _) e = ground arith
healthy_at healthy (x ∷ xs) (suc i) u (_, h) e = healthy_at healthy xs i u h e

first_attempt :
    (healthy : Text → Bool) (urls : List Text) (c : ℕ) (u : Text)
    → c + 1 ≤ 2 ^ 64
    → healthy u ≡ true
    → get_elem? urls (c % length urls) ≡ some u
    → c + length urls ≤ 2 ^ 64
    → next_loop healthy urls (replicate (length urls) 0) c ≡ ((c + 1) % 2 ^ 64, chosen u)
first_attempt healthy [] c u small good e fits = cc
first_attempt healthy (x ∷ xs) c u small good e fits =
    rw (next_loop-suc healthy (x ∷ xs) (length xs) c u fits e, good)

next_first :
    (healthy : Text → Bool) (rr : RoundRobin) (u : Text)
    → rr.counter + length rr.urls ≤ 2 ^ 64
    → rr.counter + 1 ≤ 2 ^ 64
    → All (λ v. healthy v ≡ true) rr.urls
    → get_elem? rr.urls (rr.counter % length rr.urls) ≡ some u
    → next healthy rr ≡ (record rr { counter = (rr.counter + 1) % 2 ^ 64 }, chosen u)
unfolding next
next_first healthy rr u fits small h e =
    rw
      (first_attempt healthy rr.urls rr.counter u small (healthy_at healthy rr.urls _ u h e) e fits)

-- While all upstreams are healthy and the counter does not overflow, the calls of `Next` go through
-- the list in order and begin again at its end: the `k`-th call from counter `c` gets the upstream
-- at `(c + k) % n`.
pub calls_rotate :
    (healthy : Text → Bool) (m k : ℕ) (rr : RoundRobin)
    → k < m
    → rr.counter + m + length rr.urls ≤ 2 ^ 64
    → 0 < length rr.urls
    → All (λ v. healthy v ≡ true) rr.urls
    → get_elem? (calls healthy m rr) k
      ≡ Option.map chosen (get_elem? rr.urls ((rr.counter + k) % length rr.urls))
unfolding calls
calls_rotate healthy zero k rr below small some_url h = absurd (omega arith)
calls_rotate healthy (suc m) zero rr below small some_url h =
    let (u, at_c) =
      get_elem?-lt rr.urls (rr.counter % length rr.urls) (mod-lt rr.counter some_url) in
    rw (next_first healthy rr u (omega arith) (omega arith) h at_c, add-zero, at_c)
calls_rotate healthy (suc m) (suc k) rr below small some_url h =
    let c : ℕ = rr.counter in
    let (u, at_c) = get_elem?-lt rr.urls (c % length rr.urls) (mod-lt c some_url) in
    let in_range : (c + 1) % 2 ^ 64 ≡ c + 1 = omega arith in
    let regrouped : c + suc k ≡ c + 1 + k = omega arith in
    rw (next_first healthy rr u (omega arith) (omega arith) h at_c, in_range, regrouped)
      (calls_rotate healthy m k (record rr { counter = c + 1 }) (omega arith) (omega arith) some_url
        h)

-- Between the two attempts of one call another call may take the counter's next value. Of two
-- upstreams the first is down and the second is up: from an even counter the disturbed call looks
-- at the first one twice and reports that none is healthy.
pub disturbed_misses :
    (healthy : Text → Bool) (a b : Text) (n : ℕ)
    → healthy a ≡ false
    → healthy b ≡ true
    → n + n + 3 ≤ 2 ^ 64
    → (next_among healthy (record { urls = a ∷ b ∷ []; counter = n + n }) (0 ∷ 1 ∷ [])).1
      ≡ err_no_healthy
unfolding next_among
disturbed_misses healthy a b n down up small =
    let first : (add64 (add64 (n + n) 0) 1 + 2 ^ 64 - 1) % 2 ^ 64 % 2 ≡ 0 = omega arith in
    let second : (add64 (add64 (add64 (add64 (n + n) 0) 1) 1) 1 + 2 ^ 64 - 1) % 2 ^ 64 % 2 ≡ 0 =
      omega arith in
    rw (first, down, second, down)
