-- ===== src/Breaker/Trips.antt =====
-- When the breaker of internal/circuitbreaker/breaker.go leaves the closed state.
use go_api_gateway.Prelude.{
  ℕ, suc, ◌^◌, ◌<◌, ◌≡◌, refl, List, [], ◌∷◌, ◌++◌, ℤ, pos, arith, pos_part, neg_part, leb,
  if◌then◌else◌,
}
use go_api_gateway.Breaker.{
  closed, open_, Breaker, new_breaker, Call, try_allow, success, failure, apply, run,
}

-- Between two calls `failures` of a closed breaker stays below the threshold `m`, so that its
-- increment cannot overflow an `int`.
pub record IsValid (m : ℕ) (b : Breaker) : Type 0 where
  pub threshold : b.max_failures ≡ pos m
  pub positive : 0 < m
  pub small : m < 2 ^ 63
  pub counted : b.state ≡ closed → (neg_part b.failures ≡ 0) × (pos_part b.failures < m)

-- Every call keeps the threshold positive and below 2^63, and the count of a closed breaker below it.
pub apply-IsValid : (m : ℕ) (b : Breaker) (c : Call) → IsValid m b → IsValid m (apply b c)
unfolding apply
apply-IsValid m b (try_allow now) v = ground arith
apply-IsValid m b success v = ground arith
apply-IsValid m b (failure now) v = ground arith

-- A closed breaker that has counted `n` failures in a row.
pub record IsCounting (m n : ℕ) (b : Breaker) : Type 0 where
  pub shut : b.state ≡ closed
  pub threshold : b.max_failures ≡ pos m
  pub counted : b.failures ≡ pos n

-- The failures in a row at the end of the calls, `n` of them before the first call.
abbrev pub streak : ℕ → List Call → ℕ
streak n [] = n
streak n (try_allow now ∷ cs) = streak n cs
streak n (success ∷ cs) = streak 0 cs
streak n (failure now ∷ cs) = streak (suc n) cs

-- No `m` failures in a row on the way.
abbrev pub StaysBelow : ℕ → ℕ → List Call → Type 0
StaysBelow m n [] = n < m
StaysBelow m n (try_allow now ∷ cs) = StaysBelow m n cs
StaysBelow m n (success ∷ cs) = StaysBelow m 0 cs
StaysBelow m n (failure now ∷ cs) = (suc n < m) × StaysBelow m (suc n) cs

failure-IsCounting :
    (m n : ℕ) (b : Breaker) (now : ℤ)
    → m < 2 ^ 63
    → suc n < m
    → IsCounting m n b
    → IsCounting m (suc n) (apply b (failure now))
unfolding apply
failure-IsCounting m n b now small low c = ground arith

run-IsCounting :
    (m n : ℕ) (b : Breaker) (cs : List Call)
    → m < 2 ^ 63
    → StaysBelow m n cs
    → IsCounting m n b
    → IsCounting m (streak n cs) (run b cs)
unfolding run
run-IsCounting m n b [] small h c = c
run-IsCounting m n b (try_allow now ∷ cs) small h c =
    run-IsCounting m n (apply b (try_allow now)) cs small h (unfold apply in ground arith)
run-IsCounting m n b (success ∷ cs) small h c =
    run-IsCounting m 0 (apply b success) cs small h (unfold apply in ground arith)
run-IsCounting m n b (failure now ∷ cs) small h c =
    run-IsCounting m (suc n) (apply b (failure now)) cs small h.1
      (failure-IsCounting m n b now small h.0 c)

streak-lt : (m n : ℕ) (cs : List Call) → StaysBelow m n cs → streak n cs < m
streak-lt m n [] h = h
streak-lt m n (try_allow now ∷ cs) h = streak-lt m n cs h
streak-lt m n (success ∷ cs) h = streak-lt m 0 cs h
streak-lt m n (failure now ∷ cs) h = streak-lt m (suc n) cs h.1

pub run-append : (b : Breaker) (cs ds : List Call) → run b (cs ++ ds) ≡ run (run b cs) ds
unfolding run
run-append b [] ds = refl
run-append b (c ∷ cs) ds = run-append (apply b c) cs ds

last_failure :
    (m n : ℕ) (b : Breaker) (now : ℤ)
    → m < 2 ^ 63
    → n < m
    → IsCounting m n b
    → (apply b (failure now)).state ≡ (if leb m (suc n) then open_ else closed)
unfolding apply
last_failure m n b now small low c = ground arith

-- A new breaker with a threshold `m` below 2^63 is closed after calls in which no `m` failures came in
-- a row; a failure after them opens it exactly when it is the `m`-th in a row.
pub trips_exactly :
    (m : ℕ) (timeout now : ℤ) (cs : List Call)
    → m < 2 ^ 63
    → StaysBelow m 0 cs
    → ((run (new_breaker (pos m) timeout) cs).state ≡ closed)
      × ((run (new_breaker (pos m) timeout) (cs ++ failure now ∷ [])).state
          ≡ (if leb m (suc (streak 0 cs)) then open_ else closed))
trips_exactly m timeout now cs small h =
    let b : Breaker = new_breaker (pos m) timeout in
    let c : IsCounting m (streak 0 cs) (run b cs) =
      run-IsCounting m 0 b cs small h (unfold new_breaker in ground arith) in
    (
      c.shut,
      rw (run-append b cs (failure now ∷ []))
          (unfold run in last_failure m (streak 0 cs) (run b cs) now small (streak-lt m 0 cs h) c),
    )
