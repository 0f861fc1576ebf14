-- ===== src/Redis/Skew.antt =====
-- internal/ratelimit/redis.go with gateways whose clocks differ: the script stores the time of
-- whichever gateway asked last, also when that takes the bucket's time back.
use go_api_gateway.Prelude.{
  ℕ, zero, suc, ◌+◌, ◌-◌, ◌*◌, ◌≤◌, ◌≡◌, Bool, true, false, some, List, [], ◌∷◌, arith,
}
use go_api_gateway.Redis.Bound.{script_ts}
use go_api_gateway.Redis.{
  RedisLimiter, one_token, full, Bucket, refill, run_script, decisions, count_true,
}

-- Two gateways ask in turn, the first by a clock that is `ahead` of the other's.
abbrev pub in_turn : ℕ → ℕ → ℕ → List ℕ
in_turn t ahead zero = []
in_turn t ahead (suc n) = (t + ahead) ∷ t ∷ in_turn t ahead n

count_true-tail : (a : Bool) (bs : List Bool) → count_true bs ≤ count_true (a ∷ bs)
count_true-tail true bs = omega arith
count_true-tail false bs = omega arith

module _ (rl : RedisLimiter) where
  turn :
      (t ahead : ℕ) (b : Bucket)
      → 1 ≤ rl.burst
      → one_token rl ≤ ahead * rl.num
      → b.ts ≡ t
      → (run_script rl (t + ahead) (t + ahead) (some b)).1 ≡ true
  unfolding run_script refill
  turn t ahead b some_burst wide e =
      let room : one_token rl ≤ full rl = grind arith in
      let span : t + ahead - b.ts ≡ ahead = omega arith in rw span (ground arith)

  -- With a burst of one token at least, and from a bucket that was last asked by the clock that is
  -- behind, two gateway processes whose clocks differ by the time of one token or more and that ask in
  -- turn while no time passes get a token at every second call, without end.
  pub skewed_clocks_refill :
      (n t ahead : ℕ) (b : Bucket)
      → 1 ≤ rl.burst
      → one_token rl ≤ ahead * rl.num
      → b.ts ≡ t
      → n ≤ count_true (decisions rl (some b) (in_turn t ahead n))
  unfolding decisions
  skewed_clocks_refill zero t ahead b some_burst wide e = omega arith
  skewed_clocks_refill (suc n) t ahead b some_burst wide e =
      let first = run_script rl (t + ahead) (t + ahead) (some b) in
      let second = run_script rl t t (some first.0) in
      let granted = turn t ahead b some_burst wide e in
      let rest = in_turn t ahead n in
      let later =
        skewed_clocks_refill n t ahead second.0 some_burst wide (script_ts rl t t (some first.0)) in
      rw granted
        (omega (arith, later, count_true-tail second.1 (decisions rl (some second.0) rest)))
