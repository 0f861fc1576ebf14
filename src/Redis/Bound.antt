-- ===== src/Redis/Bound.antt =====
-- How much the bucket of internal/ratelimit/redis.go lets through.
use native.Mathlib.Nat.{add-mul}
use go_api_gateway.Prelude.{
  ℕ, ◌+◌, ◌-◌, ◌*◌, ◌≤◌, ◌≡◌, refl, Bool, true, false, Option, none, some, List, [], ◌∷◌,
  if◌then◌else◌, arith, ap, ap₂, subst, sym, ◌∙◌, ◌<◌, ◌++◌, Text,
}
use go_api_gateway.Prelude.Dict.{Dict, find}
use go_api_gateway.Redis.Expiry.{IsTimed, answers_for, times_of, answers_for-decisions}
use go_api_gateway.Redis.{
  RedisLimiter, one_token, full, Bucket, refill, run_script, decisions, count_true,
}

-- The times do not go back, from `t` on.
abbrev pub IsMonotone : ℕ → List ℕ → Type 0
IsMonotone t [] = Unit
IsMonotone t (now ∷ times) = (t ≤ now) × IsMonotone now times

abbrev pub last_time : ℕ → List ℕ → ℕ
last_time t [] = t
last_time t (now ∷ times) = last_time now times

le-last_time : (t : ℕ) (times : List ℕ) → IsMonotone t times → t ≤ last_time t times
le-last_time t [] m = omega arith
le-last_time t (now ∷ times) (after, m) = omega (arith, le-last_time now times m)

add_spans : (c b a k : ℕ) → b ≤ c → a ≤ b → (c - a) * k ≡ (c - b) * k + (b - a) * k
add_spans c b a k h l =
    let e : c - a ≡ (c - b) + (b - a) = omega arith in ap (λ x. x * k) e ∙ add-mul (c - b) (b - a) k

module _ (rl : RedisLimiter) where
  -- What a call takes and leaves is at most what was there and what the time has added.
  script_budget :
      (now clock : ℕ) (b : Bucket)
      → (if (run_script rl now clock (some b)).1 then one_token rl else 0)
          + (run_script rl now clock (some b)).0.tokens
        ≤ b.tokens + (now - b.ts) * rl.num
  unfolding run_script refill
  script_budget now clock b = ground arith

  pub script_ts : (now clock : ℕ) (b : Option Bucket) → (run_script rl now clock b).0.ts ≡ now
  unfolding run_script
  script_ts now clock b = ground arith

  count_cons :
      (a : Bool) (bs : List Bool)
      → count_true (a ∷ bs) * one_token rl
        ≡ (if a then one_token rl else 0) + count_true bs * one_token rl
  count_cons true bs = grind arith
  count_cons false bs = omega arith

  decisions_budget :
      (times : List ℕ) (b : Bucket)
      → IsMonotone b.ts times
      → count_true (decisions rl (some b) times) * one_token rl
        ≤ b.tokens + (last_time b.ts times - b.ts) * rl.num
  unfolding decisions
  decisions_budget [] b m = omega arith
  decisions_budget (now ∷ times) b (after, m) =
      let b' : Bucket = (run_script rl now now (some b)).0 in
      let allowed : Bool = (run_script rl now now (some b)).1 in
      let ts' : b'.ts ≡ now = script_ts now now (some b) in
      let later : count_true (decisions rl (some b') times) * one_token rl
          ≤ b'.tokens + (last_time now times - now) * rl.num =
        subst
          (λ t.
            count_true (decisions rl (some b') times) * one_token rl
            ≤ b'.tokens + (last_time t times - t) * rl.num)
          ts' (decisions_budget times b' (subst (λ t. IsMonotone t times) (sym ts') m)) in
      let here_ = script_budget now now b in
      let total = count_cons allowed (decisions rl (some b') times) in
      let span = add_spans (last_time now times) now b.ts rl.num (le-last_time now times m) after in
      omega arith

  -- A bucket that is not there is a full one.
  abbrev pub new_bucket : ℕ → Bucket
  new_bucket now = record { tokens = full rl; ts = now; expires_at = 0 }

  pub run_script_new :
      (now clock : ℕ)
      → run_script rl now clock none ≡ run_script rl now clock (some (new_bucket now))
  unfolding run_script refill
  run_script_new now clock = ground arith

  decisions_new :
      (now : ℕ) (times : List ℕ)
      → decisions rl none (now ∷ times) ≡ decisions rl (some (new_bucket now)) (now ∷ times)
  unfolding decisions
  decisions_new now times =
      ap (λ (p : Bucket × Bool). p.1 ∷ decisions rl (some p.0) times) (run_script_new now now)

  decisions_bounded :
      (first : ℕ) (times : List ℕ)
      → IsMonotone first times
      → count_true (decisions rl none (first ∷ times)) * one_token rl
        ≤ full rl + (last_time first times - first) * rl.num
  decisions_bounded first times m =
      subst (λ x. count_true x * one_token rl ≤ full rl + (last_time first times - first) * rl.num)
        (sym (decisions_new first times))
        (subst
          (λ x.
            count_true (decisions rl (some (new_bucket first)) (first ∷ times)) * one_token rl
            ≤ full rl + x * rl.num)
          refl (decisions_budget (first ∷ times) (new_bucket first) (omega arith, m)))

  -- A key starts without a bucket, the rate is positive, and the gateways and Redis go by one clock,
  -- which does not go back from one call for the key to the next. Then, with Redis dropping keys as they
  -- expire and calls for other keys in between, the tokens that the calls get are at most the
  -- burst and what the rate adds between the first call and the last.
  pub allowed_bounded :
      (positive : 0 < rl.num) (k : Text) (store : Dict Bucket) (calls : List (Text × ℕ)) (first : ℕ)
      (times : List ℕ)
      → find (rl.prefix ++ k) store ≡ none
      → times_of rl positive k calls ≡ first ∷ times
      → IsMonotone first times
      → count_true (answers_for rl positive k store calls) * one_token rl
        ≤ full rl + (last_time first times - first) * rl.num
  allowed_bounded positive k store calls first times fresh asks m =
      let kept : answers_for rl positive k store calls ≡ decisions rl none (first ∷ times) =
        answers_for-decisions rl positive k store calls (subst (IsTimed rl positive) (sym fresh) tt)
        ∙ ap₂ (decisions rl) fresh asks in
      subst (λ x. count_true x * one_token rl ≤ full rl + (last_time first times - first) * rl.num)
        (sym kept) (decisions_bounded first times m)
