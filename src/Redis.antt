-- ===== src/Redis.antt =====
-- internal/ratelimit/redis.go: the token bucket that gateway processes share in Redis, with its Lua
-- script. Redis runs a script alone and drops a key when its time is over. A float64 rate is a
-- fraction `num / den` of tokens per second, and the tokens are counted in units of 1/(1000 * den),
-- so that a millisecond adds `num` units; the rounding of Lua's floats is not modelled.
pub mod Bound
pub mod Expiry
pub mod Skew
use go_api_gateway.Prelude.{
  ℕ, suc, ◌+◌, ◌-◌, ◌*◌, ◌/◌, ◌<◌, Bool, true, false, Option, none, some, List, [], ◌∷◌, ◌++◌, ltb,
  leb, if◌then◌else◌, Text,
}
use go_api_gateway.Prelude.Dict.{Dict, find, put}

-- The arguments of `NewRedisLimiter`.
pub record RedisLimiter : Type 0 where
  pub prefix : Text
  pub num : ℕ
  pub den : ℕ
  pub burst : ℕ

-- The units of one token, and of a full bucket.
abbrev pub one_token : RedisLimiter → ℕ
one_token rl = 1000 * rl.den

abbrev pub full : RedisLimiter → ℕ
full rl = rl.burst * one_token rl

-- The hash of a key, with the time at which Redis drops it.
pub record Bucket : Type 0 where
  pub tokens : ℕ
  pub ts : ℕ
  pub expires_at : ℕ

-- `HMGET`, with the defaults of the script: the tokens and the time of the last call.
abbrev pub tokens_or : RedisLimiter → Option Bucket → ℕ
tokens_or rl none = full rl
tokens_or rl (some b) = b.tokens

abbrev pub last_or : ℕ → Option Bucket → ℕ
last_or now_ms none = now_ms
last_or now_ms (some b) = b.ts

abbrev pub min : ℕ → ℕ → ℕ
min a b = if leb a b then a else b

-- `math.min(burst, tokens + elapsed * rate)`; `math.max(0, now_ms - last)` is what `-` computes.
unfoldable pub refill : RedisLimiter → ℕ → Option Bucket → ℕ
refill rl now_ms b = min (full rl) (tokens_or rl b + (now_ms - last_or now_ms b) * rl.num)

-- `math.ceil(burst / rate * 1000) + 1000`.
unfoldable pub ttl_ms : RedisLimiter → ℕ
ttl_ms rl = (full rl + rl.num - 1) / rl.num + 1000

-- The script. `clock` is the time of the Redis server, from which `PEXPIRE` counts; `now_ms` is that
-- of the gateway.
unfoldable pub run_script : RedisLimiter → ℕ → ℕ → Option Bucket → Bucket × Bool
run_script rl now_ms clock b =
    let tokens : ℕ = refill rl now_ms b in
    let expires_at : ℕ = clock + ttl_ms rl in
    if leb (one_token rl) tokens
    then (record { tokens = tokens - one_token rl; ts = now_ms; expires_at = expires_at }, true)
    else (record { tokens = tokens; ts = now_ms; expires_at = expires_at }, false)

-- What Redis still has of a bucket.
abbrev pub unexpired : ℕ → Option Bucket → Option Bucket
unexpired clock none = none
unexpired clock (some b) = if leb b.expires_at clock then none else some b

-- `Allow` where Redis answers.
unfoldable pub allow : RedisLimiter → ℕ → ℕ → Text → Dict Bucket → Dict Bucket × Bool
allow rl now_ms clock key store =
    let k = rl.prefix ++ key in
    let (b, allowed) = run_script rl now_ms clock (unexpired clock (find k store)) in
    (put k b store, allowed)

-- The decisions on one bucket, which unlike that of `allow` is never dropped, of calls at the given times.
unfoldable pub decisions : RedisLimiter → Option Bucket → List ℕ → List Bool
decisions rl b [] = []
decisions rl b (now_ms ∷ times) =
    let (b', allowed) = run_script rl now_ms now_ms b in allowed ∷ decisions rl (some b') times

abbrev pub count_true : List Bool → ℕ
count_true [] = 0
count_true (true ∷ bs) = suc (count_true bs)
count_true (false ∷ bs) = count_true bs
