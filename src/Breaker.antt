-- ===== src/Breaker.antt =====
-- internal/circuitbreaker/breaker.go: the circuit breaker of one upstream. Instants are nanoseconds
-- of the monotonic clock and are passed in; the mutex makes each method one step.
pub mod Trips
pub mod Recovery
use go_api_gateway.Prelude.{
  ℕ, suc, ◌+◌, Bool, true, false, ◌||◌, Option, none, some, List, [], ◌∷◌, if◌then◌else◌, ℤ, pos,
  leb_ℤ, ◌+ℤ◌, ◌-ℤ◌, wrap64, Text, codes,
}

pub data State : Type 0 where
  closed open_ half_open : State

-- `ErrOpen` is the only error.
pub data Err : Type 0 where
  err_open : Err

pub record Breaker : Type 0 where
  pub state : State
  pub failures : ℤ  -- int
  pub max_failures : ℤ  -- int
  pub timeout : ℤ
  pub opened_at : ℤ

-- The zero `time.Time` of `opened_at` is read only after a failure has set it.
unfoldable pub new_breaker : ℤ → ℤ → Breaker
new_breaker max_failures timeout = record {
  state = closed;
  failures = pos 0;
  max_failures = max_failures;
  timeout = timeout;
  opened_at = pos 0;
}

allow_in : State → ℤ → Breaker → Breaker × Option Err
unfolding ◌-ℤ◌
allow_in open_ now b =
    if leb_ℤ b.timeout (now -ℤ b.opened_at)
    then (record b { state = half_open }, none)
    else (b, some err_open)
allow_in half_open now b = (b, some err_open)
allow_in closed now b = (b, none)

unfoldable pub allow : Breaker → ℤ → Breaker × Option Err
unfolding allow_in
allow b now = allow_in b.state now b

abbrev pub is_half_open : State → Bool
is_half_open half_open = true
is_half_open _ = false

unfoldable pub record_success : Breaker → Breaker
record_success b =
    let b' = record b { failures = pos 0 } in
    if is_half_open b.state then record b' { state = closed } else b'

unfoldable pub record_failure : Breaker → ℤ → Breaker
unfolding ◌+ℤ◌ wrap64
record_failure b now =
    let b' = record b { failures = wrap64 (b.failures +ℤ pos 1) } in
    if is_half_open b'.state || leb_ℤ b'.max_failures b'.failures
    then record b' { state = open_; opened_at = now }
    else b'

state_name_of : State → Text
state_name_of open_ = codes "open"
state_name_of half_open = codes "half-open"
state_name_of closed = codes "closed"

unfoldable pub state_name : Breaker → Text
unfolding state_name_of
state_name b = state_name_of b.state

-- A call of one of the three methods that change the state.
pub data Call : Type 0 where
  try_allow : (now : ℤ) → Call
  success : Call
  failure : (now : ℤ) → Call

unfoldable pub apply : Breaker → Call → Breaker
unfolding allow record_success record_failure
apply b (try_allow now) = (allow b now).0
apply b success = record_success b
apply b (failure now) = record_failure b now

unfoldable pub run : Breaker → List Call → Breaker
run b [] = b
run b (c ∷ cs) = run (apply b c) cs

abbrev count_none : Option Err → ℕ → ℕ
count_none none n = suc n
count_none (some _) n = n

-- How many of the calls were admitted by `Allow`.
unfoldable pub admitted : Breaker → List Call → ℕ
admitted b [] = 0
admitted b (try_allow now ∷ cs) = count_none (allow b now).1 (admitted (apply b (try_allow now)) cs)
admitted b (success ∷ cs) = admitted (apply b success) cs
admitted b (failure now ∷ cs) = admitted (apply b (failure now)) cs
