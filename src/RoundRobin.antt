-- ===== src/RoundRobin.antt =====
-- internal/loadbalancer/roundrobin.go: round robin over the healthy upstreams. The counter is an
-- atomic uint64 that concurrent calls of `Next` share: other calls may add to it between two
-- attempts, and `foreign` lists how often they do before each attempt.
pub mod Search
pub mod Rotation
use go_api_gateway.Prelude.{
  ℕ, ◌+◌, ◌%◌, ◌^◌, ◌-◌, Bool, Option, none, some, List, [], ◌∷◌, if◌then◌else◌, Text, length,
  get_elem?, replicate,
}

pub record RoundRobin : Type 0 where
  pub urls : List Text
  pub counter : ℕ  -- uint64

unfoldable pub new_round_robin : List Text → RoundRobin
new_round_robin urls = record { urls = urls; counter = 0 }

-- `out_of_range` stands for the panic of an index past the end.
pub data Choice : Type 0 where
  chosen : Text → Choice
  err_no_healthy : Choice
  out_of_range : Choice

-- `counter.Add(d)`: the value that it returns is the value that it stores.
abbrev pub add64 : ℕ → ℕ → ℕ
add64 c d = (c + d) % 2 ^ 64

-- What an attempt does with `urls[i % attempts]`; `later` are the attempts that follow.
abbrev pub attempt : (Text → Bool) → ℕ → Option Text → ℕ × Choice → ℕ × Choice
attempt healthy c none later = (c, out_of_range)
attempt healthy c (some url) later = if healthy url then (c, chosen url) else later

-- The loop of `Next`: an attempt for each entry of `foreign`.
unfoldable pub next_loop : (Text → Bool) → List Text → List ℕ → ℕ → ℕ × Choice
next_loop healthy urls [] c = (c, err_no_healthy)
next_loop healthy urls (d ∷ foreign) c =
    let c' : ℕ = add64 (add64 c d) 1 in
    let i : ℕ = (c' + 2 ^ 64 - 1) % 2 ^ 64 in
    let later = next_loop healthy urls foreign c' in
    attempt healthy c' (get_elem? urls (i % length urls)) later

-- `Next` while other calls add to the counter as `foreign` says.
unfoldable pub next_among : (Text → Bool) → RoundRobin → List ℕ → RoundRobin × Choice
unfolding next_loop
next_among healthy rr foreign =
    let (c, choice) = next_loop healthy rr.urls foreign rr.counter in
    (record rr { counter = c }, choice)

-- `Next` while no other call runs.
unfoldable pub next : (Text → Bool) → RoundRobin → RoundRobin × Choice
unfolding next_among
next healthy rr = next_among healthy rr (replicate (length rr.urls) 0)
