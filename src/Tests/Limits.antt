-- ===== src/Tests/Limits.antt =====
-- Runs of the limiters, of the semaphore of requests and of the eviction.
use go_api_gateway.Prelude.{
  ℕ, suc, List, Text, if◌then◌else◌, ◌+◌, ◌-◌, ◌-ℤ◌, true, ◌*◌, ◌≤◌, ◌≡◌, refl, false, some, [],
  ◌∷◌, pos, length, ltb, text_eq, codes, arith, here, there,
}
use go_api_gateway.Prelude.Dict.{find, put, delete}
use go_api_gateway.Redis.{RedisLimiter, Bucket, one_token, full, decisions, count_true}
use go_api_gateway.Redis.Bound.{last_time, allowed_bounded}
use go_api_gateway.Redis.Expiry.{answers_for, times_of, answers_for-decisions}
use go_api_gateway.Redis.Skew.{in_turn, skewed_clocks_refill}
use go_api_gateway.Http.{write_header}
use go_api_gateway.Tests.Edges.{request}
use go_api_gateway.Middleware.{Panicky, returned, overloaded, concurrency_limit, acquire}
use go_api_gateway.Middleware.Semaphore.{Server, Reach, start, next, enter, shed, in_flight_bounded}
use go_api_gateway.RateLimit.Racing
use go_api_gateway.RateLimit.Racing.{one_limiter, advance, asked, sweep}
use go_api_gateway.Lru.{exceeds, evict, evict_entries, evict_bytes, new_lru, set, Lru, Entry}
use go_api_gateway.Lru.Invariant.{IsValid, set-IsValid, new_lru-IsValid}
use go_api_gateway.Lru.Termination.{evict_terminates}

-- Two tokens each second, and three at once.
abbrev two_per_second : RedisLimiter
two_per_second = record { prefix = codes "svc:a:"; num = 2; den = 1; burst = 3 }

abbrev empty_bucket : Bucket
empty_bucket = record { tokens = 0; ts = 1000; expires_at = 3500 }

-- Four at once, one for another key, and one when the bucket has been dropped.
abbrev asks : List (Text × ℕ)
asks =
    (codes "k", 100)
    ∷ (codes "k", 100)
    ∷ (codes "j", 100)
    ∷ (codes "k", 100)
    ∷ (codes "k", 100)
    ∷ (codes "k", 9000)
    ∷ []

allowed_bounded_example :
    count_true (answers_for two_per_second (omega arith) (codes "k") [] asks)
      * one_token two_per_second
    ≤ full two_per_second + (last_time 100 (100 ∷ 100 ∷ 100 ∷ 9000 ∷ []) - 100) * two_per_second.num
unfolding find text_eq
allowed_bounded_example =
    allowed_bounded two_per_second (omega arith) (codes "k") [] asks 100
      (100 ∷ 100 ∷ 100 ∷ 9000 ∷ []) refl refl
      (omega arith, (omega arith, (omega arith, (omega arith, tt))))

answers_for-decisions_example :
    answers_for two_per_second
      (omega arith)
      (codes "k")
      []
      ((codes "k", 100) ∷ (codes "j", 100) ∷ (codes "k", 9000) ∷ [])
    ≡ decisions two_per_second (find (codes "svc:a:k") []) (
        times_of two_per_second
          (omega arith)
          (codes "k")
          ((codes "k", 100) ∷ (codes "j", 100) ∷ (codes "k", 9000) ∷ []))
unfolding find
answers_for-decisions_example =
    answers_for-decisions two_per_second (omega arith) (codes "k") []
      ((codes "k", 100) ∷ (codes "j", 100) ∷ (codes "k", 9000) ∷ []) tt

skewed_clocks_refill_example :
    50 ≤ count_true (decisions two_per_second (some empty_bucket) (in_turn 1000 500 50))
skewed_clocks_refill_example =
    skewed_clocks_refill two_per_second 50 1000 500 empty_bucket (omega arith) (omega arith) refl

-- One request is inside, and one is shed.
abbrev busy : Server
busy = record { slots = 1; inside = 7 ∷ [] }

busy_reached : Reach 1 busy
unfolding acquire
busy_reached = next (next start (enter 7 refl)) (shed 8 refl)

-- The handler behind counts its requests.
abbrev behind : Panicky ℕ
behind r n = (returned (write_header 204 ∷ []), suc n)

in_flight_bounded_example :
    (length busy.inside ≤ 1)
    × (concurrency_limit (pos 1) busy.slots behind request 5
        ≡ (if ltb (length busy.inside) 1 then behind request 5 else (returned overloaded, 5)))
in_flight_bounded_example = in_flight_bounded behind request 5 (omega arith) busy_reached

-- Two calls for a key that nobody has seen: both miss, and the second takes the limiter of the first.
abbrev raced : Racing.System
raced = record {
  shared = record {
    entries = (codes "k", record { place = 0; last_seen = pos 1 }) ∷ [];
    places = 2;
  };
  calls =
      record { key = codes "k"; progress = asked 0 }
      ∷ record { key = codes "k"; progress = asked 0 }
      ∷ [];
}

abbrev call : Racing.Progress → Racing.Call
call progress = record { key = codes "k"; progress = progress }

abbrev missing : ℕ → Racing.Call
missing place = call (Racing.missed (record { place = place; last_seen = pos 1 }))

raced_reached : Racing.Reach false (pos 60) raced
unfolding advance find put text_eq
raced_reached =
    let both =
      Racing.next (Racing.next Racing.start (Racing.begin (codes "k")))
        (Racing.begin (codes "k")) in
    let one_missed =
      Racing.next both
        (Racing.step [] (call Racing.loading ∷ []) (call Racing.loading) (pos 1) refl) in
    let both_missed =
      Racing.next one_missed (Racing.step (missing 0 ∷ []) [] (call Racing.loading) (pos 1) refl) in
    let stored =
      Racing.next both_missed (Racing.step [] (missing 1 ∷ []) (missing 0) (pos 1) refl) in
    let taken =
      Racing.next stored (Racing.step (call (Racing.asking 0) ∷ []) [] (missing 1) (pos 1) refl) in
    let one_asked =
      Racing.next taken
        (Racing.step [] (call (Racing.asking 0) ∷ []) (call (Racing.asking 0)) (pos 1) refl) in
    Racing.next one_asked
      (Racing.step (call (asked 0) ∷ []) [] (call (Racing.asking 0)) (pos 1) refl)

one_limiter_example : ◌≡◌ {A = ℕ} 0 0
one_limiter_example = one_limiter (codes "k") 0 0 raced_reached (here refl) (there (here refl))

-- A cleanup between the `Load` and the `Store` of a call: the limiter that was dropped comes back, while
-- another call has asked a new one.
abbrev split : Racing.System
split = record {
  shared = record {
    entries = (codes "k", record { place = 0; last_seen = pos 100 }) ∷ [];
    places = 2;
  };
  calls = call (asked 1) ∷ call (asked 0) ∷ call (asked 0) ∷ [];
}

abbrev at_hundred : Racing.Call
at_hundred = call (Racing.missed (record { place = 1; last_seen = pos 100 }))

split_reached : Racing.Reach true (pos 60) split
unfolding advance sweep find put delete text_eq ◌-ℤ◌
split_reached =
    let begun = Racing.next Racing.start (Racing.begin (codes "k")) in
    let made = Racing.next begun (Racing.step [] [] (call Racing.loading) (pos 1) refl) in
    let stored = Racing.next made (Racing.step [] [] (missing 0) (pos 1) refl) in
    let used = Racing.next stored (Racing.step [] [] (call (Racing.asking 0)) (pos 1) refl) in
    let old = call (asked 0) ∷ [] in
    let found =
      Racing.next (Racing.next used (Racing.begin (codes "k")))
        (Racing.step [] old (call Racing.loading) (pos 1) refl) in
    let swept = Racing.next found (Racing.clean refl (codes "k") (pos 100)) in
    let held = call (Racing.found 0) ∷ old in
    let other =
      Racing.next (Racing.next swept (Racing.begin (codes "k")))
        (Racing.step [] held (call Racing.loading) (pos 100) refl) in
    let new =
      Racing.next (Racing.next other (Racing.step [] held at_hundred (pos 100) refl))
        (Racing.step [] held (call (Racing.asking 1)) (pos 100) refl) in
    let before = call (asked 1) ∷ [] in
    Racing.next (Racing.next new (Racing.step before old (call (Racing.found 0)) (pos 100) refl))
      (Racing.step before old (call (Racing.asking 0)) (pos 100) refl)

abbrev page : Entry
page = record { status = 200; header = []; body = codes "page"; etag = []; expires_at = pos 50 }

-- Two entries, under a bound of one.
abbrev two_pages : Lru
two_pages = set (set (new_lru (pos 2) (pos 100)) (codes "a") page) (codes "b") page

abbrev overfull : Lru
overfull = record two_pages { max_entries = pos 1 }

overfull-IsValid : IsValid overfull
overfull-IsValid =
    let v = set-IsValid (set (new_lru (pos 2) (pos 100)) (codes "a") page) (codes "b") page (
      set-IsValid (new_lru (pos 2) (pos 100)) (codes "a") page
        (new_lru-IsValid (pos 2) (pos 100))) in
    record { agree = v.agree; keys = v.keys; ids = v.ids; fresh = v.fresh; counted = v.counted }

length-overfull : length overfull.order ≡ 2
unfolding set find put delete text_eq new_lru
length-overfull = refl

length-evicted : length (evict_entries 5 overfull).order ≡ 1
unfolding set find put delete text_eq evict_entries new_lru
length-evicted = refl

evict_terminates_example :
    (evict_bytes 9 (evict_entries 5 overfull) ≡ evict overfull)
    × (exceeds (pos 1) (pos (length (evict_entries 5 overfull).order)) ≡ false)
    × (exceeds (evict_entries 5 overfull).max_bytes (evict overfull).bytes ≡ false)
evict_terminates_example =
    evict_terminates overfull 5 9 overfull-IsValid (rw length-overfull (omega arith))
      (rw length-evicted (omega arith))
