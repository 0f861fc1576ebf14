-- ===== src/Tests/Balancing.antt =====
-- Runs of the circuit breaker, the load balancer, the health checker and the proxy.
use go_api_gateway.Prelude.{
  ◌≡◌, refl, Bool, true, false, List, [], ◌∷◌, ◌++◌, pos, Text, codes, if◌then◌else◌, leb, suc,
  arith, here, there, ite, text_eq, get_elem?, ◌+◌, ◌%◌,
}
use mathlib.Core.Option
use go_api_gateway.Breaker.{open_, closed, new_breaker, failure, success, run}
use go_api_gateway.Breaker.Trips.{trips_exactly, streak}
use go_api_gateway.RoundRobin.{RoundRobin, chosen, next, next_among, err_no_healthy}
use go_api_gateway.RoundRobin.Search.{IsChosen, next_complete}
use go_api_gateway.RoundRobin.Rotation.{calls, calls_rotate, disturbed_misses}
use go_api_gateway.Health.{
  Checker, Probe, new_checker, is_healthy, start, is_up, answered, no_response,
}
use go_api_gateway.Health.Passes.{Finished, start_lem}

trips_exactly_example :
    ((run (new_breaker (pos 2) (pos 30)) (failure (pos 1) ∷ success ∷ failure (pos 2) ∷ [])).state
      ≡ closed)
    × ((run
          (new_breaker (pos 2) (pos 30))
          ((failure (pos 1) ∷ success ∷ failure (pos 2) ∷ []) ++ failure (pos 3) ∷ [])).state
        ≡ (if leb 2 (suc (streak 0 (failure (pos 1) ∷ success ∷ failure (pos 2) ∷ [])))
            then open_
            else closed))
trips_exactly_example =
    trips_exactly 2 (pos 30) (pos 3) (failure (pos 1) ∷ success ∷ failure (pos 2) ∷ [])
      (omega arith) (omega arith, (omega arith, omega arith))

abbrev left : Text
left = codes "http://a"

abbrev right : Text
right = codes "http://b"

abbrev only_right : Text → Bool
only_right u = ite (text_eq u right) true false

abbrev balanced : RoundRobin
balanced = record { urls = left ∷ right ∷ []; counter = 4 }

next_complete_example : IsChosen (next only_right balanced).1
unfolding text_eq
next_complete_example = next_complete only_right balanced (omega arith) (there (here refl))

calls_rotate_example :
    get_elem? (calls (λ u. true) 3 balanced) 1
    ≡ Option.map chosen (get_elem? (left ∷ right ∷ []) ((4 + 1) % 2))
calls_rotate_example =
    calls_rotate (λ u. true) 3 1 balanced (omega arith) (omega arith) (omega arith)
      (refl, (refl, tt))

disturbed_misses_example :
    (next_among only_right (record { urls = left ∷ right ∷ []; counter = 4 }) (0 ∷ 1 ∷ [])).1
    ≡ err_no_healthy
unfolding text_eq
disturbed_misses_example = disturbed_misses only_right left right 2 refl refl (omega arith)

abbrev outcome_of : Text → Probe
outcome_of u = if only_right u then answered 200 else no_response

abbrev checker : Checker
checker = new_checker (left ∷ right ∷ []) (pos 5) (codes "/health")

-- The goroutines end in the other order.
abbrev done : List (Text × Probe)
done = (right, answered 200) ∷ (left, no_response) ∷ []

done-Finished : Finished outcome_of (left ∷ right ∷ []) done
unfolding text_eq
done-Finished = record {
  results = (refl, (refl, tt));
  complete = (there (here refl), (here refl, tt));
}

start_lem_example :
    is_healthy (start checker (((right, no_response) ∷ []) ∷ done ∷ [])) right
    ≡ is_up (outcome_of right)
unfolding new_checker
start_lem_example =
    start_lem outcome_of (((right, no_response) ∷ []) ∷ []) checker done right done-Finished
      (there (here refl))
