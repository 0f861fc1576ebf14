-- ===== src/Proxy/Overlap/Stale.antt =====
-- What an answer that comes late does to a breaker of internal/proxy/proxy.go: `RecordSuccess` and
-- `RecordFailure` of internal/circuitbreaker/breaker.go do not know which request they are for.
use go_api_gateway.Prelude.{
  ℕ, ◌≡◌, refl, Bool, true, false, none, some, List, [], ◌∷◌, ℤ, pos, Text, leb, get_elem?,
}
use go_api_gateway.Prelude.Dict.{find, put, find-put_self}
use go_api_gateway.Http.{Action}
use go_api_gateway.Breaker.{Breaker, closed, half_open, allow, record_success}
use go_api_gateway.RoundRobin.{chosen, next}
use go_api_gateway.Proxy.{response, settle}
use go_api_gateway.Proxy.Overlap.{admit, complete, System, arrive, finish, remove_at, step, run}

-- The breaker as it is after the first success that it hears of.
abbrev pub recovered : Breaker → Breaker
recovered b = record b { state = closed; failures = pos 0 }

module _ (parses : Text → Bool) (u : Text) (good : parses u ≡ true) where
  record_success-recovered : (b : Breaker) → b.state ≡ half_open → record_success b ≡ recovered b
  unfolding record_success
  record_success-recovered b half = rw half refl

  allow-closed : (b : Breaker) (now : ℤ) → b.state ≡ closed → allow b now ≡ (b, none)
  unfolding allow
  allow-closed b now is_closed = rw is_closed refl

  finish-half_open :
      (s : System) (b : Breaker) (i status : ℕ) (actions : List Action) (now : ℤ)
      → find u s.handler.breakers ≡ some b
      → b.state ≡ half_open
      → get_elem? s.in_flight i ≡ some u
      → leb 500 status ≡ false
      → (step parses s (finish i (response status actions) now)).0 ≡ record {
        handler = record s.handler { breakers = put u (recovered b) s.handler.breakers };
        in_flight = remove_at i s.in_flight;
      }
  unfolding step complete settle
  finish-half_open s b i status actions now at_u half at_i low =
      rw (at_i, good, at_u, low, record_success-recovered b half) refl

  arrive-closed :
      (s : System) (b : Breaker) (healthy : Text → Bool) (now : ℤ)
      → find u s.handler.breakers ≡ some b
      → b.state ≡ closed
      → (next healthy s.handler.lb).1 ≡ chosen u
      → (step parses s (arrive healthy now)).0.in_flight ≡ u ∷ s.in_flight
  unfolding step admit
  arrive-closed s b healthy now at_u is_closed picked =
      rw (picked, at_u, allow-closed b now is_closed) refl

  -- The breaker of upstream `u` is half-open, `u` parses as a URL, and the flight at index `i` is at
  -- `u`, whichever of the flights there it is. Its answer, of a status under 500, closes the breaker
  -- with no failures and leaves the other flights in flight, the test request among them if the
  -- answer is not its own; and when the balancer picks `u` for the next request, that one is
  -- forwarded too.
  pub late_success_reopens :
      (s : System) (b : Breaker) (i status : ℕ) (actions : List Action) (healthy : Text → Bool)
      (now then_ : ℤ)
      → find u s.handler.breakers ≡ some b
      → b.state ≡ half_open
      → get_elem? s.in_flight i ≡ some u
      → leb 500 status ≡ false
      → (next healthy s.handler.lb).1 ≡ chosen u
      → let events = finish i (response status actions) now ∷ [] in
        (find u (run parses s events).0.handler.breakers ≡ some (recovered b))
        × ((run parses s events).0.in_flight ≡ remove_at i s.in_flight)
        × ((run parses s
              (finish i (response status actions) now ∷ arrive healthy then_ ∷ [])).0.in_flight
            ≡ u ∷ remove_at i s.in_flight)
  unfolding run
  late_success_reopens s b i status actions healthy now then_ at_u half at_i low picked =
      let after : System = record {
        handler = record s.handler { breakers = put u (recovered b) s.handler.breakers };
        in_flight = remove_at i s.in_flight;
      } in
      let found = find-put_self u (recovered b) s.handler.breakers in
      let next_in = arrive-closed after (recovered b) healthy then_ found refl picked in
      rw (finish-half_open s b i status actions now at_u half at_i low) (found, refl, next_in)
