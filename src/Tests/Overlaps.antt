-- ===== src/Tests/Overlaps.antt =====
-- Runs of the proxy with requests that overlap, and of what it sends to the upstream.
use go_api_gateway.Prelude.{
  ◌≡◌, refl, text_eq, Bool, true, Option, none, some, List, [], ◌∷◌, pos, Text, codes,
  if◌then◌else◌,
}
use go_api_gateway.Prelude.Dict.{find, put}
use go_api_gateway.Strings.{is_nil}
use go_api_gateway.Http.{Header}
use go_api_gateway.Breaker.{Breaker, closed, half_open, record_failure}
use go_api_gateway.Proxy.{response}
use go_api_gateway.Proxy.Overlap.{System, Event, arrive, finish, remove_at, run}
use go_api_gateway.Proxy.Overlap.History.{history, calls_for, run_if_any, find-run}
use go_api_gateway.RoundRobin.{next}
use go_api_gateway.Proxy.Overlap.Stale.{recovered, late_success_reopens}
use go_api_gateway.Proxy.Outgoing.{Url, Outgoing, rewritten, rewrite}
use go_api_gateway.Proxy.Outgoing.Identity.{IsFrom, rewrite-IsFrom}

abbrev upstream : Text
upstream = codes "http://a"

abbrev always : Text → Bool
always u = true

abbrev fresh : Breaker
fresh = record {
  state = closed;
  failures = pos 0;
  max_failures = pos 1;
  timeout = pos 10;
  opened_at = pos 0;
}

abbrev start : System
start = record {
  handler = record {
    lb = record { urls = upstream ∷ []; counter = 0 };
    breakers = (upstream, fresh) ∷ [];
  };
  in_flight = [];
}

-- Two requests are forwarded, the first fails and opens the breaker, and after the timeout a third is
-- the test request.
abbrev events : List Event
events =
    arrive always (pos 0)
    ∷ arrive always (pos 1)
    ∷ finish 0 (response 500 []) (pos 2)
    ∷ arrive always (pos 20)
    ∷ []

find-run_example :
    find upstream (run always start events).0.handler.breakers
    ≡ run_if_any
        (calls_for upstream (history always start events))
        (find upstream start.handler.breakers)
find-run_example = find-run always start events upstream

abbrev testing : Breaker
testing = record {
  state = half_open;
  failures = pos 1;
  max_failures = pos 1;
  timeout = pos 10;
  opened_at = pos 2;
}

-- The test request is the first of the two in flight.
abbrev tested : System
tested = record {
  handler = record {
    lb = record { urls = upstream ∷ []; counter = 3 };
    breakers = (upstream, testing) ∷ [];
  };
  in_flight = upstream ∷ upstream ∷ [];
}

tested_reached : (run always start events).0 ≡ tested
unfolding run find text_eq put record_failure
tested_reached = refl

-- What the second, late, answer does to the breaker that tests its upstream.
late_success_reopens_example :
    (find upstream (run always tested (finish 1 (response 200 []) (pos 21) ∷ [])).0.handler.breakers
      ≡ some (recovered testing))
    × ((run always tested (finish 1 (response 200 []) (pos 21) ∷ [])).0.in_flight
        ≡ remove_at 1 tested.in_flight)
    × ((run always tested
          (finish 1 (response 200 []) (pos 21) ∷ arrive always (pos 22) ∷ [])).0.in_flight
        ≡ upstream ∷ remove_at 1 tested.in_flight)
unfolding find text_eq next
late_success_reopens_example =
    late_success_reopens always upstream refl tested testing 1 200 [] always (pos 21) (pos 22) refl
      refl refl refl refl

abbrev base_url : Url
base_url = record { scheme = codes "http"; host = codes "a" }

abbrev parse_url : Text → Option Url
parse_url raw = if is_nil raw then none else some base_url

-- Without the trace's own headers.
abbrev unedited : Header → Header
unedited h = h

abbrev outgoing : Outgoing
outgoing = record {
  url = record { scheme = []; host = [] };
  host = codes "gateway";
  header = (codes "X-User", codes "mallory" ∷ []) ∷ [];
  target = some upstream;
  claims = some (record { subject = codes "alice"; roles = codes "admin" ∷ codes "user" ∷ [] });
}

rewrite-IsFrom_example :
    (out' : Outgoing) × (rewrite parse_url unedited unedited outgoing ≡ rewritten out')
    × (out'.url ≡ base_url)
    × (out'.host ≡ base_url.host)
    × IsFrom outgoing.claims outgoing.header out'.header
rewrite-IsFrom_example =
    rewrite-IsFrom parse_url unedited unedited (λ h. record { user_is = refl; roles_are = refl })
      (λ h. record { user_is = refl; roles_are = refl }) outgoing upstream base_url refl refl
