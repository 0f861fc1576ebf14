-- ===== src/Proxy/Overlap.antt =====
-- internal/proxy/proxy.go with requests that overlap: `ServeHTTP` up to `Allow`, and what
-- `ReverseProxy` calls back when the round trip is over, are steps of their own. Between the two a
-- request is in flight.
pub mod Safety
pub mod History
pub mod Alone
pub mod Stale
pub mod Counting
use go_api_gateway.Prelude.{
  ℕ, zero, suc, Bool, true, false, Option, none, some, List, [], ◌∷◌, ◌++◌, if◌then◌else◌, ℤ, Text,
  codes, get_elem?,
}
use go_api_gateway.Prelude.Dict.{find, put}
use go_api_gateway.Http.{Request, json_error, error_message}
use go_api_gateway.Breaker.{Breaker, Err, allow}
use go_api_gateway.RoundRobin.{RoundRobin, Choice, chosen, err_no_healthy, out_of_range, next}
use go_api_gateway.Proxy.{Proxy, RoundTrip, Served, answered, panicked, settle, open_reply}

-- What `ServeHTTP` comes to before it calls the `ReverseProxy`.
pub data Admission : Type 0 where
  replied : Served → Admission
  forwarded : (upstream : Text) → Admission

abbrev pub admit_by : Proxy → Text → Breaker × Option Err → Proxy × Admission
admit_by h upstream (b, some e) =
    (record h { breakers = put upstream b h.breakers }, replied (open_reply upstream))
admit_by h upstream (b, none) =
    (record h { breakers = put upstream b h.breakers }, forwarded upstream)

abbrev pub admit_at : Proxy → Text → ℤ → Option Breaker → Proxy × Admission
admit_at h upstream now none = (h, replied (panicked (codes "proxy: circuit breaker not found")))
admit_at h upstream now (some b) = admit_by h upstream (allow b now)

abbrev pub admit_to : Proxy → ℤ → Choice → Proxy × Admission
admit_to h now err_no_healthy =
    (h, replied (answered (json_error 503 (error_message (codes "no healthy upstreams")))))
admit_to h now out_of_range = (h, replied (panicked (codes "index out of range")))
admit_to h now (chosen upstream) = admit_at h upstream now (find upstream h.breakers)

unfoldable pub admit : (Text → Bool) → Proxy → ℤ → Proxy × Admission
unfolding next allow
admit healthy h now =
    let (lb, choice) = next healthy h.lb in admit_to (record h { lb = lb }) now choice

abbrev pub settle_at : Proxy → Text → RoundTrip → ℤ → Option Breaker → Proxy × Served
settle_at h upstream outcome now none = (h, panicked (codes "proxy: circuit breaker not found"))
settle_at h upstream outcome now (some b) =
    let (b', reply) = settle b now outcome in
    (record h { breakers = put upstream b' h.breakers }, reply)

-- `Rewrite`, then `ModifyResponse` or `ErrorHandler`.
unfoldable pub complete : (Text → Bool) → Proxy → Text → RoundTrip → ℤ → Proxy × Served
unfolding settle
complete parses h upstream outcome now =
    let done = settle_at h upstream outcome now (find upstream h.breakers) in
    if parses upstream then done else (h, panicked (codes "proxy: invalid upstream URL: "))

-- The handler, and the upstreams that the requests in flight are at.
pub record System : Type 0 where
  pub handler : Proxy
  pub in_flight : List Text

-- A request arrives, with the health of the upstreams as it is then; or the round trip of one of those
-- in flight is over.
pub data Event : Type 0 where
  arrive : (healthy : Text → Bool) (now : ℤ) → Event
  finish : (i : ℕ) (outcome : RoundTrip) (now : ℤ) → Event

abbrev pub remove_at : ℕ → List Text → List Text
remove_at i [] = []
remove_at zero (x ∷ xs) = xs
remove_at (suc i) (x ∷ xs) = x ∷ remove_at i xs

abbrev pub arrived : List Text → Proxy × Admission → System × Option Served
arrived flights (h, replied reply) = (record { handler = h; in_flight = flights }, some reply)
arrived flights (h, forwarded upstream) =
    (record { handler = h; in_flight = upstream ∷ flights }, none)

abbrev pub finished :
    (Text → Bool) → System → ℕ → RoundTrip → ℤ → Option Text → System × Option Served
finished parses s i outcome now none = (s, none)
finished parses s i outcome now (some upstream) =
    let (h, reply) = complete parses s.handler upstream outcome now in
    (record { handler = h; in_flight = remove_at i s.in_flight }, some reply)

-- One step, with the reply that it gives if it gives one.
unfoldable pub step : (Text → Bool) → System → Event → System × Option Served
unfolding admit complete
step parses s (arrive healthy now) = arrived s.in_flight (admit healthy s.handler now)
step parses s (finish i outcome now) = finished parses s i outcome now (get_elem? s.in_flight i)

abbrev pub cons_reply : Option Served → List Served → List Served
cons_reply none replies = replies
cons_reply (some reply) replies = reply ∷ replies

-- The system after the events, and the replies in their order.
unfoldable pub run : (Text → Bool) → System → List Event → System × List Served
unfolding step
run parses s [] = (s, [])
run parses s (event ∷ events) =
    let (s', reply) = step parses s event in
    let (last, replies) = run parses s' events in (last, cons_reply reply replies)
