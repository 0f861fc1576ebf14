-- ===== src/Proxy.antt =====
-- internal/proxy/proxy.go and internal/proxy/rewrite.go: the reverse-proxying handler of one service,
-- over the load balancer and a circuit breaker for each upstream. The HTTP round trip that
-- `httputil.ReverseProxy` makes, and `url.Parse`, are parameters.
pub mod Accounting
pub mod Wedge
pub mod Overlap
pub mod Outgoing
use go_api_gateway.Prelude.{
  ℕ, Bool, true, false, Option, none, some, List, [], ◌∷◌, if◌then◌else◌, ℤ, Text, codes, leb,
}
use go_api_gateway.Prelude.Dict.{Dict, find, put}
use go_api_gateway.Strings.{join}
use go_api_gateway.Http.{Header, Request, Claims, Action, json_error, error_message, header_set}
use go_api_gateway.Breaker.{Breaker, Err, allow, record_success, record_failure}
use go_api_gateway.RoundRobin.{RoundRobin, Choice, chosen, err_no_healthy, out_of_range, next}

pub record Proxy : Type 0 where
  pub lb : RoundRobin
  pub breakers : Dict Breaker

-- An error of the round trip, by the tests that the handlers make on it: `*http.MaxBytesError`,
-- `context.DeadlineExceeded`, and a `net.Error` that is a timeout.
pub record Failure : Type 0 where
  pub max_bytes : Bool
  pub deadline : Bool
  pub net_timeout : Bool

-- What the upstream's answer is, with the calls that copy it to the client. The copy may break off
-- behind some of them.
pub data RoundTrip : Type 0 where
  response : (status : ℕ) → List Action → RoundTrip
  aborted : (status : ℕ) → List Action → RoundTrip
  failed : Failure → RoundTrip

-- Where the copy breaks off, `ReverseProxy` panics with `http.ErrAbortHandler`.
pub data Served : Type 0 where
  answered : List Action → Served
  broken_off : List Action → Served
  panicked : Text → Served

unfoldable pub classify_proxy_error : Failure → ℕ × Text
classify_proxy_error e =
    if e.deadline
    then (504, codes "upstream timeout")
    else (if e.net_timeout
        then (504, codes "upstream timeout")
        else (502, codes "upstream unavailable"))

abbrev pub error_reply : ℕ × Text → Served
error_reply (status, message) = answered (json_error status (error_message message))

-- `injectUserHeaders`, on the outgoing header.
unfoldable pub inject_user_headers : Option Claims → Header → Header
unfolding header_set join
inject_user_headers none h = h
inject_user_headers (some claims) h =
    header_set (codes "X-Roles") (join (codes ",") claims.roles)
      (header_set (codes "X-User") claims.subject h)

-- `ModifyResponse` and `ErrorHandler`: the breaker of the target after the round trip, and the reply.
unfoldable pub settle : Breaker → ℤ → RoundTrip → Breaker × Served
settle b at_record (response status actions) =
    (if leb 500 status then record_failure b at_record else record_success b, answered actions)
settle b at_record (aborted status actions) =
    (if leb 500 status then record_failure b at_record else record_success b, broken_off actions)
settle b at_record (failed e) =
    if e.max_bytes
    then (b, answered (json_error 413 (error_message (codes "request body too large"))))
    else (record_failure b at_record, error_reply (classify_proxy_error e))

abbrev pub open_reply : Text → Served
open_reply upstream = answered (
    json_error 503
      ((codes "error", codes "circuit breaker is open") ∷ (codes "upstream", upstream) ∷ []))

module _ (healthy : Text → Bool) (parses : Text → Bool)
    (round_trip : Text → Request → RoundTrip) where
  -- After `Allow`: the error is returned, or the request goes to the upstream. `Rewrite` panics on a
  -- target that is no URL.
  unfoldable pub forward : Proxy → Text → Request → ℤ → Breaker × Option Err → Proxy × Served
  forward h upstream r at_record (b, some e) =
      (record h { breakers = put upstream b h.breakers }, open_reply upstream)
  forward h upstream r at_record (b, none) =
      let (b', reply) = settle b at_record (round_trip upstream r) in
      if parses upstream then (record h { breakers = put upstream b' h.breakers }, reply) else (
        record h { breakers = put upstream b h.breakers },
        panicked (codes "proxy: invalid upstream URL: "),
      )

  -- `mustGetBreaker`.
  unfoldable pub guarded : Proxy → Text → Request → ℤ → ℤ → Option Breaker → Proxy × Served
  guarded h upstream r at_allow at_record none =
      (h, panicked (codes "proxy: circuit breaker not found"))
  guarded h upstream r at_allow at_record (some b) =
      forward h upstream r at_record (allow b at_allow)

  unfoldable pub dispatch : Proxy → Request → ℤ → ℤ → Choice → Proxy × Served
  dispatch h r at_allow at_record err_no_healthy =
      (h, answered (json_error 503 (error_message (codes "no healthy upstreams"))))
  dispatch h r at_allow at_record out_of_range = (h, panicked (codes "index out of range"))
  dispatch h r at_allow at_record (chosen upstream) =
      guarded h upstream r at_allow at_record (find upstream h.breakers)

  -- `ServeHTTP`, with the times of `Allow` and of the record.
  unfoldable pub serve : Proxy → Request → ℤ → ℤ → Proxy × Served
  serve h r at_allow at_record =
      let (lb, choice) = next healthy h.lb in
      dispatch (record h { lb = lb }) r at_allow at_record choice
