-- ===== src/Proxy/Overlap/Alone.antt =====
-- That a request to internal/proxy/proxy.go which overlaps with no other is served as `serve` says.
use go_api_gateway.Prelude.{◌≡◌, refl, Bool, Option, none, some, ℤ, Text, Option-cases, inl, inr}
use go_api_gateway.Prelude.Dict.{find, put-put, find-put_self}
use go_api_gateway.Http.{Request}
use go_api_gateway.Breaker.{Breaker, Err, allow}
use go_api_gateway.RoundRobin.{Choice, chosen, err_no_healthy, out_of_range, next}
use go_api_gateway.Proxy.{Proxy, RoundTrip, Served, settle, forward, guarded, dispatch, serve}
use go_api_gateway.Proxy.Overlap.{
  Admission, replied, forwarded, admit_by, admit_to, admit, complete,
}

module _ (healthy : Text → Bool) (parses : Text → Bool)
    (round_trip : Text → Request → RoundTrip) where
  -- A request alone: its round trip is over before anything else happens.
  abbrev pub alone : Request → ℤ → Proxy × Admission → Proxy × Served
  alone r at_record (h, replied reply) = (h, reply)
  alone r at_record (h, forwarded u) = complete parses h u (round_trip u r) at_record

  forward-alone :
      (h : Proxy) (u : Text) (r : Request) (at_record : ℤ) (b : Breaker) (e : Option Err)
      → forward healthy parses round_trip h u r at_record (b, e)
        ≡ alone r at_record (admit_by h u (b, e))
  unfolding forward complete
  forward-alone h u r at_record b (some e) = refl
  forward-alone h u r at_record b none =
      rw
        (
          find-put_self u b h.breakers,
          put-put u (settle b at_record (round_trip u r)).0 b h.breakers,
        )
        refl

  dispatch-alone :
      (h : Proxy) (r : Request) (at_allow at_record : ℤ) (choice : Choice)
      → dispatch healthy parses round_trip h r at_allow at_record choice
        ≡ alone r at_record (admit_to h at_allow choice)
  unfolding dispatch guarded
  dispatch-alone h r at_allow at_record err_no_healthy = refl
  dispatch-alone h r at_allow at_record out_of_range = refl
  dispatch-alone h r at_allow at_record (chosen u) = elim (Option-cases (find u h.breakers)) [
    | inl missing ↦ rw missing refl
    | inr (b, at_u) ↦
        rw at_u (forward-alone h u r at_record (allow b at_allow).0 (allow b at_allow).1)
  ]

  -- A request that overlaps with no other is served as `serve` says.
  pub serve-alone :
      (h : Proxy) (r : Request) (at_allow at_record : ℤ)
      → serve healthy parses round_trip h r at_allow at_record
        ≡ alone r at_record (admit healthy h at_allow)
  unfolding serve admit
  serve-alone h r at_allow at_record =
      dispatch-alone (record h { lb = (next healthy h.lb).0 }) r at_allow at_record
        (next healthy h.lb).1
