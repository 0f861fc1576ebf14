-- ===== src/Proxy/Overlap/Counting.antt =====
-- That no request to internal/proxy/proxy.go is lost: each one that arrives is answered or in flight.
use go_api_gateway.Prelude.{
  ℕ, zero, suc, ◌+◌, ◌≤◌, Bool-cases, ◌≡◌, refl, Bool, Option, none, some, List, [], ◌∷◌, ℤ, Text,
  length, get_elem?, Option-cases, inl, inr, arith,
}
use go_api_gateway.Breaker.{Breaker, Err, allow}
use go_api_gateway.RoundRobin.{Choice, chosen, err_no_healthy, out_of_range, next}
use go_api_gateway.Prelude.Dict.{find}
use go_api_gateway.Proxy.{
  Proxy, RoundTrip, response, aborted, failed, Served, answered, broken_off, panicked, settle,
}
use go_api_gateway.Proxy.Overlap.{
  Admission, replied, forwarded, admit, System, Event, arrive, finish, remove_at, arrived,
  cons_reply, step, run, admit_by, admit_to, complete,
}

-- How many replies a panic of `ReverseProxy` ends, and how many round trips break off.
abbrev pub cut_off : List Served → ℕ
cut_off [] = 0
cut_off (broken_off actions ∷ replies) = suc (cut_off replies)
cut_off (answered actions ∷ replies) = cut_off replies
cut_off (panicked message ∷ replies) = cut_off replies

abbrev pub aborts : List Event → ℕ
aborts [] = 0
aborts (finish i (aborted status actions) now ∷ events) = suc (aborts events)
aborts (finish i (response status actions) now ∷ events) = aborts events
aborts (finish i (failed e) now ∷ events) = aborts events
aborts (arrive healthy now ∷ events) = aborts events

-- How many requests arrive.
abbrev pub arrivals : List Event → ℕ
arrivals [] = 0
arrivals (arrive healthy now ∷ events) = suc (arrivals events)
arrivals (finish i outcome now ∷ events) = arrivals events

abbrev replies_of : Option Served → ℕ
replies_of none = 0
replies_of (some reply) = 1

length-remove_at :
    (us : List Text) (i : ℕ) (u : Text)
    → get_elem? us i ≡ some u
    → length us ≡ suc (length (remove_at i us))
length-remove_at [] i u e = absurd (let q : none ≡ some u = e in cc)
length-remove_at (v ∷ us) zero u e = refl
length-remove_at (v ∷ us) (suc i) u e = omega (arith, length-remove_at us i u e)

length-arrived :
    (flights : List Text) (h : Proxy) (a : Admission)
    → suc (length flights)
      ≡ replies_of (arrived flights (h, a)).1 + length (arrived flights (h, a)).0.in_flight
length-arrived flights h (replied reply) = omega arith
length-arrived flights h (forwarded u) = omega arith

length-cons_reply :
    (o : Option Served) (rs : List Served) → length (cons_reply o rs) ≡ replies_of o + length rs
length-cons_reply none rs = omega arith
length-cons_reply (some reply) rs = omega arith

module _ (parses : Text → Bool) where
  length-finish :
      (s : System) (i : ℕ) (outcome : RoundTrip) (now : ℤ)
      → length s.in_flight
        ≡ replies_of (step parses s (finish i outcome now)).1
          + length (step parses s (finish i outcome now)).0.in_flight
  unfolding step
  length-finish s i outcome now = elim (Option-cases (get_elem? s.in_flight i)) [
    | inl gone ↦ rw gone (omega arith)
    | inr (u, at_i) ↦
        let shorter = length-remove_at s.in_flight i u at_i in rw at_i (omega (arith, shorter))
  ]

  -- The requests in flight before and those that arrive are those replied to and those in flight behind.
  pub run-accounted :
      (s : System) (events : List Event)
      → length s.in_flight + arrivals events
        ≡ length (run parses s events).1 + length (run parses s events).0.in_flight
  unfolding run
  run-accounted s [] = omega arith
  run-accounted s (arrive healthy now ∷ events) =
      let s' = (step parses s (arrive healthy now)).0 in
      let o = (step parses s (arrive healthy now)).1 in
      let rest = run-accounted s' events in
      let one : suc (length s.in_flight) ≡ replies_of o + length s'.in_flight =
        length-arrived s.in_flight (admit healthy s.handler now).0
          (admit healthy s.handler now).1 in
      omega (arith, rest, one, length-cons_reply o (run parses s' events).1)
  run-accounted s (finish i outcome now ∷ events) =
      let s' = (step parses s (finish i outcome now)).0 in
      let o = (step parses s (finish i outcome now)).1 in
      let rest = run-accounted s' events in
      omega
        (arith, rest, length-finish s i outcome now, length-cons_reply o (run parses s' events).1)

  -- Whether a reply is such a panic, and whether an outcome is one that breaks off.
  abbrev cut_of : Option Served → ℕ
  cut_of none = 0
  cut_of (some (broken_off actions)) = 1
  cut_of (some (answered actions)) = 0
  cut_of (some (panicked message)) = 0

  cut_off-cons_reply :
      (o : Option Served) (rs : List Served) → cut_off (cons_reply o rs) ≡ cut_of o + cut_off rs
  cut_off-cons_reply none rs = omega arith
  cut_off-cons_reply (some (broken_off actions)) rs = omega arith
  cut_off-cons_reply (some (answered actions)) rs = omega arith
  cut_off-cons_reply (some (panicked message)) rs = omega arith

  -- Before the round trip nothing breaks off.
  abbrev cut_by : Admission → ℕ
  cut_by (replied reply) = cut_of (some reply)
  cut_by (forwarded u) = 0

  admit_by-whole :
      (h : Proxy) (u : Text) (b : Breaker) (e : Option Err) → cut_by (admit_by h u (b, e)).1 ≡ 0
  admit_by-whole h u b none = refl
  admit_by-whole h u b (some e) = refl

  admit_to-whole : (h : Proxy) (now : ℤ) (choice : Choice) → cut_by (admit_to h now choice).1 ≡ 0
  admit_to-whole h now err_no_healthy = refl
  admit_to-whole h now out_of_range = refl
  admit_to-whole h now (chosen u) = elim (Option-cases (find u h.breakers)) [
    | inl missing ↦ rw missing refl
    | inr (b, at_u) ↦ rw at_u (admit_by-whole h u (allow b now).0 (allow b now).1)
  ]

  arrived-whole :
      (flights : List Text) (h : Proxy) (a : Admission)
      → cut_by a ≡ 0
      → cut_of (arrived flights (h, a)).1 ≡ 0
  arrived-whole flights h (replied reply) e = e
  arrived-whole flights h (forwarded u) e = refl

  settle-cut :
      (b : Breaker) (i : ℕ) (outcome : RoundTrip) (now : ℤ)
      → cut_of (some (settle b now outcome).1) ≤ aborts (finish i outcome now ∷ [])
  unfolding settle
  settle-cut b i (response status actions) now = omega arith
  settle-cut b i (aborted status actions) now = omega arith
  settle-cut b i (failed e) now = elim (Bool-cases e.max_bytes) [
    | inl large ↦ rw large (omega arith)
    | inr other ↦ rw other (omega arith)
  ]

  complete-cut :
      (h : Proxy) (u : Text) (i : ℕ) (outcome : RoundTrip) (now : ℤ)
      → cut_of (some (complete parses h u outcome now).1) ≤ aborts (finish i outcome now ∷ [])
  unfolding complete
  complete-cut h u i outcome now = elim (Bool-cases (parses u)) [
    | inr bad ↦ rw bad (omega arith)
    | inl good ↦ elim (Option-cases (find u h.breakers)) [
      | inl missing ↦ rw (good, missing) (omega arith)
      | inr (b, at_u) ↦ rw (good, at_u) (settle-cut b i outcome now)
    ]
  ]

  aborts-cons :
      (event : Event) (events : List Event)
      → aborts (event ∷ events) ≡ aborts (event ∷ []) + aborts events
  aborts-cons (arrive healthy now) events = omega arith
  aborts-cons (finish i (response status actions) now) events = omega arith
  aborts-cons (finish i (aborted status actions) now) events = omega arith
  aborts-cons (finish i (failed e) now) events = omega arith

  step-cut : (s : System) (event : Event) → cut_of (step parses s event).1 ≤ aborts (event ∷ [])
  unfolding step admit complete
  step-cut s (arrive healthy now) =
      let moved : Proxy = record s.handler { lb = (next healthy s.handler.lb).0 } in
      let out = admit_to moved now (next healthy s.handler.lb).1 in
      let whole =
        arrived-whole s.in_flight out.0 out.1
          (admit_to-whole moved now (next healthy s.handler.lb).1) in
      omega (arith, whole)
  step-cut s (finish i outcome now) = elim (Option-cases (get_elem? s.in_flight i)) [
    | inl gone ↦ rw gone (omega arith)
    | inr (u, at_i) ↦ rw at_i (complete-cut s.handler u i outcome now)
  ]

  -- The replies that break off are at most the round trips that do.
  pub run-cut : (s : System) (events : List Event) → cut_off (run parses s events).1 ≤ aborts events
  unfolding run
  run-cut s [] = omega arith
  run-cut s (event ∷ events) =
      let s' = (step parses s event).0 in
      let o = (step parses s event).1 in
      let one = step-cut s event in
      omega (
        arith,
        run-cut s' events,
        one,
        cut_off-cons_reply o (run parses s' events).1,
        aborts-cons event events,
      )
