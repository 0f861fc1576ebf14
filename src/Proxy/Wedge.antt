-- ===== src/Proxy/Wedge.antt =====
-- internal/proxy/proxy.go, lines 93 to 99: a body over the limit records nothing on the breaker,
-- which matters when the request was the probe of a half-open breaker.
use go_api_gateway.Prelude.{
  ℕ, ◌≡◌, ◌≢◌, refl, Bool, true, Option, none, some, List, [], ◌∷◌, arith, Text, codes, ℤ, leb_ℤ,
  ◌-ℤ◌, All, Any, here, there, ◌∙◌, ap, sym, subst, ◌%◌, ◌+◌, ◌-◌, ◌^◌, ◌⊎◌, inl, inr, length,
}
use go_api_gateway.Prelude.Dict.{find, put, find-put_self}
use go_api_gateway.Http.{json_error, error_message}
use go_api_gateway.Breaker.{Breaker, open_, half_open}
use go_api_gateway.Breaker.Recovery.{allow-late, allow-half_open}
use go_api_gateway.RoundRobin.{
  RoundRobin, Choice, chosen, err_no_healthy, out_of_range, add64, next_loop, next_among, next,
}
use go_api_gateway.Proxy.{Proxy, Failure, failed, Served, answered, settle, open_reply}
use go_api_gateway.Proxy.Accounting.{next-urls, next-in_range, next-chosen}
use go_api_gateway.Proxy.Overlap.{
  Admission, replied, forwarded, admit_to, admit, complete, System, Event, arrive, finish, arrived,
  cons_reply, step, run,
}
use go_api_gateway.Proxy.Overlap.Counting.{arrivals, run-accounted}

next_loop-single :
    (healthy : Text → Bool) (u : Text) (c : ℕ)
    → healthy u ≡ true
    → (next_loop healthy (u ∷ []) (0 ∷ []) c).1 ≡ chosen u
unfolding next_loop
next_loop-single healthy u c up =
    let i : ℕ = (add64 (add64 c 0) 1 + 2 ^ 64 - 1) % 2 ^ 64 in
    let first : i % 1 ≡ 0 = omega arith in rw (first, up) refl

-- A list of one healthy upstream: `Next` returns it.
next-single :
    (healthy : Text → Bool) (rr : RoundRobin) (u : Text)
    → rr.urls ≡ u ∷ []
    → healthy u ≡ true
    → (next healthy rr).1 ≡ chosen u
unfolding next next_among
next-single healthy rr u e up = rw e (next_loop-single healthy u rr.counter up)

only_one : (u v : Text) → Any (λ w. w ≡ v) (u ∷ []) → v ≡ u
only_one u v (here e) = sym e
only_one u v (there a) = elim a [ ]

-- A 503: the breaker is open, or no upstream is healthy.
abbrev pub IsShed : Text → Served → Type 0
IsShed u reply =
    (reply ≡ open_reply u)
    ⊎ (reply ≡ answered (json_error 503 (error_message (codes "no healthy upstreams"))))

-- The only upstream has a half-open breaker.
pub record Jammed (u : Text) (h : Proxy) : Type 0 where
  pub single : h.lb.urls ≡ u ∷ []
  pub breaker : Breaker
  pub at_u : find u h.breakers ≡ some breaker
  pub waiting : breaker.state ≡ half_open

abbrev IsShedAt : Text → Proxy × Admission → Type 0
IsShedAt u (h, replied reply) = Jammed u h × IsShed u reply
IsShedAt u (h, forwarded v) = ⊥

admit_to-IsShedAt :
    (u : Text) (h : Proxy) (now : ℤ) (choice : Choice)
    → Jammed u h
    → choice ≢ out_of_range
    → ((v : Text) → choice ≡ chosen v → v ≡ u)
    → IsShedAt u (admit_to h now choice)
admit_to-IsShedAt u h now err_no_healthy j ok only = (j, inr refl)
admit_to-IsShedAt u h now out_of_range j ok only = absurd (ok refl)
admit_to-IsShedAt u h now (chosen v) j ok only =
    subst (λ w. IsShedAt u (admit_to h now (chosen w))) (sym (only v refl))
      (rw (j.at_u, allow-half_open j.breaker now j.waiting)
        (
          record {
            single = j.single;
            breaker = j.breaker;
            at_u = find-put_self u j.breaker h.breakers;
            waiting = j.waiting;
          },
          inl refl,
        ))

-- And nothing is in flight that could record on it.
pub record Stuck (u : Text) (s : System) : Type 0 where
  pub jammed : Jammed u s.handler
  pub idle : s.in_flight ≡ []

abbrev IsShedReply : Text → Option Served → Type 0
IsShedReply u none = Unit
IsShedReply u (some reply) = IsShed u reply

arrived-Stuck :
    (u : Text) (out : Proxy × Admission)
    → IsShedAt u out
    → Stuck u (arrived [] out).0 × IsShedReply u (arrived [] out).1
arrived-Stuck u (h, replied reply) (j, shed) = (record { jammed = j; idle = refl }, shed)
arrived-Stuck u (h, forwarded v) e = absurd e

module _ (parses : Text → Bool) (u : Text) where
  step-Stuck :
      (s : System) (event : Event)
      → Stuck u s
      → Stuck u (step parses s event).0 × IsShedReply u (step parses s event).1
  unfolding step admit
  step-Stuck s (finish i outcome now) stuck =
      rw stuck.idle (record { jammed = stuck.jammed; idle = refl }, tt)
  step-Stuck s (arrive healthy now) stuck =
      let j = stuck.jammed in
      let lb = s.handler.lb in
      let moved : Proxy = record s.handler { lb = (next healthy lb).0 } in
      let moved-Jammed : Jammed u moved = record {
        single = next-urls healthy lb ∙ j.single;
        breaker = j.breaker;
        at_u = j.at_u;
        waiting = j.waiting;
      } in
      let only = λ (v : Text). λ (e : (next healthy lb).1 ≡ chosen v).
        only_one u v (subst (Any (λ w. w ≡ v)) j.single (next-chosen healthy lb v e)) in
      rw stuck.idle (
        arrived-Stuck u (admit_to moved now (next healthy lb).1) (
          admit_to-IsShedAt u moved now (next healthy lb).1 moved-Jammed (next-in_range healthy lb)
            only))

  cons_reply-IsShed :
      (o : Option Served) (replies : List Served)
      → IsShedReply u o
      → All (IsShed u) replies
      → All (IsShed u) (cons_reply o replies)
  cons_reply-IsShed none replies shed all_shed = all_shed
  cons_reply-IsShed (some reply) replies shed all_shed = (shed, all_shed)

  run-Stuck :
      (s : System) (events : List Event)
      → Stuck u s
      → All (IsShed u) (run parses s events).1 × Stuck u (run parses s events).0
  unfolding run
  run-Stuck s [] stuck = (tt, stuck)
  run-Stuck s (event ∷ events) stuck =
      let (stuck', shed) = step-Stuck s event stuck in
      let (rest, last) = run-Stuck (step parses s event).0 events stuck' in
      (
        cons_reply-IsShed (step parses s event).1 (run parses (step parses s event).0 events).1 shed
            rest,
        last,
      )

  -- The probe arrives and is over, with nothing in between.
  abbrev pub probing : (Text → Bool) → ℤ → Failure → ℤ → List Event
  probing healthy at_allow e at_end = arrive healthy at_allow ∷ finish 0 (failed e) at_end ∷ []

  probe-Stuck :
      (h : Proxy) (b : Breaker) (e : Failure) (healthy : Text → Bool) (at_allow at_end : ℤ)
      → h.lb.urls ≡ u ∷ []
      → healthy u ≡ true
      → parses u ≡ true
      → find u h.breakers ≡ some b
      → b.state ≡ open_
      → leb_ℤ b.timeout (at_allow -ℤ b.opened_at) ≡ true
      → e.max_bytes ≡ true
      → let idle : System = record { handler = h; in_flight = [] } in
        ((run parses idle (probing healthy at_allow e at_end)).1
          ≡ answered (json_error 413 (error_message (codes "request body too large"))) ∷ [])
        × Stuck u (run parses idle (probing healthy at_allow e at_end)).0
  unfolding run step admit complete settle
  probe-Stuck h b e healthy at_allow at_end single up good at_u opened late large =
      let probing_ : Breaker = record b { state = half_open } in
      rw
        (
          next-single healthy h.lb u single up,
          at_u,
          allow-late b at_allow opened late,
          find-put_self u probing_ h.breakers,
          good,
          large,
        )
        (
          refl,
          record {
            jammed = record {
              single = next-urls healthy h.lb ∙ single;
              breaker = probing_;
              at_u = find-put_self u probing_ (put u probing_ h.breakers);
              waiting = refl;
            };
            idle = refl;
          },
        )

  -- The only upstream of a handler is a URL, its breaker is open and its timeout has passed, and no
  -- request is in flight. If the next request finds it healthy and fails because its body is over the
  -- limit, before any other arrives, then whatever comes later, at whatever time, with whatever health:
  -- every request that arrives is answered at once, that the circuit breaker is open or that no
  -- upstream is healthy, and none reaches the upstream.
  pub large_probe_wedges :
      (h : Proxy) (b : Breaker) (e : Failure) (healthy : Text → Bool) (at_allow at_end : ℤ)
      → h.lb.urls ≡ u ∷ []
      → healthy u ≡ true
      → parses u ≡ true
      → find u h.breakers ≡ some b
      → b.state ≡ open_
      → leb_ℤ b.timeout (at_allow -ℤ b.opened_at) ≡ true
      → e.max_bytes ≡ true
      → (events : List Event)
      → let idle : System = record { handler = h; in_flight = [] } in
        let (probed, reply) = run parses idle (probing healthy at_allow e at_end) in
        let (after, replies) = run parses probed events in
        (reply ≡ answered (json_error 413 (error_message (codes "request body too large"))) ∷ [])
        × All (IsShed u) replies
        × (length replies ≡ arrivals events)
        × (after.in_flight ≡ [])
  large_probe_wedges h b e healthy at_allow at_end single up good at_u opened late large events =
      let idle : System = record { handler = h; in_flight = [] } in
      let (reply, stuck) =
        probe-Stuck h b e healthy at_allow at_end single up good at_u opened late large in
      let probed : System = (run parses idle (probing healthy at_allow e at_end)).0 in
      let (shed, last) = run-Stuck probed events stuck in
      let none_before = ap length stuck.idle in
      let none_after = ap length last.idle in
      (reply, shed, omega (arith, run-accounted parses probed events), last.idle)
