-- ===== src/Proxy/Overlap/History.antt =====
-- What the breakers of internal/proxy/proxy.go go through when requests overlap.
use go_api_gateway.Prelude.{
  ◌≡◌, ◌≢◌, refl, Bool, Option, none, some, List, [], ◌∷◌, ◌++◌, if◌then◌else◌, ℤ, Text, text_eq,
  get_elem?, Option-cases, Bool-cases, inl, inr, ap, sym, ◌∙◌, subst, ite, if_pos, if_neg, arith,
}
use go_api_gateway.Prelude.Dict.{Dict, find, put, find-put_self, find-put_ne}
use go_api_gateway.Breaker.{Breaker, Err, allow, Call, try_allow, apply}
use go_api_gateway.Breaker
use go_api_gateway.Breaker.Trips.{run-append}
use go_api_gateway.RoundRobin.{Choice, chosen, err_no_healthy, out_of_range, next}
use go_api_gateway.Proxy.{Proxy, RoundTrip}
use go_api_gateway.Proxy.Accounting.{recorded, settle-run}
use go_api_gateway.Proxy.Overlap.{
  Admission, replied, forwarded, admit_by, admit_to, admit, complete, System, Event, arrive, finish,
  arrived, step, run,
}

-- The call of a method of the upstream's breaker.
abbrev pub asks : ℤ → Choice → List (Text × Call)
asks now (chosen u) = (u, try_allow now) ∷ []
asks now _ = []

abbrev pub at_upstream : Text → List Call → List (Text × Call)
at_upstream u [] = []
at_upstream u (c ∷ cs) = (u, c) ∷ at_upstream u cs

abbrev pub records : (Text → Bool) → RoundTrip → ℤ → Option Text → List (Text × Call)
records parses outcome now none = []
records parses outcome now (some u) = if parses u then at_upstream u (recorded now outcome) else []

abbrev pub calls_of_event : (Text → Bool) → System → Event → List (Text × Call)
calls_of_event parses s (arrive healthy now) = asks now (next healthy s.handler.lb).1
calls_of_event parses s (finish i outcome now) =
    records parses outcome now (get_elem? s.in_flight i)

-- The calls on breakers that the events make, in their order.
unfoldable pub history : (Text → Bool) → System → List Event → List (Text × Call)
history parses s [] = []
history parses s (event ∷ events) =
    calls_of_event parses s event ++ history parses (step parses s event).0 events

-- Those on the breaker of one upstream.
abbrev pub calls_for : Text → List (Text × Call) → List Call
calls_for u [] = []
calls_for u ((v, c) ∷ calls) = let rest = calls_for u calls in ite (text_eq v u) (c ∷ rest) rest

abbrev pub run_if_any : List Call → Option Breaker → Option Breaker
run_if_any cs none = none
run_if_any cs (some b) = some (Breaker.run b cs)

-- The breakers after the calls.
abbrev pub Follows : Dict Breaker → List (Text × Call) → Dict Breaker → Type 0
Follows before calls after =
    (u : Text) → find u after ≡ run_if_any (calls_for u calls) (find u before)

run_nothing : (b : Option Breaker) → b ≡ run_if_any [] b
run_nothing none = refl
run_nothing (some b) = unfold Breaker.run in refl

calls_for-at_upstream :
    (u v : Text) (cs : List Call) → calls_for u (at_upstream v cs) ≡ ite (text_eq v u) cs []
calls_for-at_upstream u v [] = ground arith
calls_for-at_upstream u v (c ∷ cs) = ground (arith, calls_for-at_upstream u v cs)

calls_for_self : (u : Text) (cs : List Call) → calls_for u (at_upstream u cs) ≡ cs
calls_for_self u cs = calls_for-at_upstream u u cs ∙ if_pos (text_eq u u) refl cs []

calls_for_other : (u v : Text) (cs : List Call) → v ≢ u → calls_for u (at_upstream v cs) ≡ []
calls_for_other u v cs other = calls_for-at_upstream u v cs ∙ if_neg (text_eq v u) other cs []

-- A breaker is put in place of the one that was there.
Follows-put :
    (before : Dict Breaker) (v : Text) (b : Breaker) (cs : List Call)
    → find v before ≡ some b
    → Follows before (at_upstream v cs) (put v (Breaker.run b cs) before)
Follows-put before v b cs at_v u = elim (text_eq v u) [
  | yes same ↦
      subst
        (λ k.
          find k (put v (Breaker.run b cs) before)
          ≡ run_if_any (calls_for k (at_upstream v cs)) (find k before))
        same (rw (calls_for_self v cs, at_v) (find-put_self v (Breaker.run b cs) before))
  | no other ↦
      rw (calls_for_other u v cs other)
        (find-put_ne v u (Breaker.run b cs) before other ∙ run_nothing (find u before))
]

-- Without a breaker there is nothing to call.
Follows-missing :
    (before : Dict Breaker) (v : Text) (cs : List Call)
    → find v before ≡ none
    → Follows before (at_upstream v cs) before
Follows-missing before v cs missing u = elim (text_eq v u) [
  | yes same ↦
      subst (λ k. find k before ≡ run_if_any (calls_for k (at_upstream v cs)) (find k before)) same
        (rw missing refl)
  | no other ↦ rw (calls_for_other u v cs other) (run_nothing (find u before))
]

Follows-nothing : (before : Dict Breaker) → Follows before [] before
Follows-nothing before u = run_nothing (find u before)

admit_by-breakers :
    (h : Proxy) (u : Text) (b : Breaker) (e : Option Err)
    → (admit_by h u (b, e)).0.breakers ≡ put u b h.breakers
admit_by-breakers h u b none = refl
admit_by-breakers h u b (some e) = refl

run_one : (b : Breaker) (now : ℤ) → Breaker.run b (try_allow now ∷ []) ≡ (allow b now).0
unfolding Breaker.run apply
run_one b now = refl

admit_to-Follows :
    (h : Proxy) (now : ℤ) (choice : Choice)
    → Follows h.breakers (asks now choice) (admit_to h now choice).0.breakers
admit_to-Follows h now err_no_healthy = Follows-nothing h.breakers
admit_to-Follows h now out_of_range = Follows-nothing h.breakers
admit_to-Follows h now (chosen v) = elim (Option-cases (find v h.breakers)) [
  | inl missing ↦ rw missing (Follows-missing h.breakers v (try_allow now ∷ []) missing)
  | inr (b, at_v) ↦ rw at_v (
      subst (Follows h.breakers ((v, try_allow now) ∷ []))
        (sym (admit_by-breakers h v (allow b now).0 (allow b now).1))
        (subst (λ b'. Follows h.breakers ((v, try_allow now) ∷ []) (put v b' h.breakers))
          (run_one b now) (Follows-put h.breakers v b (try_allow now ∷ []) at_v)))
]

complete-Follows :
    (parses : Text → Bool) (h : Proxy) (v : Text) (outcome : RoundTrip) (now : ℤ)
    → Follows h.breakers
        (records parses outcome now (some v))
        (complete parses h v outcome now).0.breakers
unfolding complete
complete-Follows parses h v outcome now = elim (Bool-cases (parses v)) [
  | inr bad ↦ rw bad (Follows-nothing h.breakers)
  | inl good ↦ elim (Option-cases (find v h.breakers)) [
    | inl missing ↦ rw (good, missing) (Follows-missing h.breakers v (recorded now outcome) missing)
    | inr (b, at_v) ↦
        rw (good, at_v)
          (subst
            (λ b'. Follows h.breakers (at_upstream v (recorded now outcome)) (put v b' h.breakers))
            (sym (settle-run b now outcome))
            (Follows-put h.breakers v b (recorded now outcome) at_v))
  ]
]

arrived-handler :
    (flights : List Text) (h : Proxy) (a : Admission) → (arrived flights (h, a)).0.handler ≡ h
arrived-handler flights h (replied reply) = refl
arrived-handler flights h (forwarded u) = refl

step-Follows :
    (parses : Text → Bool) (s : System) (event : Event)
    → Follows s.handler.breakers
        (calls_of_event parses s event)
        (step parses s event).0.handler.breakers
unfolding step admit
step-Follows parses s (arrive healthy now) =
    let moved : Proxy = record s.handler { lb = (next healthy s.handler.lb).0 } in
    let out = admit_to moved now (next healthy s.handler.lb).1 in
    subst (λ h. Follows s.handler.breakers (asks now (next healthy s.handler.lb).1) h.breakers)
      (sym (arrived-handler s.in_flight out.0 out.1))
      (admit_to-Follows moved now (next healthy s.handler.lb).1)
step-Follows parses s (finish i outcome now) = elim (Option-cases (get_elem? s.in_flight i)) [
  | inl gone ↦ rw gone (Follows-nothing s.handler.breakers)
  | inr (v, at_i) ↦ rw at_i (complete-Follows parses s.handler v outcome now)
]

calls_for-append :
    (u : Text) (xs ys : List (Text × Call))
    → calls_for u (xs ++ ys) ≡ calls_for u xs ++ calls_for u ys
calls_for-append u [] ys = refl
calls_for-append u ((v, c) ∷ xs) ys = ground (arith, calls_for-append u xs ys)

run_if_any-append :
    (cs ds : List Call) (b : Option Breaker)
    → run_if_any ds (run_if_any cs b) ≡ run_if_any (cs ++ ds) b
run_if_any-append cs ds none = refl
run_if_any-append cs ds (some b) = ap some (sym (run-append b cs ds))

-- However the requests overlap, each breaker goes through exactly the calls that are made for its
-- upstream, in their order: `Allow` when `Next` chooses it, and the record of an outcome when a round
-- trip to it is over (none for a body over the limit, or for an upstream
-- that is no URL).
pub find-run :
    (parses : Text → Bool) (s : System) (events : List Event) (u : Text)
    → find u (run parses s events).0.handler.breakers
      ≡ run_if_any (calls_for u (history parses s events)) (find u s.handler.breakers)
unfolding run history
find-run parses s [] u = run_nothing (find u s.handler.breakers)
find-run parses s (event ∷ events) u =
    let calls = calls_of_event parses s event in
    let s' = (step parses s event).0 in
    find-run parses s' events u
    ∙ ap (run_if_any (calls_for u (history parses s' events))) (step-Follows parses s event u)
    ∙ run_if_any-append (calls_for u calls) (calls_for u (history parses s' events))
        (find u s.handler.breakers)
    ∙ ap (λ cs. run_if_any cs (find u s.handler.breakers))
        (sym (calls_for-append u calls (history parses s' events)))
