-- ===== src/Proxy/Accounting.antt =====
-- What a request does to the breakers of internal/proxy/proxy.go, and that `ServeHTTP` answers.
use native.Mathlib.Nat.{mod-lt}
use go_api_gateway.Prelude.{
  ℕ, suc, ◌<◌, ◌≡◌, ◌≢◌, refl, inl, inr, Bool, true, Option, none, some, List, [], ◌∷◌, arith, Text,
  text_eq, ℤ, length, get_elem?, replicate, Any, Bool-cases, sym, ◌∙◌, ap, leb, if◌then◌else◌, ite,
  subst,
}
use go_api_gateway.Prelude.Dict.{Dict, find, put, find-put, find-put_self, find-put_ne}
use go_api_gateway.Http.{Request}
use go_api_gateway.Breaker.{Breaker, Err, allow, Call, try_allow, success, failure, apply, run}
use go_api_gateway.Breaker.Trips.{IsValid, apply-IsValid}
use go_api_gateway.RoundRobin.{
  RoundRobin, Choice, chosen, err_no_healthy, out_of_range, attempt, add64, next_loop, next_among,
  next,
}
use go_api_gateway.RoundRobin.Search.{get_elem?-lt, next_among_sound}
use go_api_gateway.Proxy.{
  Proxy, RoundTrip, response, aborted, failed, Served, answered, broken_off, panicked, settle,
  forward, guarded, dispatch, serve,
}

-- The index into `urls` is in range.
attempt-in_range :
    (healthy : Text → Bool) (urls : List Text) (c i : ℕ) (later : ℕ × Choice)
    → i < length urls
    → later.1 ≢ out_of_range
    → (attempt healthy c (get_elem? urls i) later).1 ≢ out_of_range
attempt-in_range healthy urls c i later h ok e =
    let (u, at_i) = get_elem?-lt urls i h in
    elim (Bool-cases (healthy u)) [
      | inl up ↦ ground (arith, at_i, up)
      | inr down ↦ ok (ground (arith, at_i, down))
    ]

next_loop-in_range :
    (healthy : Text → Bool) (urls : List Text) (foreign : List ℕ) (c : ℕ)
    → 0 < length urls
    → (next_loop healthy urls foreign c).1 ≢ out_of_range
unfolding next_loop
next_loop-in_range healthy urls [] c h e = cc
next_loop-in_range healthy urls (d ∷ foreign) c h e =
    attempt-in_range healthy urls _ _ _ (mod-lt _ h)
      (next_loop-in_range healthy urls foreign (add64 (add64 c d) 1) h) e

full_loop-in_range :
    (healthy : Text → Bool) (urls : List Text) (c : ℕ)
    → (next_loop healthy urls (replicate (length urls) 0) c).1 ≢ out_of_range
unfolding next_loop
full_loop-in_range healthy [] c e = cc
full_loop-in_range healthy (u ∷ urls) c e =
    next_loop-in_range healthy (u ∷ urls) (replicate (suc (length urls)) 0) c (omega arith) e

pub next-in_range : (healthy : Text → Bool) (rr : RoundRobin) → (next healthy rr).1 ≢ out_of_range
unfolding next next_among
next-in_range healthy rr = full_loop-in_range healthy rr.urls rr.counter

pub next-urls : (healthy : Text → Bool) (rr : RoundRobin) → (next healthy rr).0.urls ≡ rr.urls
unfolding next next_among
next-urls healthy rr = refl

pub next-chosen :
    (healthy : Text → Bool) (rr : RoundRobin) (v : Text)
    → (next healthy rr).1 ≡ chosen v
    → Any (λ u. u ≡ v) rr.urls
unfolding next
next-chosen healthy rr v e = (next_among_sound healthy rr (replicate (length rr.urls) 0) v e).1

-- The call that `ModifyResponse` or `ErrorHandler` records; none for a body over the limit.
abbrev pub recorded : ℤ → RoundTrip → List Call
recorded at_record (response status actions) =
    if leb 500 status then failure at_record ∷ [] else success ∷ []
recorded at_record (aborted status actions) =
    if leb 500 status then failure at_record ∷ [] else success ∷ []
recorded at_record (failed e) = if e.max_bytes then [] else failure at_record ∷ []

pub settle-run :
    (b : Breaker) (at_record : ℤ) (o : RoundTrip)
    → (settle b at_record o).0 ≡ run b (recorded at_record o)
unfolding settle run apply
settle-run b at_record (response status actions) = ground arith
settle-run b at_record (aborted status actions) = ground arith
settle-run b at_record (failed e) = ground arith

-- The calls on a breaker that a request makes once `Allow` has answered.
abbrev pub calls_after : Option Err → ℤ → RoundTrip → List Call
calls_after none at_record o = recorded at_record o
calls_after (some _) at_record o = []

pub run-IsValid : (m : ℕ) (b : Breaker) (cs : List Call) → IsValid m b → IsValid m (run b cs)
unfolding run
run-IsValid m b [] v = v
run-IsValid m b (c ∷ cs) v = run-IsValid m (apply b c) cs (apply-IsValid m b c v)

-- The breaker of an upstream exists, is within its bounds, and the upstream is a URL.
abbrev pub HasBreaker : ℕ → (Text → Bool) → Dict Breaker → Text → Type 0
HasBreaker m parses breakers u =
    (parses u ≡ true) × (b : Breaker) × (find u breakers ≡ some b) × IsValid m b

-- What `NewHandler` asks for: each upstream of the load balancer has a breaker.
pub record Ready (m : ℕ) (parses : Text → Bool) (h : Proxy) : Type 0 where
  pub each : (u : Text) → Any (λ v. v ≡ u) h.lb.urls → HasBreaker m parses h.breakers u

pub put-HasBreaker :
    (m : ℕ) (parses : Text → Bool) (breakers : Dict Breaker) (u j : Text) (b : Breaker)
    → IsValid m b
    → HasBreaker m parses breakers j
    → HasBreaker m parses (put u b breakers) j
put-HasBreaker m parses breakers u j b v (good, c, at_j, valid) = elim (text_eq u j) [
  | yes same ↦
      (good, b, ap (λ k. find k (put u b breakers)) (sym same) ∙ find-put_self u b breakers, v)
  | no other ↦ (good, c, find-put_ne u j b breakers other ∙ at_j, valid)
]

-- No panic of the handler's own; that of a response that breaks off is the `ReverseProxy`'s.
abbrev pub IsAnswered : Served → Type 0
IsAnswered (answered actions) = Unit
IsAnswered (broken_off actions) = Unit
IsAnswered (panicked message) = ⊥

pub settle-IsAnswered :
    (b : Breaker) (at_record : ℤ) (o : RoundTrip) → IsAnswered (settle b at_record o).1
unfolding settle
settle-IsAnswered b at_record (response status actions) = tt
settle-IsAnswered b at_record (aborted status actions) = tt
settle-IsAnswered b at_record (failed e) = elim (Bool-cases e.max_bytes) [
  | inl large ↦ rw large tt
  | inr other ↦ rw other tt
]

module _ (healthy : Text → Bool) (parses : Text → Bool)
    (round_trip : Text → Request → RoundTrip) where
  -- All calls on the breaker of the chosen upstream.
  abbrev pub calls_of : Breaker → Text → Request → ℤ → ℤ → List Call
  calls_of b u r at_allow at_record =
      try_allow at_allow ∷ calls_after (allow b at_allow).1 at_record (round_trip u r)

  forward_lem :
      (h : Proxy) (u : Text) (r : Request) (at_record : ℤ) (b : Breaker) (e : Option Err)
      → parses u ≡ true
      → ((forward healthy parses round_trip h u r at_record (b, e)).0 ≡ record h {
        breakers = put u (run b (calls_after e at_record (round_trip u r))) h.breakers;
      })
        × IsAnswered (forward healthy parses round_trip h u r at_record (b, e)).1
  unfolding forward
  forward_lem h u r at_record b none good = rw good (
    ap (λ x. record h { breakers = put u x h.breakers }) (settle-run b at_record (round_trip u r)),
    settle-IsAnswered b at_record (round_trip u r),
  )
  forward_lem h u r at_record b (some e) good = (unfold run in refl, tt)

  guarded_lem :
      (h : Proxy) (u : Text) (r : Request) (at_allow at_record : ℤ) (b : Breaker)
      → parses u ≡ true
      → ((guarded healthy parses round_trip h u r at_allow at_record (some b)).0
          ≡ record h { breakers = put u (run b (calls_of b u r at_allow at_record)) h.breakers })
        × IsAnswered (guarded healthy parses round_trip h u r at_allow at_record (some b)).1
  unfolding guarded run apply
  guarded_lem h u r at_allow at_record b good =
      forward_lem h u r at_record (allow b at_allow).0 (allow b at_allow).1 good

  -- A request for which `Next` chooses `u`, a URL with a breaker, makes on the breaker of `u` the call of `Allow` and, if it is
  -- admitted, the record of its outcome (none for a body over the limit); it changes no other breaker.
  pub serve-find :
      (h : Proxy) (r : Request) (at_allow at_record : ℤ) (u : Text) (b : Breaker)
      → (next healthy h.lb).1 ≡ chosen u
      → find u h.breakers ≡ some b
      → parses u ≡ true
      → (j : Text)
      → find j (serve healthy parses round_trip h r at_allow at_record).0.breakers
        ≡ ite (text_eq u j) (some (run b (calls_of b u r at_allow at_record))) (find j h.breakers)
  unfolding serve dispatch
  serve-find h r at_allow at_record u b e at_u good j =
      rw (e, at_u)
        (ap (λ k. find j k.breakers)
            (guarded_lem (record h { lb = (next healthy h.lb).0 }) u r at_allow at_record b good).0
          ∙ find-put u j (run b (calls_of b u r at_allow at_record)) h.breakers)

  dispatch-Ready :
      (m : ℕ) (h : Proxy) (r : Request) (at_allow at_record : ℤ) (choice : Choice)
      → Ready m parses h
      → choice ≢ out_of_range
      → ((v : Text) → choice ≡ chosen v → Any (λ u. u ≡ v) h.lb.urls)
      → IsAnswered (dispatch healthy parses round_trip h r at_allow at_record choice).1
        × Ready m parses (dispatch healthy parses round_trip h r at_allow at_record choice).0
  unfolding dispatch
  dispatch-Ready m h r at_allow at_record err_no_healthy ready ok listed = (tt, ready)
  dispatch-Ready m h r at_allow at_record out_of_range ready ok listed = absurd (ok refl)
  dispatch-Ready m h r at_allow at_record (chosen u) ready ok listed =
      let (good, b, at_u, v) = ready.each u (listed u refl) in
      let (after, reply) = guarded_lem h u r at_allow at_record b good in
      let cs = calls_of b u r at_allow at_record in
      rw (at_u) (
        reply,
        subst (Ready m parses) (sym after) (record {
          each = λ j member.
              put-HasBreaker m parses h.breakers u j (run b cs) (run-IsValid m b cs v)
                (ready.each j member);
        }),
      )

  -- A handler whose upstreams all have a breaker, within its bounds, and are URLs answers every
  -- request without a panic of its own, and is such a handler afterwards.
  pub serve-Ready :
      (m : ℕ) (h : Proxy) (r : Request) (at_allow at_record : ℤ)
      → Ready m parses h
      → IsAnswered (serve healthy parses round_trip h r at_allow at_record).1
        × Ready m parses (serve healthy parses round_trip h r at_allow at_record).0
  unfolding serve
  serve-Ready m h r at_allow at_record ready =
      dispatch-Ready m (record h { lb = (next healthy h.lb).0 }) r at_allow at_record
        (next healthy h.lb).1
        (record {
          each =
              λ u member. ready.each u (subst (Any (λ v. v ≡ u)) (next-urls healthy h.lb) member);
        })
        (next-in_range healthy h.lb)
        (λ v e.
          subst (Any (λ u. u ≡ v)) (sym (next-urls healthy h.lb)) (next-chosen healthy h.lb v e))
