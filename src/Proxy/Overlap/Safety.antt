-- ===== src/Proxy/Overlap/Safety.antt =====
-- That internal/proxy/proxy.go answers, however its requests overlap.
use go_api_gateway.Prelude.{
  ℕ, zero, suc, ◌≡◌, ◌≢◌, refl, Bool, Option, none, some, List, [], ◌∷◌, ℤ, Text, get_elem?, All,
  Any, Option-cases, inl, inr, sym, subst,
}
use go_api_gateway.Prelude.Dict.{put}
use go_api_gateway.Breaker.{Breaker, Err, allow, try_allow, apply}
use go_api_gateway.Breaker.Trips.{IsValid, apply-IsValid}
use go_api_gateway.RoundRobin.{Choice, chosen, err_no_healthy, out_of_range, next}
use go_api_gateway.Proxy.{Proxy, RoundTrip, Served, settle}
use go_api_gateway.Proxy.Accounting.{
  Ready, IsAnswered, put-HasBreaker, settle-IsAnswered, settle-run, run-IsValid, recorded,
  next-urls, next-in_range, next-chosen,
}
use go_api_gateway.Proxy.Overlap.{
  Admission, replied, forwarded, admit_by, admit_to, admit, complete, System, Event, arrive, finish,
  remove_at, arrived, cons_reply, step, run,
}

-- One of the upstreams.
abbrev pub IsListed : Proxy → Text → Type 0
IsListed h u = Any (λ v. v ≡ u) h.lb.urls

-- A request is answered, or goes to one of the upstreams of `h`.
abbrev pub IsAdmitted : Proxy → Admission → Type 0
IsAdmitted h (replied reply) = IsAnswered reply
IsAdmitted h (forwarded u) = IsListed h u

module _ (parses : Text → Bool) (m : ℕ) where
  put-Ready :
      (h : Proxy) (u : Text) (b : Breaker)
      → IsValid m b
      → Ready m parses h
      → Ready m parses (record h { breakers = put u b h.breakers })
  put-Ready h u b v ready = record {
    each = λ j member. put-HasBreaker m parses h.breakers u j b v (ready.each j member);
  }

  -- The handler keeps its upstreams and stays fit to answer.
  abbrev pub Keeps : Proxy → Proxy → Type 0
  Keeps h h' = Ready m parses h' × (h'.lb.urls ≡ h.lb.urls)

  allow-IsValid : (b : Breaker) (now : ℤ) → IsValid m b → IsValid m (allow b now).0
  allow-IsValid b now v = unfold apply in apply-IsValid m b (try_allow now) v

  admit_by-Keeps :
      (h : Proxy) (u : Text) (b : Breaker) (e : Option Err)
      → IsValid m b
      → IsListed h u
      → Ready m parses h
      → Keeps h (admit_by h u (b, e)).0 × IsAdmitted h (admit_by h u (b, e)).1
  admit_by-Keeps h u b (some e) v listed ready = ((put-Ready h u b v ready, refl), tt)
  admit_by-Keeps h u b none v listed ready = ((put-Ready h u b v ready, refl), listed)

  admit_to-Keeps :
      (h : Proxy) (now : ℤ) (choice : Choice)
      → Ready m parses h
      → choice ≢ out_of_range
      → ((u : Text) → choice ≡ chosen u → IsListed h u)
      → Keeps h (admit_to h now choice).0 × IsAdmitted h (admit_to h now choice).1
  admit_to-Keeps h now err_no_healthy ready ok listed = ((ready, refl), tt)
  admit_to-Keeps h now out_of_range ready ok listed = absurd (ok refl)
  admit_to-Keeps h now (chosen u) ready ok listed =
      let (good, b, at_u, v) = ready.each u (listed u refl) in
      rw at_u (
        admit_by-Keeps h u (allow b now).0 (allow b now).1 (allow-IsValid b now v) (listed u refl)
          ready)

  admit-Keeps :
      (healthy : Text → Bool) (h : Proxy) (now : ℤ)
      → Ready m parses h
      → Keeps h (admit healthy h now).0 × IsAdmitted h (admit healthy h now).1
  unfolding admit
  admit-Keeps healthy h now ready =
      let urls = next-urls healthy h.lb in
      let moved : Proxy = record h { lb = (next healthy h.lb).0 } in
      let ready' : Ready m parses moved = record {
        each = λ u member. ready.each u (subst (Any (λ v. v ≡ u)) urls member);
      } in
      let listed = λ (u : Text). λ (e : (next healthy h.lb).1 ≡ chosen u).
        subst (Any (λ v. v ≡ u)) (sym urls) (next-chosen healthy h.lb u e) in
      admit_to-Keeps moved now (next healthy h.lb).1 ready' (next-in_range healthy h.lb) listed

  complete-Keeps :
      (h : Proxy) (u : Text) (outcome : RoundTrip) (now : ℤ)
      → Ready m parses h
      → IsListed h u
      → Keeps h (complete parses h u outcome now).0 × IsAnswered (complete parses h u outcome now).1
  unfolding complete
  complete-Keeps h u outcome now ready listed =
      let (good, b, at_u, v) = ready.each u listed in
      let valid : IsValid m (settle b now outcome).0 =
        subst (IsValid m) (sym (settle-run b now outcome))
          (run-IsValid m b (recorded now outcome) v) in
      rw (good, at_u)
        (
          (put-Ready h u (settle b now outcome).0 valid ready, refl),
          settle-IsAnswered b now outcome,
        )

  -- The handler is fit to answer, and the requests in flight are at upstreams of it.
  pub record IsSound (s : System) : Type 0 where
    pub ready : Ready m parses s.handler
    pub flights : All (IsListed s.handler) s.in_flight

  remove_at-All : (P : Text → Type 0) (i : ℕ) (us : List Text) → All P us → All P (remove_at i us)
  remove_at-All P i [] h = tt
  remove_at-All P zero (u ∷ us) (p, h) = h
  remove_at-All P (suc i) (u ∷ us) (p, h) = (p, remove_at-All P i us h)

  All-get_elem? :
      (P : Text → Type 0) (us : List Text) (i : ℕ) (u : Text)
      → All P us
      → get_elem? us i ≡ some u
      → P u
  All-get_elem? P [] i u h e = absurd (let q : none ≡ some u = e in cc)
  All-get_elem? P (v ∷ us) zero u (p, h) e = subst P (let q : v ≡ u = cc in q) p
  All-get_elem? P (v ∷ us) (suc i) u (p, h) e = All-get_elem? P us i u h e

  -- Upstreams of the one are upstreams of the other.
  relist :
      (h h' : Proxy) (us : List Text)
      → h'.lb.urls ≡ h.lb.urls
      → All (IsListed h) us
      → All (IsListed h') us
  relist h h' us same listed = subst (λ urls. All (λ u. Any (λ v. v ≡ u) urls) us) (sym same) listed

  abbrev pub IsReplied : Option Served → Type 0
  IsReplied none = Unit
  IsReplied (some reply) = IsAnswered reply

  abbrev pub StepsSoundly : System × Option Served → Type 0
  StepsSoundly (s, reply) = IsSound s × IsReplied reply

  arrived-StepsSoundly :
      (h h' : Proxy) (flights : List Text) (a : Admission)
      → Keeps h h'
      → IsAdmitted h a
      → All (IsListed h) flights
      → StepsSoundly (arrived flights (h', a))
  arrived-StepsSoundly h h' flights (replied reply) (ready, same) answers listed =
      (record { ready = ready; flights = relist h h' flights same listed }, answers)
  arrived-StepsSoundly h h' flights (forwarded u) (ready, same) at_u listed =
      (record { ready = ready; flights = relist h h' (u ∷ flights) same (at_u, listed) }, tt)

  step-StepsSoundly : (s : System) (event : Event) → IsSound s → StepsSoundly (step parses s event)
  unfolding step
  step-StepsSoundly s (arrive healthy now) sound =
      let (kept, admitted) = admit-Keeps healthy s.handler now sound.ready in
      arrived-StepsSoundly s.handler (admit healthy s.handler now).0 s.in_flight
        (admit healthy s.handler now).1 kept admitted sound.flights
  step-StepsSoundly s (finish i outcome now) sound = elim (Option-cases (get_elem? s.in_flight i)) [
    | inl gone ↦ rw gone (sound, tt)
    | inr (u, at_i) ↦
        let listed = All-get_elem? (IsListed s.handler) s.in_flight i u sound.flights at_i in
        let (kept, answers) = complete-Keeps s.handler u outcome now sound.ready listed in
        rw at_i (
          record {
            ready = kept.0;
            flights =
                relist s.handler (complete parses s.handler u outcome now).0
                  (remove_at i s.in_flight) kept.1
                  (remove_at-All (IsListed s.handler) i s.in_flight sound.flights);
          },
          answers,
        )
  ]

  All-cons_reply :
      (reply : Option Served) (replies : List Served)
      → IsReplied reply
      → All IsAnswered replies
      → All IsAnswered (cons_reply reply replies)
  All-cons_reply none replies p h = h
  All-cons_reply (some reply) replies p h = (p, h)

  pub run-IsAnswered :
      (s : System) (events : List Event) → IsSound s → All IsAnswered (run parses s events).1
  unfolding run
  run-IsAnswered s [] sound = tt
  run-IsAnswered s (event ∷ events) sound =
      let (sound', answers) = step-StepsSoundly s event sound in
      All-cons_reply (step parses s event).1 (run parses (step parses s event).0 events).1 answers
        (run-IsAnswered (step parses s event).0 events sound')
