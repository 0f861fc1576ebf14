-- ===== src/LoadTest/Snapshots/Reported.antt =====
-- What the reports of loadtest/scenarios/user_flow.go hold of the calls of its users.
use go_api_gateway.Prelude.{
  ℕ, suc, ◌+◌, ◌≤◌, ◌≡◌, refl, sym, ap, subst, ◌∙◌, Option, none, some, List, [], ◌∷◌, ◌++◌, arith,
}
use mathlib.Core.List.{append-nil, append_assoc}
use go_api_gateway.LoadTest.{Stats, new_stats, record_reply, record_error, Snapshot, taken}
use go_api_gateway.LoadTest.Snapshots.{
  Flow, new_flow, Op, reply, error, load, store, Step, replied, erred, loaded, stored, Run, done,
  then_,
}

-- What the calls were given.
abbrev pub latencies_of : List Op → List ℕ
latencies_of [] = []
latencies_of (reply code d ∷ ops) = d ∷ latencies_of ops
latencies_of (_ ∷ ops) = latencies_of ops

abbrev pub errors_of : List Op → ℕ
errors_of [] = 0
errors_of (error ∷ ops) = suc (errors_of ops)
errors_of (_ ∷ ops) = errors_of ops

-- What the reports hold together.
abbrev pub reported_latencies : List Snapshot → List ℕ
reported_latencies [] = []
reported_latencies (snap ∷ snaps) = snap.latencies ++ reported_latencies snaps

abbrev pub reported_errors : List Snapshot → ℕ
reported_errors [] = 0
reported_errors (snap ∷ snaps) = snap.errors + reported_errors snaps

-- In a `snapshot` that is under way, the latencies read are those still stored, and the errors read are
-- within `room`.
abbrev pub Agrees : Option Snapshot → Stats → ℕ → Type 0
Agrees none s room = Unit
Agrees (some snap) s room = (snap.latencies ≡ s.latencies) × (snap.errors ≤ room)

-- All that is reported or still to be reported.
abbrev pub all_latencies : Flow → List ℕ
all_latencies f = reported_latencies f.reports ++ f.stats.latencies

reported_latencies-append :
    (snaps : List Snapshot) (snap : Snapshot)
    → reported_latencies (snaps ++ snap ∷ []) ≡ reported_latencies snaps ++ snap.latencies
reported_latencies-append [] snap = append-nil snap.latencies
reported_latencies-append (s ∷ snaps) snap =
    ap (λ l. s.latencies ++ l) (reported_latencies-append snaps snap)
    ∙ sym (append_assoc s.latencies (reported_latencies snaps) snap.latencies)

reported_errors-append :
    (snaps : List Snapshot) (snap : Snapshot)
    → reported_errors (snaps ++ snap ∷ []) ≡ reported_errors snaps + snap.errors
reported_errors-append [] snap = omega arith
reported_errors-append (s ∷ snaps) snap = omega (arith, reported_errors-append snaps snap)

abbrev pub all_errors : Flow → ℕ
all_errors f = reported_errors f.reports + f.stats.errors

-- The state after calls with the latencies `ds` and with `errs` errors.
pub record Accounts (f : Flow) (ds : List ℕ) (errs : ℕ) : Type 0 where
  pub latencies : all_latencies f ≡ ds
  pub room : ℕ
  pub fits : reported_errors f.reports + room ≤ errs
  pub stored : f.stats.errors ≤ room
  pub agrees : Agrees f.reading f.stats room

abbrev pub op_latencies : Op → List ℕ
op_latencies (reply code d) = d ∷ []
op_latencies _ = []

abbrev pub op_errors : Op → ℕ
op_errors error = 1
op_errors _ = 0

Agrees-record_error :
    (reading : Option Snapshot) (s : Stats) (room : ℕ)
    → Agrees reading s room
    → Agrees reading (record_error s) (suc room)
unfolding record_error
Agrees-record_error none s room h = tt
Agrees-record_error (some snap) s room (same, within) = (same, omega (arith, within))

step-Accounts :
    {f g : Flow} {op : Op} (ds : List ℕ) (errs : ℕ)
    → Accounts f ds errs
    → Step f op g
    → Accounts g (ds ++ op_latencies op) (errs + op_errors op)
unfolding record_reply record_error
step-Accounts ds errs a (replied f code d idle) = record {
  latencies =
      sym (append_assoc (reported_latencies f.reports) f.stats.latencies (d ∷ []))
      ∙ ap (λ l. l ++ d ∷ []) a.latencies;
  room = a.room;
  fits = omega (arith, a.fits);
  stored = a.stored;
  agrees = rw idle tt;
}
step-Accounts ds errs a (erred f) = record {
  latencies = a.latencies ∙ sym (append-nil ds);
  room = suc a.room;
  fits = omega (arith, a.fits);
  stored = omega (arith, a.stored);
  agrees = Agrees-record_error f.reading f.stats a.room a.agrees;
}
step-Accounts ds errs a (loaded f idle) = record {
  latencies = a.latencies ∙ sym (append-nil ds);
  room = a.room;
  fits = omega (arith, a.fits);
  stored = a.stored;
  agrees = (refl, a.stored);
}
step-Accounts ds errs a (stored f snap busy) =
    let (same, within) : Agrees (some snap) f.stats a.room =
      subst (λ o. Agrees o f.stats a.room) busy a.agrees in
    record {
      latencies =
          append-nil _
          ∙ reported_latencies-append f.reports snap
          ∙ ap (λ l. reported_latencies f.reports ++ l) same
          ∙ a.latencies
          ∙ sym (append-nil ds);
      room = 0;
      fits = omega (arith, a.fits, within, reported_errors-append f.reports snap);
      stored = omega arith;
      agrees = tt;
    }

op_latencies-cons :
    (op : Op) (ops : List Op) → latencies_of (op ∷ ops) ≡ op_latencies op ++ latencies_of ops
op_latencies-cons (reply code d) ops = refl
op_latencies-cons error ops = refl
op_latencies-cons load ops = refl
op_latencies-cons store ops = refl

op_errors-cons : (op : Op) (ops : List Op) → errors_of (op ∷ ops) ≡ op_errors op + errors_of ops
op_errors-cons (reply code d) ops = omega arith
op_errors-cons error ops = omega arith
op_errors-cons load ops = omega arith
op_errors-cons store ops = omega arith

run-Accounts :
    {f g : Flow} {ops : List Op} (ds : List ℕ) (errs : ℕ)
    → Accounts f ds errs
    → Run f ops g
    → Accounts g (ds ++ latencies_of ops) (errs + errors_of ops)
run-Accounts ds errs a (done f) =
    rw (append-nil ds) (subst (Accounts f ds) (let q : errs ≡ errs + 0 = omega arith in q) a)
run-Accounts {g = h} ds errs a (then_ {op = op} {ops = ops} step rest) =
    let later =
      run-Accounts (ds ++ op_latencies op) (errs + op_errors op) (step-Accounts ds errs a step)
        rest in
    let ds_eq : (ds ++ op_latencies op) ++ latencies_of ops ≡ ds ++ latencies_of (op ∷ ops) =
      append_assoc ds (op_latencies op) (latencies_of ops)
      ∙ ap (λ l. ds ++ l) (sym (op_latencies-cons op ops)) in
    let errs_eq : (errs + op_errors op) + errors_of ops ≡ errs + errors_of (op ∷ ops) =
      omega (arith, op_errors-cons op ops) in
    subst (λ l. Accounts h l (errs + errors_of (op ∷ ops))) ds_eq
      (subst (Accounts h ((ds ++ op_latencies op) ++ latencies_of ops)) errs_eq later)

-- However the users' calls and the two halves of `snapshot` follow one another from the start: the
-- latencies in the reports, and behind them those that are not reported yet, are the latencies of the
-- calls, each once and in their order; and the errors reported and still counted are not more than
-- the calls of `recordError`.
pub run_reports :
    (f : Flow) (ops : List Op)
    → Run new_flow ops f
    → (all_latencies f ≡ latencies_of ops) × (all_errors f ≤ errors_of ops)
run_reports f ops run =
    let start : Accounts new_flow [] 0 = record {
      latencies = refl;
      room = 0;
      fits = omega arith;
      stored = omega arith;
      agrees = tt;
    } in
    let a = run-Accounts [] 0 start run in (a.latencies, omega (arith, a.fits, a.stored))

-- In any state where no `snapshot` is under way, one can begin, an error be recorded between its
-- `Load` and its `Store`, and the `snapshot` end: the steps are a run, and as many errors are
-- reported or counted behind it as before, so that the one recorded is in no report.
pub error_between_lost :
    (f : Flow)
    → f.reading ≡ none
    → (g : Flow) × Run f (load ∷ error ∷ store ∷ []) g × (all_errors g ≡ all_errors f)
error_between_lost f idle =
    let during : Flow = record f { reading = some (taken f.stats) } in
    let counted : Flow = record during { stats = record_error f.stats } in
    (
      record { stats = new_stats; reading = none; reports = f.reports ++ taken f.stats ∷ [] },
      then_ (loaded f idle)
          (then_ (erred during) (then_ (stored counted (taken f.stats) refl) (done _))),
      omega (arith, reported_errors-append f.reports (taken f.stats)),
    )
