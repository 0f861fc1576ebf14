-- ===== src/LoadTest.antt =====
-- loadtest/scenarios/user_flow.go: simulated users, and the statistics of their requests. The HTTP
-- client and the clock are parameters; latencies are nanoseconds, and are not negative, since
-- `time.Since` reads the monotonic clock. The users' draws of `rand` are part of what happens.
pub mod Token
pub mod Percentiles
pub mod Snapshots
use go_api_gateway.Prelude.{
  ℕ, zero, suc, ◌+◌, ◌*◌, ◌/◌, ◌%◌, ◌^◌, Bool, true, false, Option, none, some, List, [], ◌∷◌, ◌++◌,
  if◌then◌else◌, ◌&&◌, ◌==◌, Text, codes, length, get_elem?, ite, arith,
}
use go_api_gateway.Prelude.Dict.{Dict}
use go_api_gateway.Http.{Header, header_set}

-- `map[int]int64` as an association list; a count keeps 64 bits.
abbrev pub Counts : Type 0
Counts = List (ℕ × ℕ)

unfoldable pub count_up : ℕ → Counts → Counts
count_up code [] = (code, 1) ∷ []
count_up code ((c, n) ∷ counts) =
    let rest = count_up code counts in
    if c == code then (c, (n + 1) % 2 ^ 64) ∷ counts else (c, n) ∷ rest

pub record Stats : Type 0 where
  pub latencies : List ℕ
  pub codes : Counts
  pub errors : ℕ

abbrev pub new_stats : Stats
new_stats = record { latencies = []; codes = []; errors = 0 }

-- The method `record`.
unfoldable pub record_reply : ℕ → ℕ → Stats → Stats
unfolding count_up
record_reply code d s = record s {
  latencies = s.latencies ++ d ∷ [];
  codes = count_up code s.codes;
}

unfoldable pub record_error : Stats → Stats
record_error s = record s { errors = (s.errors + 1) % 2 ^ 64 }

-- A call of `doReq`.
pub record Call : Type 0 where
  pub method : Text
  pub url : Text
  pub body : Text
  pub token : Text

-- The request that it gives the client.
pub record Sent : Type 0 where
  pub method : Text
  pub url : Text
  pub header : Header
  pub body : Text

abbrev pub set_unless_empty : Text → Text → Text → Header → Header
set_unless_empty [] name v h = h
set_unless_empty (x ∷ xs) name v h = header_set name v h

unfoldable pub prepare : Call → Sent
unfolding header_set
prepare call = record {
  method = call.method;
  url = call.url;
  header =
      set_unless_empty call.token (codes "Authorization") (codes "Bearer " ++ call.token)
        (set_unless_empty call.body (codes "Content-Type") (codes "application/json") []);
  body = call.body;
}

-- What becomes of a request: `NewRequestWithContext` refuses it; `Do` fails, and the context has ended
-- or not; or there is a response.
pub data Exchange : Type 0 where
  malformed : Exchange
  failed : (ended : Bool) → Exchange
  responded : (status elapsed : ℕ) → Exchange

-- `doReq`, with the client in it.
unfoldable pub do_req : (Sent → Exchange) → Call → Stats → Stats
unfolding prepare record_reply record_error
do_req exchange call s = elim (exchange (prepare call)) [
  | malformed ↦ record_error s
  | failed ended ↦ if ended then s else record_error s
  | responded status elapsed ↦ record_reply status elapsed s
]

-- One turn of the loop of `runUser`: whether the context has ended at its head, what `rand` draws, and
-- the client's answers to its three requests.
pub record Turn : Type 0 where
  pub ended : Bool
  pub product_draw : ℕ
  pub quantity_draw : ℕ
  pub browse : Sent → Exchange
  pub view : Sent → Exchange
  pub order : Sent → Exchange
  pub ended_thinking : Bool

-- `rand.IntN(3) + 1`, printed.
abbrev pub drawn : ℕ → Text
drawn k = (k % 3 + 1 + b'0') ∷ []

abbrev pub get : Text → Call
get url = record { method = codes "GET"; url = url; body = []; token = [] }

abbrev pub order_call : Text → Text → Turn → Call
order_call gateway token turn = record {
  method = codes "POST";
  url = gateway ++ codes "/orders/orders";
  body =
      codes "{\"product_id\":"
      ++ (drawn turn.product_draw
          ++ (codes ",\"quantity\":" ++ (drawn turn.quantity_draw ++ codes "}")));
  token = token;
}

unfoldable pub visit : Text → Text → Turn → Stats → Stats
unfolding do_req
visit gateway token turn s = do_req turn.order (order_call gateway token turn) (
    do_req turn.view (get (gateway ++ (codes "/catalog/products/" ++ drawn turn.product_draw)))
      (do_req turn.browse (get (gateway ++ codes "/catalog/products")) s))

-- `runUser`, over the turns that it takes at most.
unfoldable pub run_user : Text → Text → List Turn → Stats → Stats
unfolding visit
run_user gateway token [] s = s
run_user gateway token (turn ∷ turns) s =
    let s' = visit gateway token turn s in
    let rest = run_user gateway token turns s' in
    if turn.ended then s else (if turn.ended_thinking then s' else rest)

-- The goroutines of `main`, one after another.
unfoldable pub run_users : Text → Text → List (List Turn) → Stats → Stats
unfolding run_user
run_users gateway token [] s = s
run_users gateway token (turns ∷ users) s =
    run_users gateway token users (run_user gateway token turns s)

-- What `snapshot` returns.
pub record Snapshot : Type 0 where
  pub latencies : List ℕ
  pub codes : Counts
  pub errors : ℕ

abbrev pub taken : Stats → Snapshot
taken s = record { latencies = s.latencies; codes = s.codes; errors = s.errors }

-- `snapshot` by itself.
unfoldable pub snapshot : Stats → Snapshot × Stats
snapshot s = (taken s, new_stats)

-- A line that `printInterval` prints, with `none` for the dash of a percentile. A panic is an index out
-- of range.
pub record Line : Type 0 where
  pub requests : ℕ
  pub p50 : Option ℕ
  pub p95 : Option ℕ
  pub p99 : Option ℕ
  pub errors : ℕ
  pub codes : Counts

pub data Printed : Type 0 where
  silent : Printed
  line : Line → Printed
  panicked : Printed

-- `Truncate(100 * time.Microsecond)`.
unfoldable pub truncate : ℕ → ℕ
truncate d = d / 100000 * 100000

abbrev pub print_with : ℕ → Snapshot → Option ℕ → Option ℕ → Option ℕ → Printed
print_with n snap (some a) (some b) (some c) = line (record {
  requests = n;
  p50 = some (truncate a);
  p95 = some (truncate b);
  p99 = some (truncate c);
  errors = snap.errors;
  codes = snap.codes;
})
print_with n snap _ _ _ = panicked

-- The lines behind `slices.Sort`.
abbrev pub print_sorted : Snapshot → List ℕ → Printed
print_sorted snap [] = line (record {
  requests = 0;
  p50 = none;
  p95 = none;
  p99 = none;
  errors = snap.errors;
  codes = snap.codes;
})
print_sorted snap (d ∷ ds) =
    let n = length (d ∷ ds) in
    print_with n snap (get_elem? (d ∷ ds) (n * 50 / 100)) (get_elem? (d ∷ ds) (n * 95 / 100))
      (get_elem? (d ∷ ds) (n * 99 / 100))

-- `printInterval` on what `snapshot` has returned, with `sort` for `slices.Sort`.
unfoldable pub print_interval : (List ℕ → List ℕ) → Snapshot → Printed
unfolding truncate
print_interval sort snap =
    if length snap.latencies == 0 && snap.errors == 0
    then silent
    else print_sorted snap (sort snap.latencies)

-- `reportLoop` until the context has ended: before each tick the users do something to the statistics.
unfoldable pub report_loop : (List ℕ → List ℕ) → List (Stats → Stats) → Stats → List Printed × Stats
unfolding print_interval snapshot
report_loop sort [] s = ([], s)
report_loop sort (meanwhile ∷ ticks) s =
    let (snap, s') = snapshot (meanwhile s) in
    let (printed, last) = report_loop sort ticks s' in (print_interval sort snap ∷ printed, last)
