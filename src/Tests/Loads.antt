-- ===== src/Tests/Loads.antt =====
-- Runs of the load tests: percentiles, reports and tokens.
use go_api_gateway.Prelude.{
  ℕ, suc, ◌≡◌, ◌≢◌, refl, true, Option, none, some, List, [], ◌∷◌, leb, if◌then◌else◌, pos, Text,
  codes, arith,
}
use go_api_gateway.Prelude.Dict.{Dict}
use mathlib.Core.List.{Permᴰ}
use go_api_gateway.Http.{Request, Handler, Claims, write}
use go_api_gateway.Auth.{Token, JwtParser, parse_and_validate_token, jwt_auth}
use go_api_gateway.Auth.Access.{identified}
use go_api_gateway.LoadTest.{
  Call, prepare, Snapshot, taken, new_stats, record_reply, record_error, count_up, print_interval,
}
use go_api_gateway.LoadTest.Percentiles.{IsSorted, Reports, print_interval-Reports}
use go_api_gateway.LoadTest.Snapshots.{
  Flow, new_flow, Op, reply, error, load, store, Run, then_, done, replied, erred, loaded, stored,
}
use go_api_gateway.LoadTest.Token.{ClaimValue, claims_for, sign_token}
use go_api_gateway.LoadTest.Token.Accepted.{parsed, Verifies, sign_token-jwt_auth}

abbrev insert : ℕ → List ℕ → List ℕ
insert x [] = x ∷ []
insert x (y ∷ ys) = let rest = insert x ys in if leb x y then x ∷ y ∷ ys else y ∷ rest

abbrev sort : List ℕ → List ℕ
sort [] = []
sort (x ∷ xs) = insert x (sort xs)

abbrev interval : Snapshot
interval = record {
  latencies = 2500000 ∷ 1234567 ∷ 9000000 ∷ [];
  codes = (200, 3) ∷ [];
  errors = 1;
}

interval-IsSorted : IsSorted (sort interval.latencies)
interval-IsSorted = (((omega arith, (omega arith, tt)), ((omega arith, tt), (tt, tt))))

interval_perm : Permᴰ interval.latencies (sort interval.latencies)
interval_perm = Permᴰ.swap refl refl

print_interval-Reports_example : Reports interval (print_interval sort interval)
print_interval-Reports_example =
    print_interval-Reports sort interval interval-IsSorted interval_perm

-- A reply, an error in the middle of a snapshot, and the snapshot.
abbrev ops : List Op
ops = reply 200 1500000 ∷ load ∷ error ∷ store ∷ []

abbrev after_reply : Flow
after_reply = record {
  stats = record { latencies = 1500000 ∷ []; codes = (200, 1) ∷ []; errors = 0 };
  reading = none;
  reports = [];
}

abbrev reading_it : Flow
reading_it = record after_reply { reading = some (taken after_reply.stats) }

abbrev with_error : Flow
with_error = record reading_it { stats = record after_reply.stats { errors = 1 } }

abbrev reported : Flow
reported = record { stats = new_stats; reading = none; reports = taken after_reply.stats ∷ [] }

ops_run : Run new_flow ops reported
unfolding record_reply record_error count_up
ops_run = then_ (replied new_flow 200 1500000 refl) (
    then_ (loaded after_reply refl) (
      then_ (erred reading_it)
        (then_ (stored with_error (taken after_reply.stats) refl) (done reported))))

abbrev admin : Dict ClaimValue
admin = claims_for 1700000000000000000 (codes "alice") (codes "admin" ∷ [])

-- A scheme with one token.
abbrev sign : ℕ → Dict ClaimValue → Option Text
sign key m = some (codes "h.p.s")

abbrev admin_if : Option ℕ → Option Token
admin_if none = none
admin_if (some key) = some (parsed admin)

abbrev parse : JwtParser ℕ
parse key_func methods raw = admin_if (key_func (record { is_rsa = true; alg = codes "RS256" }))

parse-Verifies : Verifies sign parse 7 8 admin
parse-Verifies key_func methods raw signed given listed = rw given refl

abbrev order : Call
order = record {
  method = codes "POST";
  url = codes "http://gateway/orders/orders";
  body = codes "{}";
  token = codes "h.p.s";
}

abbrev as_sent : Request
as_sent = record {
  method = codes "POST";
  path = codes "/orders/orders";
  query = [];
  header = (prepare order).header;
  remote_addr = codes "1.2.3.4:5";
  content_length = pos 2;
  body_limit = none;
  claims = none;
  request_id = none;
  target = none;
}

-- It answers with the subject that it finds.
abbrev subject_of : Option Claims → Text
subject_of none = []
subject_of (some c) = c.subject

abbrev greeting : Handler ℕ
greeting r n = (write (subject_of r.claims) ∷ [], suc n)

some_token : order.token ≢ []
some_token e = cc

sign_token-jwt_auth_example :
    jwt_auth greeting (parse_and_validate_token parse 8) as_sent 0
    ≡ greeting
        (identified as_sent (record { subject = codes "alice"; roles = codes "admin" ∷ [] }))
        0
unfolding sign_token
sign_token-jwt_auth_example =
    sign_token-jwt_auth sign parse 7 8 greeting 1700000000000000000 (codes "alice")
      (codes "admin" ∷ []) order as_sent 0 parse-Verifies refl some_token refl
