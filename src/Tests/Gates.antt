-- ===== src/Tests/Gates.antt =====
-- Runs of the proxy and of the middleware that guards it.
use go_api_gateway.Prelude.{
  ℕ, suc, ◌≡◌, refl, Bool, true, false, Option, none, some, List, length, [], ◌∷◌, pos, ◌-ℤ◌, Text,
  codes, All, text_eq,
}
use go_api_gateway.Prelude.Dict.{find}
use go_api_gateway.Http.{Request, Handler, Claims, write, write_header, json_error, error_message}
use go_api_gateway.Breaker.{Breaker, open_}
use go_api_gateway.Proxy.{Proxy, RoundTrip, response, failed, Failure, answered}
use go_api_gateway.Proxy.Overlap.{System, Event, arrive, finish, run}
use go_api_gateway.Proxy.Wedge.{IsShed, large_probe_wedges}
use go_api_gateway.Auth.{Token, string, array, nil, cons}
use go_api_gateway.RateLimit.{Bucket, MemoryLimiter, limiter_of}
use go_api_gateway.RateLimit.Buckets.{answers_for, bucket_answers, answers_for_lem}
use go_api_gateway.Compress.{compress_response}
use go_api_gateway.Compress.Delivery.{Delivered, compress_response-Delivered}

abbrev upstream : Text
upstream = codes "http://a"

abbrev request : Request
request = record {
  method = codes "GET";
  path = codes "/";
  query = [];
  header = (codes "Authorization", codes "Bearer t" ∷ []) ∷ [];
  remote_addr = codes "1.2.3.4:5";
  content_length = pos 0;
  body_limit = none;
  claims = none;
  request_id = none;
  target = none;
}

abbrev tripped : Breaker
tripped = record {
  state = open_;
  failures = pos 3;
  max_failures = pos 3;
  timeout = pos 30;
  opened_at = pos 100;
}

abbrev handler : Proxy
handler = record {
  lb = record { urls = upstream ∷ []; counter = 0 };
  breakers = (upstream, tripped) ∷ [];
}

abbrev too_large : Failure
too_large = record { max_bytes = true; deadline = false; net_timeout = false }

abbrev server_error : Text → Request → RoundTrip
server_error u r = response 500 []

abbrev always : Text → Bool
always u = true

-- Behind the probe one request comes much later, and one while the upstream is down.
abbrev later : List Event
later =
    arrive always (pos 900)
    ∷ arrive (λ u. false) (pos 901)
    ∷ finish 0 (failed too_large) (pos 902)
    ∷ []

large_probe_wedges_example :
    let idle : System = record { handler = handler; in_flight = [] } in
    let (probed, reply) =
      run always idle (arrive always (pos 140) ∷ finish 0 (failed too_large) (pos 141) ∷ []) in
    let (after, replies) = run always probed later in
    (reply ≡ answered (json_error 413 (error_message (codes "request body too large"))) ∷ [])
    × All (IsShed upstream) replies
    × (length replies ≡ 2)
    × (after.in_flight ≡ [])
unfolding find text_eq ◌-ℤ◌
large_probe_wedges_example =
    large_probe_wedges always upstream handler tripped too_large always (pos 140) (pos 141) refl
      refl refl refl refl refl refl later

compress_response-Delivered_example :
    Delivered
      (λ s. codes "text/plain")
      (pos 3)
      (compress_response
        (λ s. codes "text/plain")
        (pos 3)
        []
        (write_header 200 ∷ write (codes "ab") ∷ write (codes "cd") ∷ []))
      (codes "abcd")
compress_response-Delivered_example =
    compress_response-Delivered (λ s. codes "text/plain") (pos 3) []
      (write_header 200 ∷ write (codes "ab") ∷ write (codes "cd") ∷ [])

-- A bucket of one token that is never filled again.
abbrev one_token : Bucket Bool
one_token = record { fresh = true; take_token = λ now full. (false, full) }

abbrev limiter : MemoryLimiter Bool
limiter = record {
  entries = (codes "k", record { limiter = true; last_seen = pos 5 }) ∷ [];
  cleanup_max_idle = pos 60;
}

answers_for_lem_example :
    answers_for one_token
      (codes "k")
      limiter
      ((codes "k", pos 10) ∷ (codes "j", pos 11) ∷ (codes "k", pos 12) ∷ [])
    ≡ bucket_answers one_token
        (codes "k")
        (limiter_of one_token (find (codes "k") limiter.entries))
        ((codes "k", pos 10) ∷ (codes "j", pos 11) ∷ (codes "k", pos 12) ∷ [])
answers_for_lem_example =
    answers_for_lem one_token (codes "k") limiter
      ((codes "k", pos 10) ∷ (codes "j", pos 11) ∷ (codes "k", pos 12) ∷ [])

abbrev claims : Claims
claims = record { subject = codes "ann"; roles = codes "admin" ∷ [] }

abbrev token : Token
token = record {
  claims = some (
      (codes "sub", string (codes "ann"))
      ∷ (codes "roles", array (cons (string (codes "admin")) nil))
      ∷ []);
}

abbrev verify : Text → Option Token
verify raw = some token

-- A handler that counts its requests.
abbrev counting : Handler ℕ
counting r n = (write_header 204 ∷ [], suc n)
