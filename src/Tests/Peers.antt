-- ===== src/Tests/Peers.antt =====
-- Runs of the telemetry and of the example services.
use go_api_gateway.Prelude.{◌≡◌, none, some, List, [], ◌∷◌, ℤ, pos, Text, codes, ◌⊎◌}
use go_api_gateway.Http.{Request, Claims, status_of}
use go_api_gateway.Telemetry.{Library, Intervals, tracer, setup}
use go_api_gateway.Telemetry.Release.{IsReleased, setup-IsReleased}
use go_api_gateway.Upstreams.{OrderCreate, Created, Row, row, created_reply, post_order}
use go_api_gateway.Upstreams.Orders.{IsOrderable, forwarded, post_order_lem}

-- The exporter of the logs cannot be made.
abbrev without_logs : Library Text
without_logs = record {
  merge_error = none;
  trace_error = λ url. none;
  metric_error = λ url. none;
  log_error = λ url. some url;
  runtime_error = none;
  shutdown_error = λ p. none;
}

abbrev intervals : Intervals
intervals = record {
  metric_interval = pos 10;
  trace_batch_timeout = pos 5;
  log_batch_timeout = pos 1;
}

setup-IsReleased_example : IsReleased (setup without_logs (codes "http://otel/") intervals) tracer
setup-IsReleased_example = setup-IsReleased without_logs (codes "http://otel/") intervals tracer

abbrev posted : Request
posted = record {
  method = codes "POST";
  path = codes "/orders";
  query = [];
  header = (codes "X-User", codes "mallory" ∷ []) ∷ [];
  remote_addr = codes "1.2.3.4:5";
  content_length = pos 20;
  body_limit = none;
  claims = none;
  request_id = none;
  target = none;
}

abbrev ann : Claims
ann = record { subject = codes "ann"; roles = codes "admin" ∷ [] }

abbrev two_teapots : OrderCreate
two_teapots = record { product_id = pos 3; quantity = pos 2 }

-- The users who have ordered.
abbrev insert : Text → ℤ → ℤ → List Text → List Text × Row Created
insert user product quantity users =
    (user ∷ users, row (record { id = pos 1; total_cents = pos 500 }))

abbrev encode : Created → Text
encode c = codes "{\"id\":1,\"total_cents\":500}\n"

post_order_lem_example :
    ((p : OrderCreate) × (some two_teapots ≡ some p)
      × IsOrderable p
      × (post_order insert encode (forwarded posted ann) (some two_teapots) [] ≡ (
        created_reply encode (insert (codes "ann") p.product_id p.quantity []).1,
        (insert (codes "ann") p.product_id p.quantity []).0,
      )))
    ⊎ (((p : OrderCreate) → some two_teapots ≡ some p → IsOrderable p → ⊥)
        × (status_of (post_order insert encode (forwarded posted ann) (some two_teapots) []).0
            ≡ 400)
        × ((post_order insert encode (forwarded posted ann) (some two_teapots) []).1 ≡ []))
post_order_lem_example = post_order_lem insert encode posted ann (some two_teapots) []
