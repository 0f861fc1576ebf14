-- ===== src/Tests/Orders.antt =====
-- A run of the chain of a service down to the database of orders.
use go_api_gateway.Prelude.{
  ◌≡◌, ◌⊎◌, refl, true, false, Option, none, some, [], pos, Text, codes, text_eq, ℤ, List,
}
use go_api_gateway.Prelude.Dict.{find, put}
use go_api_gateway.Http.{Request, Action}
use go_api_gateway.Auth.Access.{Authenticated}
use go_api_gateway.RateLimit.{rate_limit}
use go_api_gateway.ResponseCache.{State}
use go_api_gateway.Lru.{new_lru}
use go_api_gateway.Proxy.{Proxy, response, inject_user_headers}
use go_api_gateway.Router.{service_chain}
use go_api_gateway.Router.Protection.{HasRole}
use go_api_gateway.Router.Upstream.{Surroundings, mount, strip_prefix}
use go_api_gateway.Upstreams.{OrderCreate, Created, Row, row, post_order}
use go_api_gateway.Upstreams.Orders.{IsOrderable}
use go_api_gateway.Upstreams.ForSubject.{database_after, inserts_for_subject}
use go_api_gateway.Tests.Edges.{request}
use go_api_gateway.Tests.Starts.{orders, configured, verify, no_split, same, moment}
use go_api_gateway.Tests.Upstream.{handler, ask}

-- The database keeps the last order.
abbrev Order : Type 0
Order = Option (Text × ℤ × ℤ)

abbrev insert : Text → ℤ → ℤ → Order → Order × Row Created
insert user product quantity s =
    (some (user, product, quantity), row (record { id = pos 1; total_cents = pos 500 }))

abbrev two_of_one : Request → Option OrderCreate
two_of_one r = some (record { product_id = pos 1; quantity = pos 2 })

abbrev encode : Created → Text
encode c = codes "{}"

abbrev read : Request → Order → List Action
read r s = []

abbrev around : Surroundings Order
around = record {
  healthy = λ u. true;
  at_allow = pos 3;
  at_record = pos 4;
  parse_url = λ raw. some (record { scheme = codes "http"; host = codes "a" });
  prepare = λ h. h;
  set_forwarded = λ h. h;
  inject_trace = λ h. h;
  reach = λ u r s. (s, response 200 []);
}

abbrev posted : Request
posted = record request { method = codes "POST"; path = codes "/orders/orders" }

abbrev state : State (Proxy × Order)
state = record { lru = new_lru (pos 1) (pos 1); vary = []; world = (handler, none) }

abbrev after : Order
after =
    database_after insert encode two_of_one read no_split ask same same same around
      (verify (codes "key")) orders configured false moment posted 0 state

inserts_for_subject_example :
    (after ≡ none)
    ⊎ ((who : Authenticated (verify (codes "key")) posted) × HasRole orders.required_roles
          who.identity.roles
        × ((p : OrderCreate) × IsOrderable p
            × (after ≡ (insert who.identity.subject p.product_id p.quantity none).0)))
inserts_for_subject_example =
    inserts_for_subject insert encode two_of_one read no_split ask same same same around
      (verify (codes "key")) orders configured false moment refl posted 0 state

-- The order gets through.
order_is_kept : after ≡ some (codes "ann", pos 1, pos 2)
unfolding service_chain find put text_eq mount strip_prefix new_lru rate_limit inject_user_headers
    post_order
order_is_kept = refl
