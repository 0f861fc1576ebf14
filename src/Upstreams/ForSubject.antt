-- ===== src/Upstreams/ForSubject.antt =====
-- For whom upstream/orders/main.go takes orders where it stands behind a service of
-- cmd/gateway/server.go with `auth`.
use go_api_gateway.Prelude.{
  ◌≡◌, refl, ◌∙◌, ◌⊎◌, inl, inr, true, false, Bool, Option, none, some, List, Text, codes, text_eq,
  ite, if◌then◌else◌, Option-cases, Bool-cases,
}
use go_api_gateway.Config.Types.{ServiceConfig, GatewayConfig}
use go_api_gateway.Http.{Request, Action, status_of, header_get}
use go_api_gateway.Auth.{Token}
use go_api_gateway.Auth.Access.{Authenticated}
use go_api_gateway.RateLimit.{Verdict}
use go_api_gateway.ResponseCache.{State}
use go_api_gateway.Server.{Limiter}
use go_api_gateway.Proxy.{Proxy, RoundTrip, response}
use go_api_gateway.Router.{Moment}
use go_api_gateway.Router.Protection.{chain, HasRole}
use go_api_gateway.Router.Upstream.{Surroundings, mounted}
use go_api_gateway.Router.Upstream.Sees.{chain-SeesOnly}
use go_api_gateway.Upstreams.{OrderCreate, Created, Insert, post_order, broken_rule}
use go_api_gateway.Upstreams.Orders.{IsOrderable, broken_rule_iff}

module _ {S : Type 0} (insert : Insert S) (encode : Created → Text)
    (decode : Request → Option OrderCreate) (read : Request → S → List Action) where
  -- The pattern `POST /orders` of the mux.
  abbrev pub is_post_orders : Request → Bool
  is_post_orders r =
      ite (text_eq r.method (codes "POST")) (ite (text_eq r.path (codes "/orders")) true false)
        false

  -- The routes of orders: `POST /orders`, whose body `decode` reads, and those that change nothing, an
  -- unknown one among them.
  abbrev pub orders_routes : Request → S → List Action × S
  orders_routes r s =
      if is_post_orders r then post_order insert encode r (decode r) s else (read r s, s)

  -- Orders as the one upstream.
  abbrev pub reach_orders : Text → Request → S → S × RoundTrip
  reach_orders u r s =
      let (actions, s') = orders_routes r s in (s', response (status_of actions) actions)

  -- The database is as before, or one order that the rules allow has been inserted for the user.
  abbrev pub InsertsFor : Text → S → S → Type 0
  InsertsFor user s after =
      (after ≡ s)
      ⊎ ((p : OrderCreate) × IsOrderable p × (after ≡ (insert user p.product_id p.quantity s).0))

  post_order-InsertsFor :
      (r : Request) (payload : Option OrderCreate) (s : S) (user : Text)
      → header_get (codes "X-User") r.header ≡ user
      → InsertsFor user s (post_order insert encode r payload s).1
  unfolding post_order
  post_order-InsertsFor r none s user is_user = inl refl
  post_order-InsertsFor r (some p) s user is_user = elim (Option-cases (broken_rule p)) [
    | inl kept ↦ rw (kept, is_user) (inr (p, (broken_rule_iff p).0 kept, refl))
    | inr (rule, breaks) ↦ rw breaks (inl refl)
  ]

  routes-InsertsFor :
      (r : Request) (s : S) (user : Text)
      → header_get (codes "X-User") r.header ≡ user
      → InsertsFor user s (orders_routes r s).1
  routes-InsertsFor r s user is_user = elim (Bool-cases (is_post_orders r)) [
    | inl posts ↦ rw posts (post_order-InsertsFor r (decode r) s user is_user)
    | inr reads ↦ rw reads (inl refl)
  ]

  module _ {F L : Type 0} (split_host : Text → Option Text)
      (ask : Limiter F → L → Text → L × Verdict) (digest detect gzip : Text → Text)
      (around : Surroundings S) (parse : Text → Option Token) (svc : ServiceConfig F)
      (cfg : GatewayConfig F) (redis : Bool) (at : Moment) where
    -- The database behind the chain of the service once the request is over.
    abbrev pub database_after : Request → L → State (Proxy × S) → S
    database_after r l st =
        (chain split_host ask digest detect gzip
          (mounted (record around { reach = reach_orders }) svc.prefix) parse svc cfg redis at r
          (l, st)).1.1.world.1

    -- Whatever request comes to a service with `auth` whose upstreams are orders, with whatever headers:
    -- the database is as before, or the request bears a token that verifies and holds one of the roles
    -- where any is required, and one order has been inserted, for the subject of that token and with
    -- a product and a quantity that the rules allow.
    pub inserts_for_subject :
        svc.auth ≡ true
        → (r : Request) (l : L) (st : State (Proxy × S))
        → (database_after r l st ≡ st.world.1)
          ⊎ ((who : Authenticated parse r) × HasRole svc.required_roles who.identity.roles
              × ((p : OrderCreate) × IsOrderable p
                  × (database_after r l st
                      ≡ (insert who.identity.subject p.product_id p.quantity st.world.1).0)))
    inserts_for_subject auth r l st =
        elim (chain-SeesOnly split_host ask digest detect gzip
          (record around { reach = reach_orders }) parse svc cfg redis at auth r l st) [
            | inl kept ↦ inl kept
            | inr (who, held, (u, asked, tells, after)) ↦
                elim (routes-InsertsFor asked st.world.1 who.identity.subject tells.user_is) [
                  | inl kept ↦ inl (after ∙ kept)
                  | inr (p, orderable, inserted) ↦ inr (who, held, (p, orderable, after ∙ inserted))
                ]
          ]
