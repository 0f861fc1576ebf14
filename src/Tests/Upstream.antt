-- ===== src/Tests/Upstream.antt =====
-- A run of the chain of a service down to its upstream.
use go_api_gateway.Prelude.{
  ℕ, suc, ◌≡◌, ◌⊎◌, refl, true, false, some, [], ◌∷◌, ◌++◌, pos, Text, codes, text_eq,
}
use go_api_gateway.Prelude.Dict.{find, put}
use go_api_gateway.Http.{Request, header_get}
use go_api_gateway.Auth.Access.{Authenticated}
use go_api_gateway.Breaker.{closed}
use go_api_gateway.RateLimit.{Verdict, verdict, rate_limit}
use go_api_gateway.ResponseCache.{State}
use go_api_gateway.Lru.{new_lru}
use go_api_gateway.Proxy.{Proxy, response, inject_user_headers}
use go_api_gateway.Server.{Limiter}
use go_api_gateway.Router.{service_chain}
use go_api_gateway.Router.Protection.{chain, HasRole}
use go_api_gateway.Router.Upstream.{Surroundings, mount, mounted, strip_prefix}
use go_api_gateway.Router.Upstream.Sees.{IsAsked, chain-SeesOnly}
use go_api_gateway.Tests.Edges.{request}
use go_api_gateway.Tests.Starts.{orders, configured, verify, no_split, same, moment}

-- The upstream keeps the user and the path of the last request.
abbrev surroundings : Surroundings Text
surroundings = record {
  healthy = λ u. true;
  at_allow = pos 3;
  at_record = pos 4;
  parse_url = λ raw. some (record { scheme = codes "http"; host = codes "a" });
  prepare = λ h. h;
  set_forwarded = λ h. h;
  inject_trace = λ h. h;
  reach = λ u r s. (header_get (codes "X-User") r.header ++ r.path, response 200 []);
}

abbrev pub handler : Proxy
handler = record {
  lb = record { urls = codes "http://a" ∷ []; counter = 0 };
  breakers =
      (
        codes "http://a",
        record {
          state = closed;
          failures = pos 0;
          max_failures = pos 3;
          timeout = pos 10;
          opened_at = pos 0;
        },
      )
      ∷ [];
}

abbrev asked : Request
asked = record request { path = codes "/orders/list" }

abbrev state : State (Proxy × Text)
state = record { lru = new_lru (pos 1) (pos 1); vary = []; world = (handler, codes "nobody") }

abbrev pub ask : Limiter ℕ → ℕ → Text → ℕ × Verdict
ask limiter n key = (suc n, verdict true)

chain-SeesOnly_example :
    let after =
      (chain no_split ask same same same
        (mounted surroundings orders.prefix)
        (verify (codes "key"))
        orders
        configured
        false
        moment
        asked
        (0, state)).1.1.world.1 in
    (after ≡ codes "nobody")
    ⊎ ((who : Authenticated (verify (codes "key")) asked) × HasRole orders.required_roles
          who.identity.roles
        × IsAsked surroundings who.identity (codes "nobody") after)
chain-SeesOnly_example =
    chain-SeesOnly no_split ask same same same surroundings (verify (codes "key")) orders configured
      false moment refl asked 0 state

-- The request gets through: the upstream keeps the subject of the token and the path behind the
-- prefix.
gets_through :
    (chain no_split ask same same same
      (mounted surroundings orders.prefix)
      (verify (codes "key"))
      orders
      configured
      false
      moment
      asked
      (0, state)).1.1.world.1
    ≡ codes "ann/list"
unfolding service_chain find put text_eq mount strip_prefix new_lru rate_limit inject_user_headers
gets_through = refl
