-- ===== src/Router/Upstream.antt =====
-- What a service of cmd/gateway/server.go mounts: the handler of internal/proxy with the upstreams that
-- it reaches. An upstream is a parameter, with a state of its own; so are url.Parse, SetXForwarded, the
-- propagator, and how the ReverseProxy prepares the outgoing headers.
pub mod Sees
use go_api_gateway.Prelude.{Bool, Option, none, some, List, [], ◌∷◌, ◌++◌, ℤ, Text, codes}
use go_api_gateway.Strings.{is_some, cut_prefix}
use go_api_gateway.Http.{Header, Request, Action, Handler, set_header, write_header, write}
use go_api_gateway.Middleware.{server_error}
use go_api_gateway.Proxy.{Proxy, RoundTrip, Served, answered, broken_off, panicked}
use go_api_gateway.Proxy.Overlap.{Admission, replied, forwarded, admit, complete}
use go_api_gateway.Proxy.Outgoing.{
  Url, Outgoing, Rewritten, rewritten, panicked, with_target, rewrite,
}

-- What stands around the proxy while it serves one request.
pub record Surroundings (S : Type 0) : Type 0 where
  pub healthy : Text → Bool
  pub at_allow : ℤ
  pub at_record : ℤ
  pub parse_url : Text → Option Url
  pub prepare : Header → Header
  pub set_forwarded : Header → Header
  pub inject_trace : Header → Header
  -- The round trip to the upstream at a base URL.
  pub reach : Text → Request → S → S × RoundTrip

-- The reply, with the Recoverer's to a panic, which unwinds the cache without a store. What the client
-- has got, without a cache, of a response that breaks off is left out.
abbrev pub actions_of : Served → List Action
actions_of (answered actions) = actions
actions_of (broken_off actions) = server_error
actions_of (panicked why) = server_error

-- `http.NotFound`.
abbrev pub not_found : List Action
not_found =
    set_header (codes "Content-Type") (codes "text/plain; charset=utf-8")
    ∷ set_header (codes "X-Content-Type-Options") (codes "nosniff")
    ∷ write_header 404
    ∷ write (codes "404 page not found" ++ 10 ∷ [])
    ∷ []

abbrev pub stripped : {M : Type 0} → Handler M → Request → M → Option Text → List Action × M
stripped next r m none = (not_found, m)
stripped next r m (some rest) = next (record r { path = rest }) m

-- `http.StripPrefix`, on a path without escapes.
unfoldable pub strip_prefix : {M : Type 0} → Text → Handler M → Handler M
unfolding cut_prefix
strip_prefix [] next r m = next r m
strip_prefix (c ∷ prefix) next r m = stripped next r m (cut_prefix r.path (c ∷ prefix))

module _ {S : Type 0} (env : Surroundings S) where
  -- The outgoing request before `Rewrite`.
  abbrev pub outgoing : Request → Outgoing
  outgoing r = record {
    url = record { scheme = []; host = [] };
    host = [];
    header = env.prepare r.header;
    target = r.target;
    claims = r.claims;
  }

  abbrev pub parses : Text → Bool
  parses u = is_some (env.parse_url u)

  -- The round trip of a rewritten request, and what the proxy makes of its outcome.
  abbrev pub sent : Proxy → Text → Request → S → Rewritten → List Action × (Proxy × S)
  sent h u r s (panicked why) = (server_error, (h, s))
  sent h u r s (rewritten out) =
      let (s', outcome) = env.reach u (record r { header = out.header }) s in
      let (h', reply) = complete parses h u outcome env.at_record in (actions_of reply, (h', s'))

  abbrev pub carried : Request → S → Proxy × Admission → List Action × (Proxy × S)
  carried r s (h, replied reply) = (actions_of reply, (h, s))
  carried r s (h, forwarded u) =
      sent h u r s
        (rewrite env.parse_url env.set_forwarded env.inject_trace (outgoing (with_target u r)))

  -- `ServeHTTP` of the proxy.
  unfoldable pub mount : Handler (Proxy × S)
  unfolding admit complete rewrite
  mount r (h, s) = carried r s (admit env.healthy h env.at_allow)

  -- What `buildRouter` mounts for a service with the prefix.
  abbrev pub mounted : Text → Handler (Proxy × S)
  mounted prefix = strip_prefix prefix mount
