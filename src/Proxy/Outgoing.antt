-- ===== src/Proxy/Outgoing.antt =====
-- The request to the upstream: `Rewrite` and the transport of internal/proxy/proxy.go, and
-- internal/proxy/rewrite.go. `url.Parse`, `SetXForwarded` and the injection of the propagator are
-- parameters.
pub mod Identity
use go_api_gateway.Prelude.{
  Option, none, some, List, [], ◌∷◌, ◌++◌, ℤ, pos, Bool, true, Text, codes,
}
use go_api_gateway.Prelude.Dict.{Dict}
use go_api_gateway.Config.Types.{seconds}
use go_api_gateway.Http.{Header, Request, Claims}
use go_api_gateway.Breaker.{Breaker}
use go_api_gateway.RoundRobin.{RoundRobin}
use go_api_gateway.Proxy.{Proxy, inject_user_headers}

pub record Url : Type 0 where
  pub scheme : Text
  pub host : Text

-- `pr.Out`, with the target and the claims of its context.
pub record Outgoing : Type 0 where
  pub url : Url
  pub host : Text
  pub header : Header
  pub target : Option Text
  pub claims : Option Claims

pub data Rewritten : Type 0 where
  rewritten : Outgoing → Rewritten
  panicked : Text → Rewritten

-- `newTargetContext` on the request that goes to the `ReverseProxy`.
abbrev pub with_target : Text → Request → Request
with_target target r = record r { target = some target }

module _ (parse_url : Text → Option Url) (set_forwarded inject_trace : Header → Header) where
  abbrev pub rewrite_to : Outgoing → Url → Rewritten
  rewrite_to out url = rewritten (record out {
    url = url;
    host = url.host;
    header = inject_user_headers out.claims (inject_trace (set_forwarded out.header));
  })

  -- `mustParseURL`.
  abbrev pub rewrite_parsed : Outgoing → Text → Option Url → Rewritten
  rewrite_parsed out raw none = panicked (codes "proxy: invalid upstream URL: " ++ raw)
  rewrite_parsed out raw (some url) = rewrite_to out url

  -- `mustGetTargetFromContext`.
  abbrev pub rewrite_at : Outgoing → Option Text → Rewritten
  rewrite_at out none = panicked (codes "proxy: target URL not found in request context")
  rewrite_at out (some target) = rewrite_parsed out target (parse_url target)

  -- `Rewrite`.
  unfoldable pub rewrite : Outgoing → Rewritten
  rewrite out = rewrite_at out out.target

-- `TransportConfig`, in nanoseconds where it is a time.
pub record TransportConfig : Type 0 where
  pub max_idle_conns : ℤ
  pub max_idle_conns_per_host : ℤ
  pub idle_conn_timeout : ℤ
  pub dial_timeout : ℤ
  pub tls_handshake_timeout : ℤ

-- What is set of an `http.Transport` and its dialer.
pub record Transport : Type 0 where
  pub dial_timeout : ℤ
  pub keep_alive : ℤ
  pub max_idle_conns : ℤ
  pub max_idle_conns_per_host : ℤ
  pub idle_conn_timeout : ℤ
  pub tls_handshake_timeout : ℤ
  pub expect_continue_timeout : ℤ
  pub force_attempt_http2 : Bool

unfoldable pub new_upstream_transport : TransportConfig → Transport
new_upstream_transport tc = record {
  dial_timeout = tc.dial_timeout;
  keep_alive = seconds 30;
  max_idle_conns = tc.max_idle_conns;
  max_idle_conns_per_host = tc.max_idle_conns_per_host;
  idle_conn_timeout = tc.idle_conn_timeout;
  tls_handshake_timeout = tc.tls_handshake_timeout;
  expect_continue_timeout = seconds 1;
  force_attempt_http2 = true;
}

-- `NewHandler`: the handler, and the transport of its `ReverseProxy`.
unfoldable pub new_handler : RoundRobin → Dict Breaker → TransportConfig → Proxy × Transport
unfolding new_upstream_transport
new_handler lb breakers tc = (record { lb = lb; breakers = breakers }, new_upstream_transport tc)
