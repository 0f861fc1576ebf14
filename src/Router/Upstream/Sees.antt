-- ===== src/Router/Upstream/Sees.antt =====
-- In whose name a request reaches an upstream behind cmd/gateway/server.go.
use go_api_gateway.Prelude.{
  ◌≡◌, refl, ap, sym, subst, ◌⊎◌, inl, inr, true, Bool, Option, some, [], ◌∷◌, List, Text, codes,
  Option-cases,
}
use go_api_gateway.Strings.{join, cut_prefix}
use go_api_gateway.Config.Types.{ServiceConfig, GatewayConfig}
use go_api_gateway.Http.{Request, Claims, Action}
use go_api_gateway.Auth.{Token}
use go_api_gateway.Auth.Access.{Authenticated, identified}
use go_api_gateway.RateLimit.{Verdict}
use go_api_gateway.ResponseCache.{State}
use go_api_gateway.Server.{Limiter}
use go_api_gateway.Proxy.{Proxy, inject_user_headers}
use go_api_gateway.Proxy.Overlap.{Admission, replied, forwarded, admit}
use go_api_gateway.Proxy.Outgoing.{rewrite, with_target}
use go_api_gateway.Proxy.Outgoing.Identity.{Tells, inject_user_headers-Tells}
use go_api_gateway.Router.{Moment}
use go_api_gateway.Router.Protection.{chain, behind, HasRole, service_protected}
use go_api_gateway.Router.Once.{behind_roles-AtMostOnce}
use go_api_gateway.Router.Upstream.{
  Surroundings, outgoing, sent, carried, mount, mounted, strip_prefix,
}

module _ {S : Type 0} (env : Surroundings S) where
  -- One of the upstreams has got one request, which tells of `c`.
  abbrev pub IsAsked : Claims → S → S → Type 0
  IsAsked c s after =
      (u : Text) × (r : Request) × Tells r.header c.subject (join (codes ",") c.roles)
      × (after ≡ (env.reach u r s).0)

  -- That, or the upstreams are as before.
  abbrev pub SeesOnly : Claims → S → S → Type 0
  SeesOnly c s after = (after ≡ s) ⊎ IsAsked c s after

  sent-SeesOnly :
      (h : Proxy) (u : Text) (r : Request) (s : S) (c : Claims)
      → r.claims ≡ some c
      → SeesOnly c s
          (sent env h u r s (
            rewrite env.parse_url env.set_forwarded env.inject_trace
              (outgoing env (with_target u r)))).1.1
  unfolding rewrite
  sent-SeesOnly h u r s c claims = elim (Option-cases (env.parse_url u)) [
    | inl none_ ↦ rw none_ (inl refl)
    | inr (url, found) ↦
        let header =
          inject_user_headers r.claims
            (env.inject_trace (env.set_forwarded (env.prepare r.header))) in
        let tells : Tells header c.subject (join (codes ",") c.roles) = rw claims (
          inject_user_headers-Tells c
            (env.inject_trace (env.set_forwarded (env.prepare r.header)))) in
        rw found (inr (u, record r { header = header }, tells, refl))
  ]

  carried-SeesOnly :
      (r : Request) (s : S) (c : Claims) (h : Proxy) (a : Admission)
      → r.claims ≡ some c
      → SeesOnly c s (carried env r s (h, a)).1.1
  carried-SeesOnly r s c h (replied reply) claims = inl refl
  carried-SeesOnly r s c h (forwarded u) claims = sent-SeesOnly h u r s c claims

  mount-SeesOnly :
      (r : Request) (h : Proxy) (s : S) (c : Claims)
      → r.claims ≡ some c
      → SeesOnly c s (mount env r (h, s)).1.1
  unfolding mount
  mount-SeesOnly r h s c claims =
      carried-SeesOnly r s c (admit env.healthy h env.at_allow).0
        (admit env.healthy h env.at_allow).1 claims

  -- Where the path lacks the prefix, no upstream is asked.
  mounted-SeesOnly :
      (prefix : Text) (r : Request) (h : Proxy) (s : S) (c : Claims)
      → r.claims ≡ some c
      → SeesOnly c s (mounted env prefix r (h, s)).1.1
  unfolding strip_prefix
  mounted-SeesOnly [] r h s c claims = mount-SeesOnly r h s c claims
  mounted-SeesOnly (p ∷ prefix) r h s c claims =
      elim (Option-cases (cut_prefix r.path (p ∷ prefix))) [
        | inl lacks ↦ rw lacks (inl refl)
        | inr (rest, has) ↦ rw has (mount-SeesOnly (record r { path = rest }) h s c claims)
      ]

module _ {F L S : Type 0} (split_host : Text → Option Text)
    (ask : Limiter F → L → Text → L × Verdict) (digest detect gzip : Text → Text)
    (env : Surroundings S) (parse : Text → Option Token) (svc : ServiceConfig F)
    (cfg : GatewayConfig F) (redis : Bool) (at : Moment) where
  behind-SeesOnly :
      (r : Request) (l : L) (st : State (Proxy × S)) (c : Claims)
      → SeesOnly env c st.world.1
          (behind split_host ask digest detect gzip
            (mounted env svc.prefix)
            parse
            svc
            cfg
            redis
            at
            (identified r c)
            (l, st)).1.1.world.1
  behind-SeesOnly r l st c =
      elim (behind_roles-AtMostOnce split_host ask digest detect gzip (mounted env svc.prefix) svc
        cfg redis at (identified r c) l st) [
          | inl kept ↦ inl (ap (λ (w : Proxy × S). w.1) kept)
          | inr ran ↦
              subst (λ (w : Proxy × S). SeesOnly env c st.world.1 w.1) (sym ran)
                (mounted-SeesOnly env svc.prefix (identified r c) st.world.0 st.world.1 c refl)
        ]

  -- Whatever request comes to a service with `auth`, with whatever headers: either the upstreams are
  -- as before, or the request bears a token that verifies and holds one of the roles where any is
  -- required, and one of the upstreams has got one request, which tells in `X-User` and `X-Roles` of
  -- the subject and the roles of that token.
  pub chain-SeesOnly :
      svc.auth ≡ true
      → (r : Request) (l : L) (st : State (Proxy × S))
      → let after =
          (chain split_host ask digest detect gzip
            (mounted env svc.prefix)
            parse
            svc
            cfg
            redis
            at
            r
            (l, st)).1.1.world.1 in
        (after ≡ st.world.1)
        ⊎ ((who : Authenticated parse r) × HasRole svc.required_roles who.identity.roles
            × IsAsked env who.identity st.world.1 after)
  chain-SeesOnly auth r l st =
      elim (service_protected split_host ask digest detect gzip (mounted env svc.prefix) parse svc
        cfg redis at auth r (l, st)) [
          | inl (status, message, reply, code) ↦
              inl (ap (λ (x : List Action × (L × State (Proxy × S))). x.1.1.world.1) reply)
          | inr (who, held, goes_on) ↦
              elim (subst
                (λ (x : List Action × (L × State (Proxy × S))).
                  SeesOnly env who.identity st.world.1 x.1.1.world.1)
                (sym goes_on) (behind-SeesOnly r l st who.identity)) [
                  | inl kept ↦ inl kept
                  | inr asked ↦ inr (who, held, asked)
                ]
        ]
