-- ===== src/Proxy/Outgoing/Identity.antt =====
-- Whom an upstream of internal/proxy takes a request to be from.
use go_api_gateway.Prelude.{◌≡◌, refl, Option, none, some, List, [], ◌∷◌, Text, codes, ap, ◌∙◌}
use go_api_gateway.Prelude.Dict.{Dict, find, put, find-put_self, find-put_ne}
use go_api_gateway.Http.{
  Header, Claims, header_get, header_set, canonical, all_token, canonical_from, first_value,
}
use go_api_gateway.Strings.{join}
use go_api_gateway.Proxy.{inject_user_headers}
use go_api_gateway.Proxy.Outgoing.{Url, Outgoing, rewritten, rewrite}

-- The two headers that an upstream reads.
pub record Tells (h : Header) (user roles : Text) : Type 0 where
  pub user_is : header_get (codes "X-User") h ≡ user
  pub roles_are : header_get (codes "X-Roles") h ≡ roles

module _ (c : Claims) (h : Header) where
  pub inject_user_headers-Tells :
      Tells (inject_user_headers (some c) h) c.subject (join (codes ",") c.roles)
  unfolding inject_user_headers header_get header_set canonical all_token canonical_from
  inject_user_headers-Tells =
      let user : Dict (List Text) = put (codes "X-User") (c.subject ∷ []) h in
      let roles : List Text = join (codes ",") c.roles ∷ [] in
      let kept : find (codes "X-User") (put (codes "X-Roles") roles user)
          ≡ find (codes "X-User") user =
        find-put_ne (codes "X-Roles") (codes "X-User") roles user (λ e. cc) in
      let new : find (codes "X-User") user ≡ some (c.subject ∷ []) =
        find-put_self (codes "X-User") (c.subject ∷ []) h in
      record {
        user_is = ap first_value (kept ∙ new);
        roles_are = ap first_value (find-put_self (codes "X-Roles") roles user);
      }

-- What the upstream is told of a request that came with the header `h`.
abbrev pub IsFrom : Option Claims → Header → Header → Type 0
IsFrom (some c) h sent = Tells sent c.subject (join (codes ",") c.roles)
IsFrom none h sent = Tells sent (header_get (codes "X-User") h) (header_get (codes "X-Roles") h)

-- The library's calls leave the two headers as they are.
abbrev pub Leaves : (Header → Header) → Type 0
Leaves edit =
    (h : Header) → Tells (edit h) (header_get (codes "X-User") h) (header_get (codes "X-Roles") h)

module _ (parse_url : Text → Option Url) (set_forwarded inject_trace : Header → Header)
    (forwarded_leaves : Leaves set_forwarded) (trace_leaves : Leaves inject_trace) where
  inject-IsFrom :
      (claims : Option Claims) (h : Header)
      → IsFrom claims h (inject_user_headers claims (inject_trace (set_forwarded h)))
  unfolding inject_user_headers
  inject-IsFrom (some c) h = inject_user_headers-Tells c (inject_trace (set_forwarded h))
  inject-IsFrom none h =
      let first = forwarded_leaves h in
      let then_ = trace_leaves (set_forwarded h) in
      record {
        user_is = then_.user_is ∙ first.user_is;
        roles_are = then_.roles_are ∙ first.roles_are;
      }

  -- Where the library's `SetXForwarded` and injection leave `X-User` and `X-Roles` as they are: a
  -- request with a target that parses as a URL goes to the scheme and the host of the target, under
  -- that host; if JWTAuth has stored claims, the upstream reads their subject in `X-User` and their
  -- roles with commas between in `X-Roles`, and if not, it reads there what the client sent.
  pub rewrite-IsFrom :
      (out : Outgoing) (target : Text) (url : Url)
      → out.target ≡ some target
      → parse_url target ≡ some url
      → (out' : Outgoing) × (rewrite parse_url set_forwarded inject_trace out ≡ rewritten out')
        × (out'.url ≡ url)
        × (out'.host ≡ url.host)
        × IsFrom out.claims out.header out'.header
  unfolding rewrite
  rewrite-IsFrom out target url at parses = (
    record out {
      url = url;
      host = url.host;
      header = inject_user_headers out.claims (inject_trace (set_forwarded out.header));
    },
    rw (at, parses) refl,
    refl,
    refl,
    inject-IsFrom out.claims out.header,
  )
