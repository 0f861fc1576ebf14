-- ===== src/Router/Protection.antt =====
-- Who reaches a service behind the chain of cmd/gateway/server.go, and in whose name it is limited.
use go_api_gateway.Prelude.{
  ◌≡◌, ◌≢◌, refl, if_neg, Bool, true, false, Option, some, List, [], ◌∷◌, Text, codes, any, Any,
  All-lookup, ◌⊎◌, inl, inr, sym, ◌∙◌, subst, Bool-cases, text_eq,
}
use go_api_gateway.Config.Types.{ServiceRateLimitConfig, ServiceConfig, GatewayConfig, ok}
use go_api_gateway.Config.{validate}
use go_api_gateway.Config.Accepts.{ServiceOk, LimitOk}
use go_api_gateway.Config.Soundness.{validate_sound}
use go_api_gateway.Http.{Request, Handler}
use go_api_gateway.Auth.{Token, contains}
use go_api_gateway.Auth.Access.{
  Authenticated, identified, IsRefused, jwt_auth_passes, jwt_auth_cases, require_any_role_passes,
  require_any_role_refuses,
}
use go_api_gateway.RateLimit.{Verdict, verdict, too_many, rate_limit, key_by_ip, key_by_jwt_sub}
use go_api_gateway.RateLimit.Gate.{rate_limit_lem}
use go_api_gateway.ResponseCache.{State}
use go_api_gateway.Server.{Limiter, limiter_from, service_prefix, build_service_limiter}
use go_api_gateway.Router.{Moment, compressed, cached, behind_roles, service_chain, role_check}

-- The identity holds one of the roles, where any is required.
abbrev pub HasRole : List Text → List Text → Type 0
HasRole [] held = Unit
HasRole (role ∷ roles) held = any (contains held) (role ∷ roles) ≡ true

role_check_cases :
    {S : Type 0} (next : Handler S) (parse : Text → Option Token) (roles : List Text) (r : Request)
    (s : S) (who : Authenticated parse r)
    → IsRefused (role_check roles next (identified r who.identity) s) s
      ⊎ (HasRole roles who.identity.roles
          × (role_check roles next (identified r who.identity) s
              ≡ next (identified r who.identity) s))
role_check_cases next parse [] r s who = inr (tt, refl)
role_check_cases next parse (role ∷ roles) r s who =
    elim (Bool-cases (any (contains who.identity.roles) (role ∷ roles))) [
      | inl shared ↦
          inr (shared, require_any_role_passes next (role ∷ roles) r s who.identity shared)
      | inr foreign ↦ inl (require_any_role_refuses next (role ∷ roles) r s who.identity foreign)
    ]

module _ {F L P : Type 0} (split_host : Text → Option Text)
    (ask : Limiter F → L → Text → L × Verdict) (digest detect gzip : Text → Text)
    (mounted : Handler P) (parse : Text → Option Token) (svc : ServiceConfig F)
    (cfg : GatewayConfig F) (redis : Bool) (at : Moment) where
  abbrev pub chain : Handler (L × State P)
  chain = service_chain split_host ask digest detect gzip mounted parse svc cfg redis at

  abbrev pub behind : Handler (L × State P)
  behind = behind_roles split_host ask digest detect gzip mounted svc cfg redis at

  -- A request to a service with `auth` either is refused with 401 or 403, with its limiter, its cache
  -- and what it mounts untouched, or bears a token that verifies, holds one of the roles where any is
  -- required, and goes on to the limiter with the identity of the token in place of any other.
  pub service_protected :
      svc.auth ≡ true
      → (r : Request) (s : L × State P)
      → IsRefused (chain r s) s
        ⊎ ((who : Authenticated parse r) × HasRole svc.required_roles who.identity.roles
            × (chain r s ≡ behind (identified r who.identity) s))
  unfolding service_chain
  service_protected auth r s =
      rw auth (elim (jwt_auth_cases (role_check svc.required_roles behind) parse r s) [
        | inl refused ↦ inl refused
        | inr who ↦
            let passed = jwt_auth_passes (role_check svc.required_roles behind) parse r s who in
            elim (role_check_cases behind parse svc.required_roles r s who) [
              | inl refused ↦ inl (subst (λ reply. IsRefused reply s) (sym passed) refused)
              | inr (held, goes_on) ↦ inr (who, held, passed ∙ goes_on)
            ]
      ])

  -- The limiter of a service that is limited by the subject.
  abbrev pub subject_limiter : ServiceRateLimitConfig F → Limiter F
  subject_limiter rl = limiter_from (service_prefix svc) rl.rate rl.burst cfg.rate_limit redis

  behind_limited :
      (rl : ServiceRateLimitConfig F)
      → svc.rate_limit ≡ some rl
      → rl.key_by ≡ codes "jwt_sub"
      → (r : Request) (s : L × State P)
      → behind r s
        ≡ rate_limit
            (ask (subject_limiter rl))
            (key_by_jwt_sub split_host)
            (cached split_host ask digest detect gzip mounted at svc.cache
              (compressed split_host ask digest detect gzip mounted cfg.compression))
            r
            s
  unfolding behind_roles build_service_limiter text_eq
  behind_limited rl e by_subject r s = rw (e, by_subject) refl

  key_identified :
      (r : Request) (who : Authenticated parse r)
      → who.identity.subject ≢ []
      → key_by_jwt_sub split_host (identified r who.identity) ≡ who.identity.subject
  unfolding key_by_jwt_sub key_by_ip
  key_identified r who named =
      if_neg (text_eq who.identity.subject []) named
        (key_by_ip split_host (identified r who.identity)) who.identity.subject

  -- What the limiter answers about the subject decides, and the state of the limiter is what it
  -- leaves.
  abbrev pub IsLimitedBy : Limiter F → Text → Request → L → State P → Type 0
  IsLimitedBy limiter subject r l st =
      ((chain r (l, st)).1.0 ≡ (ask limiter l subject).0)
      × ((ask limiter l subject).1 ≡ verdict false
          → chain r (l, st) ≡ (too_many, ((ask limiter l subject).0, st)))

  behind-IsLimitedBy :
      (rl : ServiceRateLimitConfig F) (r : Request) (l : L) (st : State P)
      (who : Authenticated parse r)
      → svc.rate_limit ≡ some rl
      → rl.key_by ≡ codes "jwt_sub"
      → who.identity.subject ≢ []
      → chain r (l, st) ≡ behind (identified r who.identity) (l, st)
      → IsLimitedBy (subject_limiter rl) who.identity.subject r l st
  behind-IsLimitedBy rl r l st who e by_subject named goes_on =
      let key = key_identified r who named in
      let run = goes_on ∙ behind_limited rl e by_subject (identified r who.identity) (l, st) in
      elim (rate_limit_lem (ask (subject_limiter rl)) (key_by_jwt_sub split_host)
        (cached split_host ask digest detect gzip mounted at svc.cache
          (compressed split_host ask digest detect gzip mounted cfg.compression))
        (identified r who.identity) l st) [
          | inl (denied, answer) ↦ (rw (run, answer, key) refl, λ _. rw (run, answer, key) refl)
          | inr (passes, answer) ↦
              (rw (run, answer, key) refl, λ denied. absurd (passes (rw key denied)))
        ]

  authenticates :
      (not_positive : F → Bool) (given : GatewayConfig F) (rl : ServiceRateLimitConfig F)
      → validate not_positive given ≡ ok cfg
      → Any (λ other. other ≡ svc) cfg.services
      → svc.rate_limit ≡ some rl
      → rl.key_by ≡ codes "jwt_sub"
      → svc.auth ≡ true
  authenticates not_positive given rl accepted member limit by_subject =
      let sound = (validate_sound not_positive given cfg accepted).services.each in
      let limited = (All-lookup (ServiceOk not_positive) cfg.services svc sound member).limited in
      elim (subst (LimitOk not_positive svc.auth) limit limited).2 [
        | inl by_ip ↦ absurd (let q : codes "ip" ≡ codes "jwt_sub" = sym by_ip ∙ by_subject in cc)
        | inr (same, auth) ↦ auth
      ]

  -- In a configuration that validation accepts, a service that is limited by JWT subject refuses a
  -- request with 401 or 403 and everything untouched, or the request bears a token that verifies.
  -- Where the subject of that token is not empty, its limiter is then asked once, with that subject;
  -- if it denies, the reply is 429 and nothing behind the limiter runs.
  pub IsLimitedBy-subject :
      (not_positive : F → Bool) (given : GatewayConfig F) (rl : ServiceRateLimitConfig F)
      → validate not_positive given ≡ ok cfg
      → Any (λ other. other ≡ svc) cfg.services
      → svc.rate_limit ≡ some rl
      → rl.key_by ≡ codes "jwt_sub"
      → (r : Request) (l : L) (st : State P)
      → IsRefused (chain r (l, st)) (l, st)
        ⊎ ((who : Authenticated parse r) × (who.identity.subject ≢ []
              → IsLimitedBy (subject_limiter rl) who.identity.subject r l st))
  IsLimitedBy-subject not_positive given rl accepted member limit by_subject r l st =
      elim (service_protected (authenticates not_positive given rl accepted member limit by_subject)
        r (l, st)) [
          | inl refused ↦ inl refused
          | inr (who, held, goes_on) ↦
              inr (who, λ named. behind-IsLimitedBy rl r l st who limit by_subject named goes_on)
        ]
