-- ===== src/Server/Handlers.antt =====
-- What `buildServiceHandler` of cmd/gateway/server.go builds is a proxy that can answer.
use go_api_gateway.Prelude.{
  ℕ, ◌^◌, ◌<◌, ◌≡◌, refl, Bool, true, Option, none, some, List, [], ◌∷◌, ℤ, pos, Text, text_eq, Any,
  here, there, All, All-lookup, inl, inr, ◌⊎◌, ap, sym, ◌∙◌,
}
use go_api_gateway.Prelude.Dict.{Dict, find, put, find-put_self, find-put_ne}
use go_api_gateway.Config.Types.{CbConfig, ServiceConfig, GatewayConfig}
use go_api_gateway.Breaker.{Breaker, new_breaker}
use go_api_gateway.Breaker.Trips.{IsValid}
use go_api_gateway.RoundRobin.{new_round_robin}
use go_api_gateway.Http.{Request}
use go_api_gateway.Proxy.{Proxy, RoundTrip, Served, serve}
use go_api_gateway.Proxy.Accounting.{Ready, IsAnswered, serve-Ready}
use go_api_gateway.Server.{breaker_of, breakers_for, build_service_handler}

found_after :
    (nb : Breaker) (v u : Text) (us : List Text) (breakers : Dict Breaker)
    → Any (λ w. w ≡ u) (v ∷ us) ⊎ (find u breakers ≡ some nb)
    → Any (λ w. w ≡ u) us ⊎ (find u (put v nb breakers) ≡ some nb)
found_after nb v u us breakers (inl (here e)) =
    inr (ap (λ k. find k (put v nb breakers)) (sym e) ∙ find-put_self v nb breakers)
found_after nb v u us breakers (inl (there a)) = inl a
found_after nb v u us breakers (inr e) = elim (text_eq v u) [
  | yes same ↦ inr (ap (λ k. find k (put v nb breakers)) (sym same) ∙ find-put_self v nb breakers)
  | no other ↦ inr (find-put_ne v u nb breakers other ∙ e)
]

find-breakers_for :
    (cb : Option CbConfig) (us : List Text) (breakers : Dict Breaker) (u : Text)
    → Any (λ v. v ≡ u) us ⊎ (find u breakers ≡ some (breaker_of cb))
    → find u (breakers_for cb us breakers) ≡ some (breaker_of cb)
unfolding breakers_for
find-breakers_for cb [] breakers u (inl a) = elim a [ ]
find-breakers_for cb [] breakers u (inr e) = e
find-breakers_for cb (v ∷ us) breakers u member =
    find-breakers_for cb us (put v (breaker_of cb) breakers) u
      (found_after (breaker_of cb) v u us breakers member)

-- The threshold of the breakers of a configuration.
abbrev pub threshold_of : Option CbConfig → ℤ
threshold_of cb = (breaker_of cb).max_failures

breaker_of-IsValid :
    (m : ℕ) (cb : Option CbConfig)
    → threshold_of cb ≡ pos m
    → 0 < m
    → m < 2 ^ 63
    → IsValid m (breaker_of cb)
unfolding new_breaker
breaker_of-IsValid m none e positive small = record {
  threshold = e;
  positive = positive;
  small = small;
  counted = λ _. (refl, positive);
}
breaker_of-IsValid m (some cb) e positive small = record {
  threshold = e;
  positive = positive;
  small = small;
  counted = λ _. (refl, positive);
}

module _ {F : Type 0} where
  -- Built from a configuration with a positive threshold, and for upstreams that are URLs, the
  -- handler has a breaker within its bounds for each upstream.
  pub build_service_handler-Ready :
      (parses : Text → Bool) (m : ℕ) (svc : ServiceConfig F) (cfg : GatewayConfig F)
      → threshold_of cfg.circuit_breaker ≡ pos m
      → 0 < m
      → m < 2 ^ 63
      → All (λ u. parses u ≡ true) svc.upstreams
      → Ready m parses (build_service_handler svc cfg).0
  unfolding build_service_handler new_round_robin
  build_service_handler-Ready parses m svc cfg e positive small good = record {
    each = λ u member. (
      All-lookup (λ v. parses v ≡ true) svc.upstreams u good member,
      breaker_of cfg.circuit_breaker,
      find-breakers_for cfg.circuit_breaker svc.upstreams [] u (inl member),
      breaker_of-IsValid m cfg.circuit_breaker e positive small,
    );
  }

module _ (parses : Text → Bool) (round_trip : Text → Request → RoundTrip) where
  -- The replies to a sequence of requests, each with the health of the upstreams as it is then and
  -- with the times of `Allow` and of the record.
  unfoldable pub replies : Proxy → List ((Text → Bool) × Request × ℤ × ℤ) → List Served
  unfolding serve
  replies h [] = []
  replies h ((healthy, r, at_allow, at_record) ∷ rs) =
      let (h', reply) = serve healthy parses round_trip h r at_allow at_record in
      reply ∷ replies h' rs

  replies-IsAnswered :
      (m : ℕ) (h : Proxy) (rs : List ((Text → Bool) × Request × ℤ × ℤ))
      → Ready m parses h
      → All IsAnswered (replies h rs)
  unfolding replies
  replies-IsAnswered m h [] ready = tt
  replies-IsAnswered m h ((healthy, r, at_allow, at_record) ∷ rs) ready =
      let (reply, ready') = serve-Ready healthy parses round_trip m h r at_allow at_record ready in
      (
        reply,
        replies-IsAnswered m (serve healthy parses round_trip h r at_allow at_record).0 rs ready',
      )

  -- A handler that `buildServiceHandler` builds, from a configuration with a positive threshold below
  -- 2^63 and for upstreams that are URLs, answers every request of every sequence without a panic of its own.
  pub built_handler_answers :
      {F : Type 0} (m : ℕ) (svc : ServiceConfig F) (cfg : GatewayConfig F)
      → threshold_of cfg.circuit_breaker ≡ pos m
      → 0 < m
      → m < 2 ^ 63
      → All (λ u. parses u ≡ true) svc.upstreams
      → (rs : List ((Text → Bool) × Request × ℤ × ℤ))
      → All IsAnswered (replies (build_service_handler svc cfg).0 rs)
  built_handler_answers m svc cfg e positive small good rs =
      replies-IsAnswered m (build_service_handler svc cfg).0 rs
        (build_service_handler-Ready parses m svc cfg e positive small good)
