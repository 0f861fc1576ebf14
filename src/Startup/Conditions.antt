-- ===== src/Startup/Conditions.antt =====
-- What `buildRouter` of cmd/gateway/server.go needs of its surroundings, described on its own: the key
-- that loads, the Redis that answers, the meter that makes its instruments.
use go_api_gateway.Prelude.{
  ◌≡◌, ◌≢◌, ◌↔◌, refl, Bool, true, false, Option, none, some, [], ◌∷◌, Text, codes, text_eq, if_pos,
  if_neg, ap, sym, ◌∙◌, inl, inr, ◌⊎◌, arith, Bool-cases,
}
use go_api_gateway.Config.Types.{RateLimitConfig}
use go_api_gateway.Recording.Instruments.{
  Meter, new_metrics, register_upstream_health, is_nil_error,
}
use go_api_gateway.Server.{Options, build_redis_options}
use go_api_gateway.Startup.{
  reading_key, no_pem_block, parsing_key, not_rsa, loading_key, redis_ping, Outcome, failed, done,
  ◌>>=◌, or_else, lift_key, KeyErr, KeyReader, load_public_key, key_for, redis_client,
}

-- The file is read, has a PEM block, and that holds a public key of RSA.
pub record Loads {B P K : Type 0} (keys : KeyReader B P K) (path : Text) (key : K) : Type 0 where
  pub file : Text
  pub read : keys.read_file path ≡ some file
  pub block : B
  pub decoded : keys.decode file ≡ some block
  pub public : P
  pub parsed : keys.parse block ≡ some public
  pub is_rsa : keys.as_rsa public ≡ some key

-- With no path there is no key, else the one that loads.
abbrev pub LoadsKey : {B P K : Type 0} → KeyReader B P K → Text → Option K → Type 0
LoadsKey keys [] k = k ≡ none
LoadsKey {B} {P} {K} keys (c ∷ path) k = (key : K) × Loads keys (c ∷ path) key × (k ≡ some key)

pub bind_done :
    {E A B : Type 0} (m : Outcome E A) (f : A → Outcome E B) (b : B)
    → m >>= f ≡ done b
    → (a : A) × (m ≡ done a) × (f a ≡ done b)
bind_done (failed e) f b h = absurd (let q : failed e ≡ done b = h in cc)
bind_done (done a) f b h = (a, refl, h)

pub done_injective : {E A : Type 0} {a b : A} → (let x : Outcome E A = done a in x) ≡ done b → a ≡ b
done_injective h = cc

or_else-done : {E A : Type 0} (e : E) (o : Option A) (a : A) → or_else e o ≡ done a → o ≡ some a
or_else-done e none a h = absurd (let q : failed e ≡ done a = h in cc)
or_else-done e (some b) a h = ap some (done_injective h)

lift_key-done : {K : Type 0} (o : Outcome KeyErr K) (k : K) → lift_key o ≡ done k → o ≡ done k
lift_key-done (failed e) k h = absurd (let q : failed (loading_key e) ≡ done k = h in cc)
lift_key-done (done a) k h = ap done (done_injective h)

module _ {B P K : Type 0} (keys : KeyReader B P K) where
  load_public_key-Loads :
      (path : Text) (key : K) → load_public_key keys path ≡ done key → Loads keys path key
  unfolding load_public_key
  load_public_key-Loads path key h =
      let (file, read, h₁) = bind_done (or_else reading_key (keys.read_file path)) _ key h in
      let (block, decoded, h₂) = bind_done (or_else no_pem_block (keys.decode file)) _ key h₁ in
      let (public, parsed, h₃) = bind_done (or_else parsing_key (keys.parse block)) _ key h₂ in
      record {
        file = file;
        read = or_else-done reading_key (keys.read_file path) file read;
        block = block;
        decoded = or_else-done no_pem_block (keys.decode file) block decoded;
        public = public;
        parsed = or_else-done parsing_key (keys.parse block) public parsed;
        is_rsa = or_else-done not_rsa (keys.as_rsa public) key h₃;
      }

  pub key_for-LoadsKey :
      (path : Text) (k : Option K) → key_for keys path ≡ done k → LoadsKey keys path k
  key_for-LoadsKey [] k h = sym (done_injective h)
  key_for-LoadsKey (c ∷ path) k h =
      let (key, lifted, h₁) = bind_done (lift_key (load_public_key keys (c ∷ path))) _ k h in
      (
        key,
        load_public_key-Loads (c ∷ path) key
            (lift_key-done (load_public_key keys (c ∷ path)) key lifted),
        sym (done_injective h₁),
      )

  pub LoadsKey-key_for :
      (path : Text) (k : Option K) → LoadsKey keys path k → key_for keys path ≡ done k
  unfolding load_public_key
  LoadsKey-key_for [] k h = rw h refl
  LoadsKey-key_for (c ∷ path) k (key, l, is_key) =
      rw (l.read, l.decoded, l.parsed, l.is_rsa, is_key) refl

-- Redis is asked where the limiters are to use it, and must answer; else there is no client.
abbrev pub HasRedis :
    {F : Type 0} → (Options → Bool) → Text → Option (RateLimitConfig F) → Bool → Type 0
HasRedis ping password none redis = redis ≡ false
HasRedis ping password (some rl) redis =
    ((rl.backend ≢ codes "redis") × (redis ≡ false))
    ⊎ ((rl.backend ≡ codes "redis")
        × (ping (build_redis_options rl.redis password) ≡ true)
        × (redis ≡ true))

module _ {F : Type 0} (ping : Options → Bool) (password : Text) where
  pub redis_client-HasRedis :
      (rl : Option (RateLimitConfig F)) (redis : Bool)
      → redis_client ping password rl ≡ done redis
      → HasRedis ping password rl redis
  redis_client-HasRedis none redis h = sym (done_injective h)
  redis_client-HasRedis (some rl) redis h = elim (text_eq rl.backend (codes "redis")) [
    | no other ↦
        let e : redis_client ping password (some rl) ≡ done false =
          rw (if_neg (text_eq rl.backend (codes "redis")) other) refl in
        inl (other, sym (done_injective (sym e ∙ h)))
    | yes same ↦ elim (Bool-cases (ping (build_redis_options rl.redis password))) [
      | inl up ↦
          let e : redis_client ping password (some rl) ≡ done true =
            rw (if_pos (text_eq rl.backend (codes "redis")) same, up) refl in
          inr (same, up, sym (done_injective (sym e ∙ h)))
      | inr down ↦
          let e : redis_client ping password (some rl) ≡ failed (redis_ping rl.redis.addr) =
            rw (if_pos (text_eq rl.backend (codes "redis")) same, down) refl in
          absurd (let q : failed (redis_ping rl.redis.addr) ≡ done redis = sym e ∙ h in cc)
    ]
  ]

  pub HasRedis-redis_client :
      (rl : Option (RateLimitConfig F)) (redis : Bool)
      → HasRedis ping password rl redis
      → redis_client ping password rl ≡ done redis
  HasRedis-redis_client none redis e = rw e refl
  HasRedis-redis_client (some rl) redis (inl (other, off)) =
      rw (if_neg (text_eq rl.backend (codes "redis")) other, off) refl
  HasRedis-redis_client (some rl) redis (inr (same, up, on)) =
      rw (if_pos (text_eq rl.backend (codes "redis")) same, up, on) refl

pub new_metrics_iff :
    (meter : Meter)
    → (is_nil_error (new_metrics meter) ≡ true)
      ↔ ((meter.int64_counter ≡ true) × (meter.float64_histogram ≡ true))
unfolding new_metrics
new_metrics_iff meter = (λ h. ground arith, λ (c, h). rw (c, h) refl)

pub register_iff :
    (meter : Meter)
    → (is_nil_error (register_upstream_health meter) ≡ true)
      ↔ ((meter.int64_observable_gauge ≡ true) × (meter.register_callback ≡ true))
unfolding register_upstream_health
register_iff meter = (λ h. ground arith, λ (g, c). rw (g, c) refl)
