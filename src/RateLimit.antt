-- ===== src/RateLimit.antt =====
-- internal/ratelimit/limiter.go and internal/middleware/ratelimit.go: the in-memory limiter, one
-- token bucket for each key, and the middleware that asks a limiter. The bucket of
-- golang.org/x/time/rate and `net.SplitHostPort` are parameters.
pub mod Buckets
pub mod Gate
pub mod Racing
use go_api_gateway.Prelude.{
  ℕ, Bool, true, false, Option, none, some, List, [], ◌∷◌, if◌then◌else◌, ite, ℤ, ltb_ℤ, ◌-ℤ◌, Text,
  codes, text_eq, length,
}
use go_api_gateway.Prelude.Dict.{Dict, find, put, delete}
use go_api_gateway.Http.{
  Request, Claims, Action, Handler, json_object, error_message, set_header, write_header, write,
}

-- What the code uses of `rate.Limiter`: `NewLimiter`, with its arguments fixed, and `Allow`.
pub record Bucket (L : Type 0) : Type 0 where
  pub fresh : L
  pub take_token : ℤ → L → L × Bool

pub record Entry (L : Type 0) : Type 0 where
  pub limiter : L
  pub last_seen : ℤ

pub record MemoryLimiter (L : Type 0) : Type 0 where
  pub entries : Dict (Entry L)
  pub cleanup_max_idle : ℤ

module _ {L : Type 0} where
  unfoldable pub new_memory_limiter : ℤ → MemoryLimiter L
  new_memory_limiter idle = record { entries = []; cleanup_max_idle = idle }

  module _ (bucket : Bucket L) where
    -- The bucket that `Allow` asks: the one of the key, or a new one.
    abbrev pub limiter_of : Option (Entry L) → L
    limiter_of (some e) = e.limiter
    limiter_of none = bucket.fresh

    -- `Allow`, while no other call runs: in both paths the key is then seen now, and its bucket is
    -- asked once.
    unfoldable pub allow : MemoryLimiter L → Text → ℤ → MemoryLimiter L × Bool
    allow ml key now =
        let (l, allowed) = bucket.take_token now (limiter_of (find key ml.entries)) in
        (
          record ml { entries = put key (record { limiter = l; last_seen = now }) ml.entries },
          allowed,
        )

  abbrev pub is_idle : ℤ → ℤ → Entry L → Bool
  is_idle idle now e = ltb_ℤ idle (now -ℤ e.last_seen)

  -- The `Range` of `cleanup`.
  unfoldable pub cleanup_entries : ℤ → ℤ → Dict (Entry L) → Dict (Entry L)
  cleanup_entries idle now [] = []
  cleanup_entries idle now ((k, e) ∷ m) =
      let rest = cleanup_entries idle now m in
      if is_idle idle now e then delete k rest else (k, e) ∷ rest

  unfoldable pub cleanup : MemoryLimiter L → ℤ → MemoryLimiter L
  cleanup ml now = record ml { entries = cleanup_entries ml.cleanup_max_idle now ml.entries }

  unfoldable pub len : MemoryLimiter L → ℕ
  len ml = length ml.entries

-- A limiter's answer: the error, or whether the request is allowed.
pub data Verdict : Type 0 where
  failed : Verdict
  verdict : Bool → Verdict

-- The reply to a request over the limit.
abbrev pub too_many : List Action
too_many =
    set_header (codes "Content-Type") (codes "application/json")
    ∷ set_header (codes "Retry-After") (codes "1")
    ∷ write_header 429
    ∷ write (json_object (error_message (codes "rate limit exceeded")))
    ∷ []

module _ {L S : Type 0} (ask : L → Text → L × Verdict) (key_func : Request → Text) where
  abbrev pub by_verdict : Handler S → Request → S → L → Verdict → List Action × (L × S)
  by_verdict next r s l (verdict false) = (too_many, (l, s))
  by_verdict next r s l _ = let (actions, s') = next r s in (actions, (l, s'))

  -- `RateLimit`, over a limiter with the state `L`.
  unfoldable pub rate_limit : Handler S → Handler (L × S)
  rate_limit next r (l, s) = let (l', v) = ask l (key_func r) in by_verdict next r s l' v

module _ (split_host : Text → Option Text) where
  abbrev pub host_or : Text → Option Text → Text
  host_or addr none = addr
  host_or addr (some host) = host

  unfoldable pub key_by_ip : Request → Text
  key_by_ip r = host_or r.remote_addr (split_host r.remote_addr)

  abbrev pub subject_or : Text → Option Claims → Text
  subject_or ip none = ip
  subject_or ip (some c) = ite (text_eq c.subject []) ip c.subject

  unfoldable pub key_by_jwt_sub : Request → Text
  unfolding key_by_ip
  key_by_jwt_sub r = subject_or (key_by_ip r) r.claims
