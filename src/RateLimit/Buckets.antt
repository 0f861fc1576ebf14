-- ===== src/RateLimit/Buckets.antt =====
-- The keys of internal/ratelimit/limiter.go do not disturb each other.
use go_api_gateway.Prelude.{
  ◌≡◌, refl, Bool, Option, none, some, List, [], ◌∷◌, arith, ite, ℤ, Text, text_eq, if◌then◌else◌,
}
use go_api_gateway.Prelude.Dict.{Dict, find, find-put, find-delete}
use go_api_gateway.RateLimit.{
  Bucket, Entry, MemoryLimiter, limiter_of, allow, is_idle, cleanup_entries, cleanup,
}

module _ {L : Type 0} where
  abbrev pub unless_idle : ℤ → ℤ → Option (Entry L) → Option (Entry L)
  unless_idle idle now none = none
  unless_idle idle now (some e) = if is_idle idle now e then none else some e

  find-cleanup_entries :
      (idle now : ℤ) (k : Text) (m : Dict (Entry L))
      → find k (cleanup_entries idle now m) ≡ unless_idle idle now (find k m)
  unfolding cleanup_entries find
  find-cleanup_entries idle now k [] = refl
  find-cleanup_entries idle now k ((j, e) ∷ m) =
      ground
        (arith, find-cleanup_entries idle now k m, find-delete j k (cleanup_entries idle now m))

  -- `cleanup` forgets exactly the keys that were not seen for longer than the limit, and keeps the
  -- entries of the others as they are.
  pub find-cleanup :
      (ml : MemoryLimiter L) (now : ℤ) (k : Text)
      → find k (cleanup ml now).entries ≡ unless_idle ml.cleanup_max_idle now (find k ml.entries)
  unfolding cleanup
  find-cleanup ml now k = find-cleanup_entries ml.cleanup_max_idle now k ml.entries

  module _ (bucket : Bucket L) where
    -- The answers to the calls for one key among the calls for all.
    unfoldable pub answers_for : Text → MemoryLimiter L → List (Text × ℤ) → List Bool
    unfolding allow
    answers_for k ml [] = []
    answers_for k ml ((j, now) ∷ calls) =
        let (ml', allowed) = allow bucket ml j now in
        let rest = answers_for k ml' calls in ite (text_eq j k) (allowed ∷ rest) rest

    -- A single bucket, asked at the times of the calls for one key.
    unfoldable pub bucket_answers : Text → L → List (Text × ℤ) → List Bool
    bucket_answers k l [] = []
    bucket_answers k l ((j, now) ∷ calls) =
        let (l', allowed) = bucket.take_token now l in
        ite (text_eq j k) (allowed ∷ bucket_answers k l' calls) (bucket_answers k l calls)

    -- However the calls for different keys alternate, between two cleanups, each key is answered as by a token bucket of
    -- its own, which starts from the bucket that the limiter has for it or from a new one.
    pub answers_for_lem :
        (k : Text) (ml : MemoryLimiter L) (calls : List (Text × ℤ))
        → answers_for k ml calls ≡ bucket_answers k (limiter_of bucket (find k ml.entries)) calls
    unfolding answers_for bucket_answers allow
    answers_for_lem k ml [] = refl
    answers_for_lem k ml ((j, now) ∷ calls) =
        let ml' = (allow bucket ml j now).0 in
        let e : Entry L = record {
          limiter = (bucket.take_token now (limiter_of bucket (find j ml.entries))).0;
          last_seen = now;
        } in
        ground (arith, answers_for_lem k ml' calls, find-put j k e ml.entries)
