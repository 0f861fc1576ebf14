-- ===== src/Redis/Expiry.antt =====
-- That a key of internal/ratelimit/redis.go is dropped only when its bucket would be full.
use native.Mathlib.Nat.{div-add-mod', mod-lt, add-mul, mul-le-mul_right}
use go_api_gateway.Prelude.{
  ℕ, ◌+◌, ◌-◌, ◌*◌, ◌/◌, ◌≤◌, ◌<◌, ◌≡◌, refl, Bool, true, false, Option, none, some, List, [], ◌∷◌,
  ◌++◌, leb, if◌then◌else◌, arith, Bool-cases, inl, inr, ap, sym, subst, ◌∙◌, Text, text_eq, ite,
  if_pos, if_neg, append_inj,
}
use go_api_gateway.Prelude.Dict.{Dict, find, put, find-put_self, find-put_ne}
use go_api_gateway.Redis.{
  RedisLimiter, one_token, full, Bucket, refill, ttl_ms, run_script, unexpired, allow, decisions,
}

module _ (rl : RedisLimiter) (positive : 0 < rl.num) where
  -- In the time that `PEXPIRE` gives, an empty bucket fills.
  ttl_fills : full rl ≤ ttl_ms rl * rl.num
  unfolding ttl_ms
  ttl_fills =
      let x : ℕ = full rl + rl.num - 1 in
      omega (arith, div-add-mod' x rl.num, mod-lt x positive, add-mul (x / rl.num) 1000 rl.num)

  -- A bucket that has had that time is full at its next call, as one that is not there is.
  expired_is_full :
      (now : ℕ) (b : Bucket) → b.ts + ttl_ms rl ≤ now → refill rl now (some b) ≡ refill rl now none
  unfolding refill
  expired_is_full now b late =
      let long : ttl_ms rl * rl.num ≤ (now - b.ts) * rl.num =
        mul-le-mul_right rl.num (let d : ttl_ms rl ≤ now - b.ts = omega arith in d) in
      ground (arith, ttl_fills)

  -- Redis drops the bucket `ttl_ms` after its last call.
  abbrev pub IsTimed : Option Bucket → Type 0
  IsTimed none = Unit
  IsTimed (some b) = b.expires_at ≡ b.ts + ttl_ms rl

  -- The script from the refilled tokens on.
  abbrev finish : ℕ → ℕ → Bucket × Bool
  finish now tokens =
      if leb (one_token rl) tokens
      then (record { tokens = tokens - one_token rl; ts = now; expires_at = now + ttl_ms rl }, true)
      else (record { tokens = tokens; ts = now; expires_at = now + ttl_ms rl }, false)

  run_script-unexpired :
      (now : ℕ) (b : Option Bucket)
      → IsTimed b
      → run_script rl now now (unexpired now b) ≡ run_script rl now now b
  unfolding run_script
  run_script-unexpired now none t = refl
  run_script-unexpired now (some b) t = elim (Bool-cases (leb b.expires_at now)) [
    | inr early ↦ rw early refl
    | inl late ↦
        rw late
          (ap (λ (tokens : ℕ). finish now tokens) (sym (expired_is_full now b (ground arith))))
  ]

  run_script-IsTimed : (now : ℕ) (b : Option Bucket) → IsTimed (some (run_script rl now now b).0)
  unfolding run_script
  run_script-IsTimed now b = ground arith

  -- The answers for one key among the calls for all, at one clock.
  unfoldable pub answers_for : Text → Dict Bucket → List (Text × ℕ) → List Bool
  unfolding allow
  answers_for k store [] = []
  answers_for k store ((j, now) ∷ calls) =
      let (store', allowed) = allow rl now now j store in
      let rest = answers_for k store' calls in ite (text_eq j k) (allowed ∷ rest) rest

  abbrev pub times_of : Text → List (Text × ℕ) → List ℕ
  times_of k [] = []
  times_of k ((j, now) ∷ calls) = let rest = times_of k calls in ite (text_eq j k) (now ∷ rest) rest

  -- The answer to a call for `i`, and those for `k` after it, are those of the kept bucket of `k`.
  abbrev Answered : Text → Dict Bucket → ℕ → List (Text × ℕ) → Text → Type 0
  Answered k store now calls i =
      let (b', allowed) = run_script rl now now (unexpired now (find (rl.prefix ++ i) store)) in
      allowed ∷ answers_for k (put (rl.prefix ++ i) b' store) calls
      ≡ decisions rl (find (rl.prefix ++ k) store) (now ∷ times_of k calls)

  Answered-self :
      (k : Text) (store : Dict Bucket) (now : ℕ) (calls : List (Text × ℕ))
      → IsTimed (find (rl.prefix ++ k) store)
      → ((b' : Bucket)
          → IsTimed (find (rl.prefix ++ k) (put (rl.prefix ++ k) b' store))
          → answers_for k (put (rl.prefix ++ k) b' store) calls
            ≡ decisions rl
                (find (rl.prefix ++ k) (put (rl.prefix ++ k) b' store))
                (times_of k calls))
      → Answered k store now calls k
  unfolding decisions
  Answered-self k store now calls t ih =
      let kept : Option Bucket = find (rl.prefix ++ k) store in
      let b' : Bucket = (run_script rl now now kept).0 in
      let found : find (rl.prefix ++ k) (put (rl.prefix ++ k) b' store) ≡ some b' =
        find-put_self (rl.prefix ++ k) b' store in
      let after =
        ih b' (subst IsTimed (sym found) (run_script-IsTimed now kept))
        ∙ ap (λ b. decisions rl b (times_of k calls)) found in
      ap (λ (p : Bucket × Bool). p.1 ∷ answers_for k (put (rl.prefix ++ k) p.0 store) calls)
        (run_script-unexpired now kept t)
      ∙ ap (λ bs. (run_script rl now now kept).1 ∷ bs) after

  -- With a positive rate, as seen from one clock, and from a store where the key has no bucket or one
  -- that is dropped `ttl_ms` after its last call, dropping keys changes no answer, and no key disturbs
  -- another: the key is answered as by a bucket of its own that is kept for ever.
  pub answers_for-decisions :
      (k : Text) (store : Dict Bucket) (calls : List (Text × ℕ))
      → IsTimed (find (rl.prefix ++ k) store)
      → answers_for k store calls ≡ decisions rl (find (rl.prefix ++ k) store) (times_of k calls)
  unfolding answers_for decisions
  answers_for-decisions k store [] t = refl
  answers_for-decisions k store ((j, now) ∷ calls) t = elim (text_eq j k) [
    | no other ↦
        let b' : Bucket = (run_script rl now now (unexpired now (find (rl.prefix ++ j) store))).0 in
        let kept : find (rl.prefix ++ k) (put (rl.prefix ++ j) b' store)
            ≡ find (rl.prefix ++ k) store =
          find-put_ne (rl.prefix ++ j) (rl.prefix ++ k) b' store
            (λ e. other (append_inj rl.prefix e)) in
        rw (if_neg _ other, if_neg _ other)
          (answers_for-decisions k (put (rl.prefix ++ j) b' store) calls
              (subst IsTimed (sym kept) t)
            ∙ ap (λ b. decisions rl b (times_of k calls)) kept)
    | yes same ↦
        rw (if_pos _ same, if_pos _ same)
          (subst (λ i. Answered k store now calls i) (sym same)
            (Answered-self k store now calls t
              (λ b'. answers_for-decisions k (put (rl.prefix ++ k) b' store) calls)))
  ]
