-- ===== src/RateLimit/Gate.antt =====
-- What internal/middleware/ratelimit.go does with the limiter's answer.
use go_api_gateway.Prelude.{◌≡◌, refl, true, false, ◌⊎◌, inl, inr, Text, ◌≢◌, ◌∙◌, sym}
use go_api_gateway.Http.{Request, Handler}
use go_api_gateway.RateLimit.{Verdict, failed, verdict, too_many, rate_limit}

Verdict-cases : (v : Verdict) → (v ≡ verdict false) ⊎ (v ≡ failed) ⊎ (v ≡ verdict true)
Verdict-cases (verdict false) = inl refl
Verdict-cases failed = inr (inl refl)
Verdict-cases (verdict true) = inr (inr refl)

module _ {L S : Type 0} (ask : L → Text → L × Verdict) (key_func : Request → Text)
    (next : Handler S) where
  -- The limiter is asked once for each request, with its key. If it denies, the reply is 429 and the
  -- handler behind does not run; if it allows, and also if it fails, the request goes through.
  pub rate_limit_lem :
      (r : Request) (l : L) (s : S)
      → ((ask l (key_func r)).1 ≡ verdict false)
          × (rate_limit ask key_func next r (l, s) ≡ (too_many, ((ask l (key_func r)).0, s)))
        ⊎ ((ask l (key_func r)).1 ≢ verdict false)
          × (rate_limit ask key_func next r (l, s)
              ≡ ((next r s).0, ((ask l (key_func r)).0, (next r s).1)))
  unfolding rate_limit
  rate_limit_lem r l s = elim (Verdict-cases (ask l (key_func r)).1) [
    | inl denied ↦ inl (denied, rw denied refl)
    | inr (inl broken) ↦
        inr (λ e. absurd (let q : failed ≡ verdict false = sym broken ∙ e in cc), rw broken refl)
    | inr (inr allowed) ↦ inr (
      λ e. absurd (let q : verdict true ≡ verdict false = sym allowed ∙ e in cc),
      rw allowed refl,
    )
  ]
