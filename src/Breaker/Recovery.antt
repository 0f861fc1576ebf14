-- ===== src/Breaker/Recovery.antt =====
-- How the breaker of internal/circuitbreaker/breaker.go rejects, probes and recovers.
use go_api_gateway.Prelude.{
  ◌≤◌, ◌≡◌, refl, List, [], ◌∷◌, map, ℤ, pos, arith, leb_ℤ, true, false, none, some, ◌-ℤ◌, All,
  Bool-cases, inl, inr,
}
use go_api_gateway.Breaker.{
  closed, open_, half_open, Breaker, err_open, allow, record_success, record_failure, try_allow,
  success, apply, run, admitted,
}

-- A time before the timeout has passed.
abbrev pub IsEarly : Breaker → ℤ → Type 0
IsEarly b now = leb_ℤ b.timeout (now -ℤ b.opened_at) ≡ false

pub allow-early :
    (b : Breaker) (now : ℤ) → b.state ≡ open_ → IsEarly b now → allow b now ≡ (b, some err_open)
unfolding allow
allow-early b now o e = ground arith

pub allow-late :
    (b : Breaker) (now : ℤ)
    → b.state ≡ open_
    → leb_ℤ b.timeout (now -ℤ b.opened_at) ≡ true
    → allow b now ≡ (record b { state = half_open }, none)
unfolding allow
allow-late b now o e = ground arith

pub allow-half_open :
    (b : Breaker) (now : ℤ) → b.state ≡ half_open → allow b now ≡ (b, some err_open)
unfolding allow
allow-half_open b now o = ground arith

apply-try_allow : (b : Breaker) (now : ℤ) → apply b (try_allow now) ≡ (allow b now).0
unfolding apply
apply-try_allow b now = refl

-- While the timeout lasts an open breaker admits nothing and does not change.
pub open_rejects :
    (b : Breaker) (ts : List ℤ)
    → b.state ≡ open_
    → All (IsEarly b) ts
    → (admitted b (map try_allow ts) ≡ 0) × (run b (map try_allow ts) ≡ b)
unfolding admitted run
open_rejects b [] o h = (refl, refl)
open_rejects b (now ∷ ts) o (early, h) =
    ground (arith, apply-try_allow b now, allow-early b now o early, open_rejects b ts o h)

half_open_rejects :
    (b : Breaker) (ts : List ℤ)
    → b.state ≡ half_open
    → (admitted b (map try_allow ts) ≡ 0) × (run b (map try_allow ts) ≡ b)
unfolding admitted run
half_open_rejects b [] o = (refl, refl)
half_open_rejects b (now ∷ ts) o =
    ground (arith, apply-try_allow b now, allow-half_open b now o, half_open_rejects b ts o)

-- Half-open, a breaker on which nothing is recorded refuses every request for ever: no passing of
-- time takes it out of the state.
pub half_open_stuck :
    (b : Breaker) (ts : List ℤ)
    → b.state ≡ half_open
    → (admitted b (map try_allow ts) ≡ 0) × ((run b (map try_allow ts)).state ≡ half_open)
half_open_stuck b ts o =
    let (none_admitted, same) = half_open_rejects b ts o in (none_admitted, rw same o)

-- As long as nothing is recorded, an open breaker admits one request at most, whenever the calls are made.
pub one_probe : (b : Breaker) (ts : List ℤ) → b.state ≡ open_ → admitted b (map try_allow ts) ≤ 1
unfolding admitted
one_probe b [] o = omega arith
one_probe b (now ∷ ts) o = elim (Bool-cases (leb_ℤ b.timeout (now -ℤ b.opened_at))) [
  | inl late ↦
      rw (apply-try_allow b now, allow-late b now o late)
        (omega (arith, (half_open_rejects (record b { state = half_open }) ts refl).0))
  | inr early ↦ rw (apply-try_allow b now, allow-early b now o early) (one_probe b ts o)
]

-- The probe decides: its success closes the breaker with no failure counted, its failure opens it
-- again from that moment, whatever the threshold.
pub probe_decides :
    (b : Breaker) (now : ℤ)
    → b.state ≡ half_open
    → ((record_success b).state ≡ closed)
      × ((record_success b).failures ≡ pos 0)
      × ((record_failure b now).state ≡ open_)
      × ((record_failure b now).opened_at ≡ now)
unfolding record_success record_failure
probe_decides b now o = ground arith

-- A success on an open breaker resets the count of failures and leaves the rest, the state included.
pub late_success : (b : Breaker) → b.state ≡ open_ → apply b success ≡ record b { failures = pos 0 }
unfolding apply
late_success b o = ground arith
