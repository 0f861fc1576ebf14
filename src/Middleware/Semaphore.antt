-- ===== src/Middleware/Semaphore.antt =====
-- The requests that pass internal/middleware/concurrencylimit.go at once, in any order.
use go_api_gateway.Prelude.{
  ℕ, ◌+◌, ◌≤◌, ◌≡◌, true, false, List, [], ◌∷◌, arith, length, ltb, ℕ_discrete, zero, suc, pos, ◌<◌,
  if◌then◌else◌, Bool-cases, inl, inr, refl, ite, if_pos, if_neg,
}
use go_api_gateway.Http.{Request}
use go_api_gateway.Middleware.{
  Panicky, returned, overloaded, admitted_or_shed, concurrency_limit, acquire, release,
}

-- The slots that are taken in the channel, and the requests that are past it.
pub record Server : Type 0 where
  pub slots : ℕ
  pub inside : List ℕ

-- Drops one request of the list.
abbrev pub remove : ℕ → List ℕ → List ℕ
remove i [] = []
remove i (x ∷ xs) = ite (ℕ_discrete x i) xs (x ∷ remove i xs)

pub data Inside (i : ℕ) : List ℕ → Type 0 where
  first : {x : ℕ} {xs : List ℕ} → x ≡ i → Inside i (x ∷ xs)
  later : {x : ℕ} {xs : List ℕ} → Inside i xs → Inside i (x ∷ xs)

-- A request arrives and is let in, or is shed, as the send says; one that is inside ends, by a return
-- or a panic.
pub data Step (limit : ℕ) (s : Server) : Server → Type 0 where
  enter :
      (i : ℕ)
      → (acquire limit s.slots).1 ≡ true
      → Step limit s (record { slots = (acquire limit s.slots).0; inside = i ∷ s.inside })
  shed :
      (i : ℕ)
      → (acquire limit s.slots).1 ≡ false
      → Step limit s (record s { slots = (acquire limit s.slots).0 })
  leave :
      (i : ℕ)
      → Inside i s.inside
      → Step limit s (record { slots = release s.slots; inside = remove i s.inside })

pub data Reach (limit : ℕ) : Server → Type 0 where
  start : Reach limit (record { slots = 0; inside = [] })
  next : {s t : Server} → Reach limit s → Step limit s t → Reach limit t

pub record Counted (limit : ℕ) (s : Server) : Type 0 where
  pub slots_taken : s.slots ≡ length s.inside
  pub within : s.slots ≤ limit

length-remove : (i : ℕ) (xs : List ℕ) → Inside i xs → length (remove i xs) + 1 ≡ length xs
length-remove i [] m = elim m [ ]
length-remove i (x ∷ xs) (first e) = rw (if_pos (ℕ_discrete x i) e) (omega arith)
length-remove i (x ∷ xs) (later m) = elim (ℕ_discrete x i) [
  | yes e ↦ rw (if_pos _ e) (omega arith)
  | no n ↦ rw (if_neg _ n) (omega (arith, length-remove i xs m))
]

Step-Counted : {limit : ℕ} {s t : Server} → Step limit s t → Counted limit s → Counted limit t
unfolding acquire release
Step-Counted (enter i free) c = ground arith
Step-Counted (shed i busy) c = ground arith
Step-Counted {limit} {s} (leave i m) c = ground (arith, length-remove i s.inside m)

Reach-Counted : {limit : ℕ} {s : Server} → Reach limit s → Counted limit s
Reach-Counted start = omega arith
Reach-Counted (next r st) = Step-Counted st (Reach-Counted r)

concurrency_limit-acquire :
    {S : Type 0} (limit slots : ℕ) (inner : Panicky S) (r : Request) (st : S)
    → 0 < limit
    → concurrency_limit (pos limit) slots inner r st
      ≡ admitted_or_shed inner r st (acquire limit slots).1
unfolding concurrency_limit
concurrency_limit-acquire zero slots inner r st h = absurd (omega arith)
concurrency_limit-acquire (suc n) slots inner r st h = refl

-- Where the limit is positive (with none above 0 there is no channel), in every state that is reached
-- at most `limit` requests are past the middleware; and the next one goes to the handler behind while
-- they are fewer, else it is answered that the server is overloaded.
pub in_flight_bounded :
    {limit : ℕ} {s : Server} {S : Type 0} (inner : Panicky S) (r : Request) (st : S)
    → 0 < limit
    → Reach limit s
    → (length s.inside ≤ limit)
      × (concurrency_limit (pos limit) s.slots inner r st
          ≡ (if ltb (length s.inside) limit then inner r st else (returned overloaded, st)))
unfolding acquire
in_flight_bounded {limit} {s} inner r st positive reached =
    let c = Reach-Counted reached in
    let asked = concurrency_limit-acquire limit s.slots inner r st positive in
    (
      omega (arith, c.slots_taken, c.within),
      elim (Bool-cases (ltb (length s.inside) limit)) [
        | inl room ↦ rw (asked, c.slots_taken, room) refl
        | inr full ↦ rw (asked, c.slots_taken, full) refl
      ],
    )
