-- ===== src/RateLimit/Racing.antt =====
-- `Allow` of internal/ratelimit/limiter.go while other calls and `cleanup` run: each call on the
-- `sync.Map` is a step of its own, and the limiters are told apart by their places on the heap.
use go_api_gateway.Prelude.{
  if◌then◌else◌, ltb_ℤ, ◌-ℤ◌, Bool, true, false, ℕ, ◌+◌, ◌≡◌, Option, none, some, List, [], ◌∷◌,
  ◌++◌, ℤ, Text, text_eq, All, All-map, Any, All-lookup, ap, sym, ◌∙◌, subst, inl, inr,
  Option-cases,
}
use go_api_gateway.Prelude.Dict.{Dict, find, put, delete, find-put_self, find-put_ne}

-- An `*entry`, with the place of its limiter.
pub record Cell : Type 0 where
  pub place : ℕ
  pub last_seen : ℤ

-- Where a call stands: before `Load`; with the entry that it found, before `Store`; with a new entry,
-- before `LoadOrStore`; before it asks its limiter; after.
pub data Progress : Type 0 where
  loading : Progress
  found : (place : ℕ) → Progress
  missed : (cell : Cell) → Progress
  asking : (place : ℕ) → Progress
  asked : (place : ℕ) → Progress

-- `places` limiters have been made.
pub record Shared : Type 0 where
  pub entries : Dict Cell
  pub places : ℕ

abbrev pub load : Shared → ℤ → Option Cell → Shared × Progress
load sh now (some e) = (sh, found e.place)
load sh now none =
    (record sh { places = sh.places + 1 }, missed (record { place = sh.places; last_seen = now }))

abbrev pub load_or_store : Shared → Text → Cell → Option Cell → Shared × Progress
load_or_store sh key cell (some e) = (sh, asking e.place)
load_or_store sh key cell none =
    (record sh { entries = put key cell sh.entries }, asking cell.place)

-- The next step of a call of `Allow`, at the time `now`.
unfoldable pub advance : Shared → Text → ℤ → Progress → Shared × Progress
advance sh key now loading = load sh now (find key sh.entries)
advance sh key now (found p) =
    (record sh { entries = put key (record { place = p; last_seen = now }) sh.entries }, asking p)
advance sh key now (missed cell) = load_or_store sh key cell (find key sh.entries)
advance sh key now (asking p) = (sh, asked p)
advance sh key now (asked p) = (sh, asked p)

pub record Call : Type 0 where
  pub key : Text
  pub progress : Progress

pub record System : Type 0 where
  pub shared : Shared
  pub calls : List Call

-- `cleanup` at one entry of its `Range`, in one step.
unfoldable pub sweep : ℤ → ℤ → Text → Shared → Shared
unfolding delete
sweep idle now key sh = elim (find key sh.entries) [
  | none ↦ sh
  | some e ↦
      let swept = delete key sh.entries in
      if ltb_ℤ idle (now -ℤ e.last_seen) then record sh { entries = swept } else sh
]

-- A call begins, or one of the calls takes its next step; or, where `sweeps`, the cleanup comes to a
-- key.
pub data Step (sweeps : Bool) (idle : ℤ) (s : System) : System → Type 0 where
  begin :
      (key : Text)
      → Step sweeps idle s (record s { calls = record { key = key; progress = loading } ∷ s.calls })
  step :
      (xs ys : List Call) (c : Call) (now : ℤ)
      → s.calls ≡ xs ++ c ∷ ys
      → Step sweeps idle s (record {
        shared = (advance s.shared c.key now c.progress).0;
        calls = xs ++ record c { progress = (advance s.shared c.key now c.progress).1 } ∷ ys;
      })
  clean :
      sweeps ≡ true
      → (key : Text) (now : ℤ)
      → Step sweeps idle s (record s { shared = sweep idle now key s.shared })

pub data Reach (sweeps : Bool) (idle : ℤ) : System → Type 0 where
  start : Reach sweeps idle (record { shared = record { entries = []; places = 0 }; calls = [] })
  next : {s t : System} → Reach sweeps idle s → Step sweeps idle s t → Reach sweeps idle t

-- The entry of the key has the limiter at the place.
abbrev pub Holds : Shared → Text → ℕ → Type 0
Holds sh key p = (t : ℤ) × (find key sh.entries ≡ some (record { place = p; last_seen = t }))

-- A call has the limiter of the entry of its key, from the moment it has one.
abbrev pub Fits : Shared → Text → Progress → Type 0
Fits sh key loading = Unit
Fits sh key (found p) = Holds sh key p
Fits sh key (missed cell) = Unit
Fits sh key (asking p) = Holds sh key p
Fits sh key (asked p) = Holds sh key p

-- What the entries hold they hold on to.
abbrev pub Grows : Shared → Shared → Type 0
Grows sh sh' = (key : Text) (p : ℕ) → Holds sh key p → Holds sh' key p

same_place : (sh : Shared) (key : Text) (p q : ℕ) → Holds sh key p → Holds sh key q → p ≡ q
same_place sh key p q (t, a) (u, b) =
    let e : some (let c : Cell = record { place = p; last_seen = t } in c)
        ≡ some (record { place = q; last_seen = u }) =
      sym a ∙ b in
    cc

Grows-put :
    (sh : Shared) (key : Text) (p : ℕ) (now : ℤ)
    → Holds sh key p
    → Grows sh (record sh { entries = put key (record { place = p; last_seen = now }) sh.entries })
Grows-put sh key p now held other q kept = elim (text_eq key other) [
  | yes same ↦
      let new : Cell = record { place = p; last_seen = now } in
      let here_ : Holds sh other p = subst (λ k. Holds sh k p) same held in
      (
        now,
        subst (λ k. find k (put key new sh.entries) ≡ some (record { place = q; last_seen = now }))
            same
            (find-put_self key new sh.entries
              ∙ ap (λ x. some (record { place = x; last_seen = now }))
                  (same_place sh other p q here_ kept)),
      )
  | no different ↦ (kept.0, find-put_ne key other _ sh.entries different ∙ kept.1)
]

Grows-new :
    (sh : Shared) (key : Text) (cell : Cell)
    → find key sh.entries ≡ none
    → Grows sh (record sh { entries = put key cell sh.entries })
Grows-new sh key cell missing other q (u, kept) = elim (text_eq key other) [
  | yes same ↦ absurd (
      let e : find other sh.entries ≡ none = subst (λ k. find k sh.entries ≡ none) same missing in
      let q : some (let c : Cell = record { place = q; last_seen = u } in c) ≡ none =
        sym kept ∙ e in
      cc)
  | no different ↦ (u, find-put_ne key other cell sh.entries different ∙ kept)
]

Fits-Grows :
    (sh sh' : Shared) (key : Text) (pc : Progress) → Grows sh sh' → Fits sh key pc → Fits sh' key pc
Fits-Grows sh sh' key loading grows f = tt
Fits-Grows sh sh' key (found p) grows f = grows key p f
Fits-Grows sh sh' key (missed cell) grows f = tt
Fits-Grows sh sh' key (asking p) grows f = grows key p f
Fits-Grows sh sh' key (asked p) grows f = grows key p f

abbrev pub Advances : Shared → Text → Shared × Progress → Type 0
Advances sh key (sh', pc) = Grows sh sh' × Fits sh' key pc

advance-Advances :
    (sh : Shared) (key : Text) (now : ℤ) (pc : Progress)
    → Fits sh key pc
    → Advances sh key (advance sh key now pc)
unfolding advance
advance-Advances sh key now loading f = elim (Option-cases (find key sh.entries)) [
  | inl missing ↦ rw missing (λ k p h. h, tt)
  | inr (e, is) ↦ rw is (λ k p h. h, (e.last_seen, is))
]
advance-Advances sh key now (found p) f =
    (Grows-put sh key p now f, (now, find-put_self key _ sh.entries))
advance-Advances sh key now (missed cell) f = elim (Option-cases (find key sh.entries)) [
  | inl missing ↦
      rw missing
        (Grows-new sh key cell missing, (cell.last_seen, find-put_self key cell sh.entries))
  | inr (e, is) ↦ rw is (λ k p h. h, (e.last_seen, is))
]
advance-Advances sh key now (asking p) f = (λ k q h. h, f)
advance-Advances sh key now (asked p) f = (λ k q h. h, f)

abbrev pub AllFit : System → Type 0
AllFit s = All (λ c. Fits s.shared c.key c.progress) s.calls

All-middle : {A : Type 0} (P : A → Type 0) (xs ys : List A) (x : A) → All P (xs ++ x ∷ ys) → P x
All-middle P [] ys x (p, h) = p
All-middle P (y ∷ xs) ys x (p, h) = All-middle P xs ys x h

All-replace :
    {A : Type 0} (P Q : A → Type 0) (xs ys : List A) (x x' : A)
    → ((y : A) → P y → Q y)
    → Q x'
    → All P (xs ++ x ∷ ys)
    → All Q (xs ++ x' ∷ ys)
All-replace P Q [] ys x x' f q (p, h) = (q, All-map f ys h)
All-replace P Q (y ∷ xs) ys x x' f q (p, h) = (f y p, All-replace P Q xs ys x x' f q h)

Step-AllFit : {idle : ℤ} {s t : System} → Step false idle s t → AllFit s → AllFit t
Step-AllFit (begin key) h = (tt, h)
Step-AllFit {s = s} (step xs ys c now at) h =
    let h' = subst (All (λ c. Fits s.shared c.key c.progress)) at h in
    let (grows, fits) =
      advance-Advances s.shared c.key now c.progress
        (All-middle (λ c. Fits s.shared c.key c.progress) xs ys c h') in
    let sh' = (advance s.shared c.key now c.progress).0 in
    All-replace (λ c. Fits s.shared c.key c.progress) (λ c. Fits sh' c.key c.progress) xs ys c _
      (λ d. Fits-Grows s.shared sh' d.key d.progress grows) fits h'
Step-AllFit (clean never key now) h = absurd (let q : false ≡ true = never in cc)

Reach-AllFit : {idle : ℤ} {s : System} → Reach false idle s → AllFit s
Reach-AllFit start = tt
Reach-AllFit (next r st) = Step-AllFit st (Reach-AllFit r)

-- Between two cleanups, however the calls of `Allow` interleave, two calls for one key that have
-- asked a limiter have asked the same one, so that nobody gains a second burst.
pub one_limiter :
    {idle : ℤ} {s : System} (key : Text) (p q : ℕ)
    → Reach false idle s
    → Any (λ c. c ≡ record { key = key; progress = asked p }) s.calls
    → Any (λ c. c ≡ record { key = key; progress = asked q }) s.calls
    → p ≡ q
one_limiter {s = s} key p q r a b =
    let fits = Reach-AllFit r in
    same_place s.shared key p q (All-lookup (λ c. Fits s.shared c.key c.progress) s.calls _ fits a)
      (All-lookup (λ c. Fits s.shared c.key c.progress) s.calls _ fits b)
