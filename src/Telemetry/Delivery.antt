-- ===== src/Telemetry/Delivery.antt =====
-- Which handlers `fanoutHandler.Handle` of internal/otel/fanout.go gives a record to.
use go_api_gateway.Prelude.{
  ◌≡◌, refl, true, false, Option, none, some, List, [], ◌∷◌, ◌++◌, if◌then◌else◌, ℤ, Text,
  Bool-cases, Option-cases, inl, inr, ◌⊎◌, All, ap,
}
use go_api_gateway.Telemetry.{LogHandler, handle}

module _ {R E : Type 0} (level : ℤ) (r : R) where
  -- The names of the handlers that take the level.
  abbrev pub takers : List (LogHandler R E) → List Text
  takers [] = []
  takers (h ∷ hs) = if h.enabled level then h.name ∷ takers hs else takers hs

  -- The handler takes the level, and its error is `e`.
  abbrev pub FailsWith : E → LogHandler R E → Type 0
  FailsWith e h = (h.enabled level ≡ true) × (h.handle r ≡ some e)

  -- If it takes the level, it has no error.
  abbrev pub Succeeds : LogHandler R E → Type 0
  Succeeds h = (h.enabled level ≡ false) ⊎ (h.handle r ≡ none)

  -- The first failure, and the handlers before and behind it.
  pub record Cut (hs : List (LogHandler R E)) : Type 0 where
    pub xs : List (LogHandler R E)
    pub h : LogHandler R E
    pub ys : List (LogHandler R E)
    pub e : E
    pub split : hs ≡ xs ++ h ∷ ys
    pub good : All Succeeds xs
    pub fails : FailsWith e h

  abbrev cons_Cut :
      (h : LogHandler R E) (hs : List (LogHandler R E)) → Succeeds h → Cut hs → Cut (h ∷ hs)
  cons_Cut h hs s c = record {
    xs = h ∷ c.xs;
    h = c.h;
    ys = c.ys;
    e = c.e;
    split = ap (λ zs. h ∷ zs) c.split;
    good = (s, c.good);
    fails = c.fails;
  }

  abbrev pub Delivers : List (LogHandler R E) → List Text × Option E → Type 0
  Delivers hs outcome =
      All Succeeds hs × (outcome ≡ (takers hs, none))
      ⊎ ((c : Cut hs) × (outcome ≡ (takers c.xs ++ c.h.name ∷ [], some c.e)))

  -- Every handler that takes the level gets the record and none has an error; or one of them has,
  -- and then the record has gone to those before it and to itself, to none behind it, and its error
  -- is what is returned.
  pub handle_lem : (hs : List (LogHandler R E)) → Delivers hs (handle hs level r)
  unfolding handle
  handle_lem [] = inl (tt, refl)
  handle_lem (h ∷ hs) = elim (Bool-cases (h.enabled level)) [
    | inr shut ↦ elim (handle_lem hs) [
      | inl (good, all) ↦ rw shut (inl ((inl refl, good), all))
      | inr (c, some_) ↦ rw shut (inr (cons_Cut h hs (inl shut) c, rw shut some_))
    ]
    | inl open_ ↦ elim (Option-cases (h.handle r)) [
      | inr (e, fails) ↦
          rw (open_, fails)
            (inr (
              record {
                xs = [];
                h = h;
                ys = hs;
                e = e;
                split = refl;
                good = tt;
                fails = (open_, fails);
              },
              refl,
            ))
      | inl works ↦ elim (handle_lem hs) [
        | inl (good, all) ↦ rw (open_, works, all) (inl ((inr refl, good), refl))
        | inr (c, some_) ↦
            rw (open_, works, some_) (inr (cons_Cut h hs (inr works) c, rw open_ refl))
      ]
    ]
  ]
