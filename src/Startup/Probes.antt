-- ===== src/Startup/Probes.antt =====
-- Which upstreams the probes of cmd/gateway/server.go's `probeAll` find healthy, by the last probe of
-- each.
use go_api_gateway.Prelude.{
  ◌≡◌, ◌↔◌, refl, Bool, true, false, Option, none, some, List, [], ◌∷◌, any, Text, text_eq, ite,
  if_pos, if_neg, Any, here, there, ap, sym, ◌∙◌, arith, ℤ,
}
use go_api_gateway.Prelude.Dict.{find}
use go_api_gateway.Config.Types.{ServiceConfig}
use go_api_gateway.Health.{
  Checker, Probe, bad_request, no_response, answered, is_up, check, check_all, is_healthy, probe,
  new_checker,
}
use go_api_gateway.Health.Passes.{is_healthy-check, any-true, probe-any}

-- The result of the last probe of the URL that ended.
abbrev pub later : Option Probe → Option Probe → Option Probe
later (some q) this = some q
later none this = this

abbrev pub last_probe : Text → List (Text × Probe) → Option Probe
last_probe url [] = none
last_probe url ((u, p) ∷ ended) =
    let rest = last_probe url ended in later rest (ite (text_eq u url) (some p) none)

-- Some upstream answers its last probe with 200.
abbrev pub IsUp : {F : Type 0} → (Text → List (Text × Probe)) → ServiceConfig F → Type 0
IsUp ended svc = Any (λ u. last_probe u (ended svc.name) ≡ some (answered 200)) svc.upstreams

abbrev by_last : Bool → Option Probe → Bool
by_last before none = before
by_last before (some p) = is_up p

by_last-later :
    (c : Checker) (u : Text) (p : Probe) (rest : Option Probe) (j : Text)
    → by_last (is_healthy (check c u p) j) rest
      ≡ by_last (is_healthy c j) (later rest (ite (text_eq u j) (some p) none))
by_last-later c u p (some q) j = refl
by_last-later c u p none j = elim (text_eq u j) [
  | yes same ↦
      rw (if_pos (text_eq u j) same) (is_healthy-check c u p j ∙ if_pos (text_eq u j) same _ _)
  | no other ↦
      rw (if_neg (text_eq u j) other) (is_healthy-check c u p j ∙ if_neg (text_eq u j) other _ _)
]

is_healthy-last :
    (c : Checker) (ended : List (Text × Probe)) (j : Text)
    → is_healthy (check_all c ended) j ≡ by_last (is_healthy c j) (last_probe j ended)
unfolding check_all
is_healthy-last c [] j = refl
is_healthy-last c ((u, p) ∷ ended) j =
    is_healthy-last (check c u p) ended j ∙ by_last-later c u p (last_probe j ended) j

by_last_iff : (o : Option Probe) → (by_last false o ≡ true) ↔ (o ≡ some (answered 200))
by_last_iff none = (λ h. cc, λ h. cc)
by_last_iff (some bad_request) = (λ h. cc, λ h. cc)
by_last_iff (some no_response) = (λ h. cc, λ h. cc)
by_last_iff (some (answered s)) = (
  λ h. let e : s ≡ 200 = ground arith in ap (λ n. some (answered n)) e,
  λ h. let e : s ≡ 200 = cc in rw e refl,
)

Any-iff : (p q : Text → Type 0) → ((u : Text) → p u ↔ q u) → (us : List Text) → Any p us ↔ Any q us
Any-iff p q same us = (to us, from us)
  where
    to : (us : List Text) → Any p us → Any q us
    to [] a = elim a [ ]
    to (u ∷ us) (here h) = here ((same u).0 h)
    to (u ∷ us) (there a) = there (to us a)

    from : (us : List Text) → Any q us → Any p us
    from [] a = elim a [ ]
    from (u ∷ us) (here h) = here ((same u).1 h)
    from (u ∷ us) (there a) = there (from us a)

healthy_iff :
    (c : Checker) (ended : List (Text × Probe)) (u : Text)
    → is_healthy c u ≡ false
    → (is_healthy (check_all c ended) u ≡ true) ↔ (last_probe u ended ≡ some (answered 200))
healthy_iff c ended u unknown =
    let same : is_healthy (check_all c ended) u ≡ by_last false (last_probe u ended) =
      is_healthy-last c ended u ∙ ap (λ b. by_last b (last_probe u ended)) unknown in
    let (forth, back) = by_last_iff (last_probe u ended) in
    (λ h. forth (sym same ∙ h), λ h. same ∙ back h)

-- The probe of a checker that knows nothing yet.
pub probe-last :
    (urls : List Text) (interval : ℤ) (path : Text) (ended : List (Text × Probe))
    → ((probe (new_checker urls interval path) ended).1 ≡ true)
      ↔ Any (λ u. last_probe u ended ≡ some (answered 200)) urls
unfolding new_checker is_healthy find
probe-last urls interval path ended =
    let c : Checker = new_checker urls interval path in
    let (to, from) = any-true (is_healthy (check_all c ended)) urls in
    let (on, off) =
      Any-iff (λ u. is_healthy (check_all c ended) u ≡ true)
        (λ u. last_probe u ended ≡ some (answered 200)) (λ u. healthy_iff c ended u refl) urls in
    let found : (probe c ended).1 ≡ any (is_healthy (check_all c ended)) urls = probe-any c ended in
    (λ h. on (to (sym found ∙ h)), λ a. found ∙ from (off a))
