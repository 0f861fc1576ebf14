-- ===== src/Health/Passes.antt =====
-- What a pass of internal/health/checker.go leaves, in whatever order its goroutines end.
use go_api_gateway.Prelude.{
  sym, ◌++◌, ◌≡◌, refl, ◌≢◌, ◌↔◌, ◌⊎◌, inl, inr, Bool, true, List, [], ◌∷◌, any, Text, text_eq, ite,
  arith, All, Any, here, there, ◌∙◌, ap, if_neg, subst, All-map, Bool-cases,
}
use go_api_gateway.Prelude.Dict.{find-put}
use go_api_gateway.Health.{Checker, Probe, is_up, check, is_healthy, check_all, probe, start}

pub is_healthy-check :
    (c : Checker) (url : Text) (p : Probe) (j : Text)
    → is_healthy (check c url p) j ≡ ite (text_eq url j) (is_up p) (is_healthy c j)
unfolding is_healthy check
is_healthy-check c url p j = ground (arith, find-put url j (is_up p) c.status)

-- A URL that is not probed keeps what was known of it.
pub check_all_other :
    (c : Checker) (done : List (Text × Probe)) (j : Text)
    → All (λ d. d.0 ≢ j) done
    → is_healthy (check_all c done) j ≡ is_healthy c j
unfolding check_all
check_all_other c [] j h = refl
check_all_other c ((url, p) ∷ done) j (n, h) =
    check_all_other (check c url p) done j h
    ∙ is_healthy-check c url p j
    ∙ if_neg (text_eq url j) n _ _

check_all_probed :
    (outcome : Text → Probe) (c : Checker) (done : List (Text × Probe)) (j : Text)
    → All (λ d. d.1 ≡ outcome d.0) done
    → (is_healthy c j ≡ is_up (outcome j)) ⊎ Any (λ d. d.0 ≡ j) done
    → is_healthy (check_all c done) j ≡ is_up (outcome j)
unfolding check_all
check_all_probed outcome c [] j h (inl e) = e
check_all_probed outcome c [] j h (inr a) = elim a [ ]
check_all_probed outcome c ((url, p) ∷ done) j (e, h) s =
    check_all_probed outcome (check c url p) done j h (step s)
  where
    step :
        ((is_healthy c j ≡ is_up (outcome j)) ⊎ Any (λ d. d.0 ≡ j) ((url, p) ∷ done))
        → (is_healthy (check c url p) j ≡ is_up (outcome j)) ⊎ Any (λ d. d.0 ≡ j) done
    step (inl known) = inl (ground (arith, is_healthy-check c url p j))
    step (inr (here same)) = inl (ground (arith, is_healthy-check c url p j))
    step (inr (there a)) = inr a

-- The goroutines of a pass over `urls` have ended, in some order: each finished probe is one of a
-- URL of the list with what the probe of that URL came to, and none is missing.
pub record Finished (outcome : Text → Probe) (urls : List Text) (done : List (Text × Probe))
    : Type 0 where
  pub results : All (λ d. d.1 ≡ outcome d.0) done
  pub complete : All (λ u. Any (λ d. d.0 ≡ u) done) urls

All-at : (P : Text → Type 0) (xs : List Text) (j : Text) → All P xs → Any (λ u. u ≡ j) xs → P j
All-at P [] j h a = elim a [ ]
All-at P (x ∷ xs) j (p, h) (here e) = subst P e p
All-at P (x ∷ xs) j (p, h) (there a) = All-at P xs j h a

-- After a pass whose goroutines have all ended a URL of the checker counts as healthy exactly when its probe was answered with 200,
-- in whatever order the goroutines end.
pub check_all_lem :
    (outcome : Text → Probe) (c : Checker) (done : List (Text × Probe)) (j : Text)
    → Finished outcome c.urls done
    → Any (λ u. u ≡ j) c.urls
    → is_healthy (check_all c done) j ≡ is_up (outcome j)
check_all_lem outcome c done j f listed =
    check_all_probed outcome c done j f.results (inr (All-at _ c.urls j f.complete listed))

pub urls-check_all : (c : Checker) (done : List (Text × Probe)) → (check_all c done).urls ≡ c.urls
unfolding check_all check
urls-check_all c [] = refl
urls-check_all c ((url, p) ∷ done) = urls-check_all (check c url p) done

-- However the passes before went, after a pass of `Start` whose goroutines have all ended, in whatever
-- order, a URL of the checker counts as healthy exactly when its probe in that pass was answered with
-- 200.
pub start_lem :
    (outcome : Text → Probe) (passes : List (List (Text × Probe))) (c : Checker)
    (done : List (Text × Probe)) (j : Text)
    → Finished outcome c.urls done
    → Any (λ u. u ≡ j) c.urls
    → is_healthy (start c (passes ++ done ∷ [])) j ≡ is_up (outcome j)
unfolding start
start_lem outcome [] c done j f listed = check_all_lem outcome c done j f listed
start_lem outcome (pass ∷ passes) c done j f listed =
    let same = sym (urls-check_all c pass) in
    start_lem outcome passes (check_all c pass) done j
      (subst (λ urls. Finished outcome urls done) same f) (subst (Any (λ u. u ≡ j)) same listed)

pub any-true : (p : Text → Bool) (xs : List Text) → (any p xs ≡ true) ↔ Any (λ u. p u ≡ true) xs
any-true p xs = (to xs, from xs)
  where
    to : (xs : List Text) → any p xs ≡ true → Any (λ u. p u ≡ true) xs
    to [] h = cc
    to (x ∷ xs) h = elim (Bool-cases (p x)) [
      | inl good ↦ here good
      | inr bad ↦ there (to xs (ground arith))
    ]

    from : (xs : List Text) → Any (λ u. p u ≡ true) xs → any p xs ≡ true
    from [] a = elim a [ ]
    from (x ∷ xs) (here good) = rw good
    from (x ∷ xs) (there a) = elim (Bool-cases (p x)) [
      | inl good ↦ rw good
      | inr bad ↦ rw bad (from xs a)
    ]

any-ext : (p q : Text → Bool) (xs : List Text) → All (λ u. p u ≡ q u) xs → any p xs ≡ any q xs
any-ext p q [] h = refl
any-ext p q (x ∷ xs) (e, h) = rw (e, any-ext p q xs h)

pub probe-any :
    (c : Checker) (done : List (Text × Probe))
    → (probe c done).1 ≡ any (is_healthy (check_all c done)) c.urls
unfolding probe
probe-any c done = ap (any (is_healthy (check_all c done))) (urls-check_all c done)

-- When the goroutines of its pass have all ended, the startup probe succeeds exactly when some upstream of the service answers with 200.
pub probe_iff :
    (outcome : Text → Probe) (c : Checker) (done : List (Text × Probe))
    → Finished outcome c.urls done
    → ((probe c done).1 ≡ true) ↔ Any (λ u. is_up (outcome u) ≡ true) c.urls
probe_iff outcome c done f =
    let known : All (λ u. is_healthy (check_all c done) u ≡ is_up (outcome u)) c.urls =
      All-map (λ u a. check_all_probed outcome c done u f.results (inr a)) c.urls f.complete in
    rw (probe-any c done ∙ any-ext _ _ c.urls known) (any-true (λ u. is_up (outcome u)) c.urls)
