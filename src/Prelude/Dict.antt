-- ===== src/Prelude/Dict.antt =====
-- A Go `map[string]V` as an association list. Its order is never read by the code modelled here.
use mathlib.Core.Path.{◌≡◌, refl}
use mathlib.Core.List.{List, [], ◌∷◌}
use mathlib.Core.Logic.{ite, ◌≢◌}
use mathlib.Core.Option.{Option, none, some}
use native.Mathlib.Omega.{arith}
use go_api_gateway.Prelude.Bytes.{Text, text_eq}

abbrev pub Dict {ℓ} : Type ℓ → Type ℓ
Dict V = List (Text × V)

module _ {ℓ} {V : Type ℓ} where
  -- `m[k]`, with `none` for a missing key.
  unfoldable pub find : Text → Dict V → Option V
  find k [] = none
  find k ((j, v) ∷ m) = ite (text_eq j k) (some v) (find k m)

  -- `m[k] = v`.
  unfoldable pub put : Text → V → Dict V → Dict V
  put k v [] = (k, v) ∷ []
  put k v ((j, w) ∷ m) = ite (text_eq j k) ((k, v) ∷ m) ((j, w) ∷ put k v m)

  -- `delete(m, k)`.
  unfoldable pub delete : Text → Dict V → Dict V
  delete k [] = []
  delete k ((j, v) ∷ m) = let rest = delete k m in ite (text_eq j k) rest ((j, v) ∷ rest)

  pub find-put_self : (k : Text) (v : V) (m : Dict V) → find k (put k v m) ≡ some v
  unfolding find put
  find-put_self k v [] = ground arith
  find-put_self k v ((j, w) ∷ m) = ground (arith, find-put_self k v m)

  pub find-put_ne : (k j : Text) (v : V) (m : Dict V) → k ≢ j → find j (put k v m) ≡ find j m
  unfolding find put
  find-put_ne k j v [] h = ground arith
  find-put_ne k j v ((i, w) ∷ m) h = ground (arith, find-put_ne k j v m)

  pub put-put : (k : Text) (v w : V) (m : Dict V) → put k v (put k w m) ≡ put k v m
  unfolding put
  put-put k v w [] = ground arith
  put-put k v w ((j, x) ∷ m) = ground (arith, put-put k v w m)

  pub find-delete_self : (k : Text) (m : Dict V) → find k (delete k m) ≡ none
  unfolding find delete
  find-delete_self k [] = refl
  find-delete_self k ((j, w) ∷ m) = ground (arith, find-delete_self k m)

  pub find-delete_ne : (k j : Text) (m : Dict V) → k ≢ j → find j (delete k m) ≡ find j m
  unfolding find delete
  find-delete_ne k j [] h = refl
  find-delete_ne k j ((i, w) ∷ m) h = ground (arith, find-delete_ne k j m)

  pub find-put :
      (k j : Text) (v : V) (m : Dict V) → find j (put k v m) ≡ ite (text_eq k j) (some v) (find j m)
  find-put k j v m = ground (arith, find-put_self k v m, find-put_ne k j v m)

  pub find-delete :
      (k j : Text) (m : Dict V) → find j (delete k m) ≡ ite (text_eq k j) none (find j m)
  find-delete k j m = ground (arith, find-delete_self k m, find-delete_ne k j m)
