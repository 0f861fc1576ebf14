-- ===== src/Prelude/Bytes.antt =====
-- Go strings as their bytes.
use Prim.Native.Nat.{ℕ}
use Prim.Native.Char.{code}
use Prim.Native.String.{String}
use mathlib.Core.Path.{◌≡◌, refl, ap₂}
use mathlib.Core.List.{List, [], ◌∷◌, ◌++◌, head-eq_of_cons-eq, tail-eq_of_cons-eq}
use native.Mathlib.Decide.{ℕ_discrete}

abbrev pub Text : Type 0
Text = List ℕ

-- The bytes of an ASCII literal.
abbrev pub codes : String → Text
codes String.[] = []
codes (String.◌∷◌ c s) = code c ∷ codes s

-- Go's `==` on strings.
unfoldable pub text_eq : Discrete Text
unfolding ℕ_discrete
text_eq [] [] = yes refl
text_eq [] (y ∷ ys) = no (λ e. cc)
text_eq (x ∷ xs) [] = no (λ e. cc)
text_eq (x ∷ xs) (y ∷ ys) = elim (ℕ_discrete x y) [
  | yes p ↦ elim (text_eq xs ys) [
    | yes q ↦ yes (ap₂ ◌∷◌ p q)
    | no q ↦ no (λ e. q (tail-eq_of_cons-eq e))
  ]
  | no p ↦ no (λ e. p (head-eq_of_cons-eq e))
]

pub append_inj {ℓ} : {A : Type ℓ} (p : List A) {s t : List A} → (p ++ s) ≡ (p ++ t) → s ≡ t
append_inj [] e = e
append_inj (x ∷ p) e = append_inj p (tail-eq_of_cons-eq e)
