-- ===== src/Strings/Laws.antt =====
-- Laws of the text functions.
use go_api_gateway.Prelude.{◌≡◌, refl, [], ◌∷◌, ◌++◌, arith, Text, some}
use go_api_gateway.Strings.{cut_prefix}

-- `CutPrefix` undoes a prefix.
pub cut_prefix-append : (p s : Text) → cut_prefix (p ++ s) p ≡ some s
unfolding cut_prefix
cut_prefix-append [] [] = refl
cut_prefix-append [] (x ∷ s) = refl
cut_prefix-append (x ∷ p) s = ground (arith, cut_prefix-append p s)
