-- ===== src/Middleware/Uuid.antt =====
-- The form of the request ID of internal/middleware/requestid.go.
use Prim.Native.Nat.{bit_and, bit_or}
use go_api_gateway.Prelude.{
  ℕ, zero, suc, ◌/◌, ◌≤◌, ◌<◌, ◌≡◌, refl, Bool, true, ◌&&◌, some, [], ◌∷◌, arith, leb, ◌==◌, ==_iff,
  length, get_elem?, ap,
}
use go_api_gateway.Http.{hex_digit}
use go_api_gateway.Middleware.{stamp, format_uuid}

-- `p` holds of all numbers below `n`.
holds_below : (ℕ → Bool) → ℕ → Bool
holds_below p zero = true
holds_below p (suc n) = p n && holds_below p n

holds_below-at : (p : ℕ → Bool) (n b : ℕ) → holds_below p n ≡ true → b < n → p b ≡ true
unfolding holds_below
holds_below-at p zero b all lt = absurd (omega arith)
holds_below-at p (suc n) b all lt = ground (arith, holds_below-at p n b)

-- The high digits of the two bytes that are stamped.
abbrev version_digit : ℕ → ℕ
version_digit b = bit_or (bit_and b 0x0f) 0x40 / 16

abbrev variant_digit : ℕ → ℕ
variant_digit b = bit_or (bit_and b 0x3f) 0x80 / 16

versions : holds_below (λ b. version_digit b == 4) 256 ≡ true
unfolding holds_below
versions = refl

variants : holds_below (λ b. leb 8 (variant_digit b) && leb (variant_digit b) 11) 256 ≡ true
unfolding holds_below
variants = refl

version_is_4 : (b : ℕ) → b < 256 → version_digit b ≡ 4
version_is_4 b small =
    (==_iff (version_digit b) 4).0 (holds_below-at (λ b. version_digit b == 4) 256 b versions small)

variant_is_1 : (b : ℕ) → b < 256 → (8 ≤ variant_digit b) × (variant_digit b ≤ 11)
variant_is_1 b small =
    let h =
      holds_below-at (λ b. leb 8 (variant_digit b) && leb (variant_digit b) 11) 256 b variants
        small in
    ground arith

-- From 16 bytes, of which those at 6 and 8 are below 256, comes a text of 36 characters with dashes at 8, 13, 18 and 23, the version 4 at
-- 14, and at 19 one of the digits 8 to b of the variant.
pub uuid_form :
    (b0 b1 b2 b3 b4 b5 b6 b7 b8 b9 b10 b11 b12 b13 b14 b15 : ℕ)
    → b6 < 256
    → b8 < 256
    → let id = format_uuid (
        stamp (
          b0 ∷ b1 ∷ b2 ∷ b3 ∷ b4 ∷ b5 ∷ b6 ∷ b7 ∷ b8 ∷ b9 ∷ b10 ∷ b11 ∷ b12 ∷ b13 ∷ b14 ∷ b15
          ∷ [])) in
      (length id ≡ 36)
      × (get_elem? id 8 ≡ some b'-')
      × (get_elem? id 13 ≡ some b'-')
      × (get_elem? id 18 ≡ some b'-')
      × (get_elem? id 23 ≡ some b'-')
      × (get_elem? id 14 ≡ some b'4')
      × ((d : ℕ) × (8 ≤ d) × (d ≤ 11) × (get_elem? id 19 ≡ some (hex_digit d)))
unfolding stamp format_uuid
uuid_form b0 b1 b2 b3 b4 b5 b6 b7 b8 b9 b10 b11 b12 b13 b14 b15 small_version small_variant =
    let (low, high) = variant_is_1 b8 small_variant in
    (
      refl,
      refl,
      refl,
      refl,
      refl,
      ap (λ d. some (hex_digit d)) (version_is_4 b6 small_version),
      (variant_digit b8, low, high, refl),
    )
