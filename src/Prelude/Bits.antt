-- ===== src/Prelude/Bits.antt =====
-- The bits of a byte (`u8`): tested and set with `&`, `|` and `<<`.
use Prim.Native.Nat.{ℕ, zero, suc, ◌^◌, ◌<◌, bit_and, bit_or}
use mathlib.Core.Bool.{Bool, true, false, not, ◌&&◌, ◌||◌}
use mathlib.Core.Path.{◌≡◌, refl}
use native.Mathlib.Omega.{arith}
use kun.Prelude.Tests.{ltb, ◌==◌}

-- `(byte & (1 << k)) != 0` and `byte | (1 << k)`, for k < 8.
unfoldable pub has_bit : (k byte : ℕ) → Bool
has_bit k byte = not (bit_and byte (2 ^ k) == 0)

unfoldable pub with_bit : (k byte : ℕ) → ℕ
with_bit k byte = bit_or byte (2 ^ k)

all_below : ℕ → (ℕ → Bool) → Bool
all_below zero p = true
all_below (suc n) p = p n && all_below n p

all_below_holds : (n : ℕ) (p : ℕ → Bool) (i : ℕ) → all_below n p ≡ true → i < n → p i ≡ true
unfolding all_below
all_below_holds zero p i h small = absurd (omega arith)
all_below_holds (suc n) p i h small = let ih = all_below_holds n p i in ground (arith, ih)

same : Bool → Bool → Bool
same true b = b
same false b = not b

bits_agree : (k j byte : ℕ) → Bool
unfolding has_bit with_bit same
bits_agree k j byte =
    same (has_bit j (with_bit k byte)) (k == j || has_bit j byte) && ltb (with_bit k byte) 256

bits_checked : all_below 8 (λ k. all_below 8 (λ j. all_below 256 (bits_agree k j))) ≡ true
unfolding all_below bits_agree has_bit with_bit same
bits_checked = refl

pub has_bit-with_bit :
    (k j byte : ℕ)
    → k < 8
    → j < 8
    → byte < 256
    → (has_bit j (with_bit k byte) ≡ (k == j || has_bit j byte)) × (with_bit k byte < 256)
unfolding bits_agree same
has_bit-with_bit k j byte k_small j_small small =
    let for_k =
      all_below_holds 8 (λ k. all_below 8 (λ j. all_below 256 (bits_agree k j))) k bits_checked
        k_small in
    let for_j = all_below_holds 8 (λ j. all_below 256 (bits_agree k j)) j for_k j_small in
    let agree = all_below_holds 256 (bits_agree k j) byte for_j small in ground (arith, agree)
