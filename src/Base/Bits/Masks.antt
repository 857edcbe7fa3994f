-- ===== src/Base/Bits/Masks.antt =====
-- `x |= 1 << k` and `x &= ~(1 << k)` on a 32-bit word, bit by bit.
use Prim.Native.Nat.{ℕ, zero, suc, ◌-◌, ◌/◌, ◌^◌, ◌<◌, bit_and, bit_or}
use mathlib.Core.Path.{◌≡◌}
use native.Mathlib.Nat.{pow-suc, one-le-pow}
use native.Mathlib.Omega.{arith}
use quark_meteo_station.Base.Tests.{◌==◌, if◌then◌else◌}
use quark_meteo_station.Base.Bits.{bit, bit-le_one, bit-bit_or, bit-bit_and, bit-two_pow}

unfoldable pub set_bit : ℕ → ℕ → ℕ
set_bit x k = bit_or x (2 ^ k)

unfoldable pub clear_bit : ℕ → ℕ → ℕ
clear_bit x k = bit_and x (2 ^ 32 - 1 - 2 ^ k)

two_pow-lt : (w k : ℕ) → k < w → 2 ^ k < 2 ^ w
two_pow-lt zero k h = absurd (omega arith)
two_pow-lt (suc w) zero h = omega (arith, pow-suc 2 w, one-le-pow w 2)
two_pow-lt (suc w) (suc k) h = omega (arith, pow-suc 2 w, pow-suc 2 k, two_pow-lt w k (omega arith))

bit-ones : (w j : ℕ) → j < w → bit j (2 ^ w - 1) ≡ 1
bit-ones zero j h = absurd (omega arith)
bit-ones (suc w) zero h = omega (arith, pow-suc 2 w, one-le-pow w 2)
bit-ones (suc w) (suc j) h =
    let half : (2 ^ suc w - 1) / 2 ≡ 2 ^ w - 1 = omega (arith, pow-suc 2 w) in
    rw half (bit-ones w j (omega arith))

-- The complement of a single bit, in a word of `w` bits.
bit-complement : (w j k : ℕ) → j < w → k < w → bit j (2 ^ w - 1 - 2 ^ k) ≡ (if j == k then 0 else 1)
bit-complement zero j k p q = absurd (omega arith)
bit-complement (suc w) zero zero p q = omega (arith, pow-suc 2 w, one-le-pow w 2)
bit-complement (suc w) zero (suc k) p q =
    ground (arith, pow-suc 2 w, pow-suc 2 k, two_pow-lt w k (omega arith))
bit-complement (suc w) (suc j) zero p q =
    let half : (2 ^ suc w - 1 - 2 ^ 0) / 2 ≡ 2 ^ w - 1 = omega (arith, pow-suc 2 w) in
    rw half (ground (arith, bit-ones w j (omega arith)))
bit-complement (suc w) (suc j) (suc k) p q =
    let half : (2 ^ suc w - 1 - 2 ^ suc k) / 2 ≡ 2 ^ w - 1 - 2 ^ k =
      omega (arith, pow-suc 2 w, pow-suc 2 k) in
    rw half (ground (arith, bit-complement w j k (omega arith) (omega arith)))

pub bit-set_bit : (x j k : ℕ) → bit j (set_bit x k) ≡ (if j == k then 1 else bit j x)
unfolding set_bit
bit-set_bit x j k = ground (arith, bit-bit_or j x (2 ^ k), bit-two_pow j k, bit-le_one j x)

pub bit-clear_bit :
    (x j k : ℕ) → j < 32 → k < 32 → bit j (clear_bit x k) ≡ (if j == k then 0 else bit j x)
unfolding clear_bit
bit-clear_bit x j k p q =
    ground (arith, bit-bit_and j x (2 ^ 32 - 1 - 2 ^ k), bit-complement 32 j k p q, bit-le_one j x)
