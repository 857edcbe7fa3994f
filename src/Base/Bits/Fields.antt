-- ===== src/Base/Bits/Fields.antt =====
-- `(q << k) | r` and `x & ((1 << k) - 1)` as arithmetic.
use Prim.Native.Nat.{ℕ, zero, suc, ◌+◌, ◌-◌, ◌*◌, ◌/◌, ◌%◌, ◌^◌, ◌≤◌, ◌<◌, bit_and, bit_or}
use mathlib.Core.Path.{◌≡◌, refl, ap}
use native.Mathlib.Nat.{pow-suc, one-le-pow}
use native.Mathlib.Omega.{arith}
use quark_meteo_station.Base.Bits.{bit_or_step, bit_and_step}

or_nothing : (n a : ℕ) → a ≤ n → bit_or a 0 ≡ a
or_nothing n zero h = refl
or_nothing zero (suc a) h = absurd (omega arith)
or_nothing (suc n) (suc a) h =
    omega (arith, bit_or_step (suc a) 0, or_nothing n (suc a / 2) (omega arith))

shifted : (q k : ℕ) → q * 2 ^ suc k ≡ q * 2 ^ k * 2
shifted q k = omega (arith, ap (λ (t : ℕ). q * t) (pow-suc 2 k))

-- Disjoint fields: the sum.
pub bit_or_fields : (k q r : ℕ) → r < 2 ^ k → bit_or (q * 2 ^ k) r ≡ q * 2 ^ k + r
bit_or_fields zero q r h = ground (arith, or_nothing q q)
bit_or_fields (suc k) q r h =
    let below : r / 2 < 2 ^ k = omega (arith, pow-suc 2 k) in
    let half : q * 2 ^ suc k / 2 ≡ q * 2 ^ k = omega (arith, shifted q k) in
    ground
      (arith, bit_or_step (q * 2 ^ suc k) r, half, shifted q k, bit_or_fields k q (r / 2) below)

and_nothing : (n a : ℕ) → a ≤ n → bit_and a 0 ≡ 0
and_nothing n zero h = refl
and_nothing zero (suc a) h = absurd (omega arith)
and_nothing (suc n) (suc a) h =
    omega (arith, bit_and_step (suc a) 0, and_nothing n (suc a / 2) (omega arith))

-- A mask of the `k` lowest bits keeps the lowest field.
pub bit_and_low : (k q r : ℕ) → r < 2 ^ k → bit_and (q * 2 ^ k + r) (2 ^ k - 1) ≡ r
bit_and_low zero q r h = omega (arith, and_nothing (q * 2 ^ 0 + r) (q * 2 ^ 0 + r) (omega arith))
bit_and_low (suc k) q r h =
    let below : r / 2 < 2 ^ k = omega (arith, pow-suc 2 k) in
    let ones : (2 ^ suc k - 1) / 2 ≡ 2 ^ k - 1 = omega (arith, pow-suc 2 k, one-le-pow k 2) in
    let half : (q * 2 ^ suc k + r) / 2 ≡ q * 2 ^ k + r / 2 = omega (arith, shifted q k) in
    ground (
      arith,
      bit_and_step (q * 2 ^ suc k + r) (2 ^ suc k - 1),
      ones,
      half,
      shifted q k,
      pow-suc 2 k,
      one-le-pow k 2,
      bit_and_low k q (r / 2) below,
    )

pub bit_and_seven_bits : (a : ℕ) → bit_and a 0x7f ≡ a % 128
bit_and_seven_bits a =
    let whole : a / 128 * 2 ^ 7 + a % 128 ≡ a = omega arith in
    ground (arith, whole, bit_and_low 7 (a / 128) (a % 128))

pub bit_and_four_bits : (a : ℕ) → bit_and a 0x0F ≡ a % 16
bit_and_four_bits a =
    let whole : a / 16 * 2 ^ 4 + a % 16 ≡ a = omega arith in
    ground (arith, whole, bit_and_low 4 (a / 16) (a % 16))
