-- ===== src/Base/Word/Signed.antt =====
-- Arithmetic on the 32-bit patterns of signed integers is the arithmetic of the integers, where that
-- fits 32 bits.
use Prim.Native.Nat.{ℕ, suc, ◌+◌, ◌-◌, ◌*◌, ◌/◌, ◌%◌, ◌^◌, ◌<◌}
use mathlib.Core.Path.{◌≡◌, refl, sym, ap, ◌∙◌}
use mathlib.Core.Bool.{false}
use native.Mathlib.Omega.{arith}
use native.Mathlib.Nat.{mul-add, mul_comm, div-le_self}
use quark_meteo_station.Base.Tests.{ltb}
use quark_meteo_station.Base.Int.{ℤ, pos, negsuc, abs, sub_ℕ, ◌+ℤ◌, ◌*ℤ◌, shr_ℤ}
use quark_meteo_station.Base.Word.{u32_of, signed16, add32, sub32, mul32, sar32, sext16}

pub add32-u32_of :
    (a b : ℤ) → abs a < 2 ^ 31 → abs b < 2 ^ 31 → add32 (u32_of a) (u32_of b) ≡ u32_of (a +ℤ b)
unfolding add32 ◌+ℤ◌
add32-u32_of (pos a) (pos b) h k = ground arith
add32-u32_of (pos a) (negsuc b) h k = ground arith
add32-u32_of (negsuc a) (pos b) h k = ground arith
add32-u32_of (negsuc a) (negsuc b) h k = ground arith

pub sub32-sub_ℕ : (a b : ℕ) → a < 2 ^ 31 → b < 2 ^ 31 → sub32 a b ≡ u32_of (sub_ℕ a b)
unfolding sub32
sub32-sub_ℕ a b h k = ground arith

-- A factor times the pattern of a negative one.
mixed : (m x c : ℕ) → x + c ≡ 2 ^ 32 → m * x + m * c ≡ 2 ^ 32 * m
mixed m x c h = sym (mul-add m x c) ∙ ap (λ t. m * t) h ∙ mul_comm m (2 ^ 32)

-- What is a multiple of 2^32 but for a small number that is missing.
missing : (q p m : ℕ) → q + p ≡ 2 ^ 32 * m → p < 2 ^ 31 → q % 2 ^ 32 ≡ u32_of (sub_ℕ 0 p)
missing q p m e h = ground arith

abs-sub_ℕ-zero : (p : ℕ) → abs (sub_ℕ 0 p) ≡ p
abs-sub_ℕ-zero p = ground arith

pub mul32-u32_of :
    (a b : ℤ)
    → abs a < 2 ^ 31
    → abs b < 2 ^ 31
    → abs (a *ℤ b) < 2 ^ 31
    → mul32 (u32_of a) (u32_of b) ≡ u32_of (a *ℤ b)
unfolding mul32 ◌*ℤ◌
mul32-u32_of (pos a) (pos b) h k l =
    let e₁ : a % 2 ^ 32 ≡ a = omega arith in
    let e₂ : b % 2 ^ 32 ≡ b = omega arith in rw (e₁, e₂) refl
mul32-u32_of (pos a) (negsuc b) h k l =
    let e₁ : a % 2 ^ 32 ≡ a = omega arith in
    let x = 2 ^ 32 - 1 - b % 2 ^ 32 in
    rw e₁ (
      missing (a * x) (a * suc b) a (mixed a x (suc b) (omega arith))
        (omega (arith, abs-sub_ℕ-zero (a * suc b))))
mul32-u32_of (negsuc a) (pos b) h k l =
    let e₁ : b % 2 ^ 32 ≡ b = omega arith in
    let x = 2 ^ 32 - 1 - a % 2 ^ 32 in
    let e₂ = mixed b x (suc a) (omega arith) in
    rw e₁ (
      missing (x * b) (suc a * b) b (omega (arith, e₂, mul_comm x b, mul_comm (suc a) b))
        (omega (arith, abs-sub_ℕ-zero (suc a * b))))
mul32-u32_of (negsuc a) (negsuc b) h k l =
    let x = 2 ^ 32 - 1 - a % 2 ^ 32 in
    let y = 2 ^ 32 - 1 - b % 2 ^ 32 in
    let e₁ = mixed x y (suc b) (omega arith) in
    let e₂ = mixed (suc b) x (suc a) (omega arith) in
    omega (arith, e₁, e₂, mul_comm x (suc b), mul_comm (suc a) (suc b))

pub sar32-u32_of : (a : ℤ) (k : ℕ) → abs a < 2 ^ 31 → sar32 (u32_of a) k ≡ u32_of (shr_ℤ a k)
unfolding sar32 shr_ℤ
sar32-u32_of (pos a) k h = ground (arith, div-le_self a (2 ^ k))
sar32-u32_of (negsuc a) k h =
    let at : 2 ^ 32 - 1 - (2 ^ 32 - 1 - a % 2 ^ 32) ≡ a = omega arith in
    let e : ltb (2 ^ 32 - 1 - a % 2 ^ 32) (2 ^ 31) ≡ false = ground arith in
    let f : a / 2 ^ k % 2 ^ 32 ≡ a / 2 ^ k = omega (arith, div-le_self a (2 ^ k)) in
    rw (e, at, f) refl

pub sext16-signed16 : (w : ℕ) → w < 2 ^ 16 → sext16 w ≡ u32_of (signed16 w)
unfolding sext16
sext16-signed16 w h = ground arith
