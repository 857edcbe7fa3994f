-- ===== src/Base/Word.antt =====
-- Machine words: an unsigned w-bit integer is a number, kept in range by `% 2 ^ w`; an `int32_t` is
-- either an integer or, where shifts and wrapping products act on it, its bit pattern.
pub mod Signed
use Prim.Native.Nat.{ℕ, ◌+◌, ◌-◌, ◌*◌, ◌/◌, ◌%◌, ◌^◌, ◌≤◌, ◌<◌}
use mathlib.Core.Path.{◌≡◌}
use native.Mathlib.Omega.{arith}
use quark_meteo_station.Base.Tests.{ltb, if◌then◌else◌}
use quark_meteo_station.Base.Int.{ℤ, pos, negsuc, pos_part, neg_part, ◌+ℤ◌}

abbrev pub u8 : ℕ → ℕ
u8 n = n % 2 ^ 8

abbrev pub u16 : ℕ → ℕ
u16 n = n % 2 ^ 16

abbrev pub u32 : ℕ → ℕ
u32 n = n % 2 ^ 32

-- The pattern of an integer in two's complement, at width 8, 16 and 32 bits.
abbrev pub u8_of : ℤ → ℕ
u8_of (pos n) = n % 2 ^ 8
u8_of (negsuc n) = 2 ^ 8 - 1 - n % 2 ^ 8

abbrev pub u16_of : ℤ → ℕ
u16_of (pos n) = n % 2 ^ 16
u16_of (negsuc n) = 2 ^ 16 - 1 - n % 2 ^ 16

abbrev pub u32_of : ℤ → ℕ
u32_of (pos n) = n % 2 ^ 32
u32_of (negsuc n) = 2 ^ 32 - 1 - n % 2 ^ 32

-- The integer that a pattern stands for.
abbrev pub signed16 : ℕ → ℤ
signed16 w = if ltb w (2 ^ 15) then pos w else negsuc (2 ^ 16 - 1 - w)

abbrev pub signed32 : ℕ → ℤ
signed32 w = if ltb w (2 ^ 31) then pos w else negsuc (2 ^ 32 - 1 - w)

-- The value kept by an `int16_t` or `int32_t` variable to which the integer is assigned.
abbrev pub i16 : ℤ → ℤ
i16 a = signed16 (u16_of a)

abbrev pub i32 : ℤ → ℤ
i32 a = signed32 (u32_of a)

-- Arithmetic on 32-bit patterns; the same for both signs. `-` on ℕ stops at 0, hence `+ 2 ^ 32`.
unfoldable pub add32 : ℕ → ℕ → ℕ
add32 a b = (a + b) % 2 ^ 32

unfoldable pub sub32 : ℕ → ℕ → ℕ
sub32 a b = (a + 2 ^ 32 - b % 2 ^ 32) % 2 ^ 32

unfoldable pub mul32 : ℕ → ℕ → ℕ
mul32 a b = a * b % 2 ^ 32

unfoldable pub shl32 : ℕ → ℕ → ℕ
shl32 a k = a * 2 ^ k % 2 ^ 32

-- `>>` of a signed pattern: the sign is shifted in.
unfoldable pub sar32 : ℕ → ℕ → ℕ
sar32 a k = if ltb a (2 ^ 31) then a / 2 ^ k else 2 ^ 32 - 1 - (2 ^ 32 - 1 - a) / 2 ^ k

-- A 16-bit pattern as a signed value, widened to 32 bits.
unfoldable pub sext16 : ℕ → ℕ
sext16 w = if ltb w (2 ^ 15) then w else w + (2 ^ 32 - 2 ^ 16)

pub i32_of_small : (a : ℤ) → pos_part a < 2 ^ 31 → neg_part a ≤ 2 ^ 31 → i32 a ≡ a
i32_of_small (pos n) p q = ground arith
i32_of_small (negsuc n) p q = ground arith

pub i16_of_small : (a : ℤ) → pos_part a < 2 ^ 15 → neg_part a ≤ 2 ^ 15 → i16 a ≡ a
i16_of_small (pos n) p q = ground arith
i16_of_small (negsuc n) p q = ground arith

-- Wrapping addition of patterns is the addition of what they stand for, where that fits.
pub signed32-add32 :
    (a b : ℕ)
    → a < 2 ^ 32
    → b < 2 ^ 32
    → pos_part (signed32 a +ℤ signed32 b) < 2 ^ 31
    → neg_part (signed32 a +ℤ signed32 b) ≤ 2 ^ 31
    → signed32 (add32 a b) ≡ signed32 a +ℤ signed32 b
unfolding add32 ◌+ℤ◌
signed32-add32 a b ha hb lo hi = ground arith
