-- ===== src/Ds18b20/Decode.antt =====
-- The decoding of the two temperature bytes against the number that they stand for.
use Prim.Native.Nat.{bit_and}
use quark_meteo_station.Base.{
  ℕ, ◌+◌, ◌-◌, ◌*◌, ◌/◌, ◌%◌, ◌<◌, ◌≤◌, ◌≡◌, ◌≢◌, ◌⊎◌, refl, arith, if◌then◌else◌,
}
use quark_meteo_station.Base.Int.{ℤ, abs, is_neg}
use quark_meteo_station.Base.Word.{u8, signed16}
use quark_meteo_station.Base.Bits.{all_below, eq_below}
use quark_meteo_station.Base.Bits.Fields.{bit_or_fields, bit_and_four_bits, bit_and_seven_bits}
use quark_meteo_station.Ds18b20.{positive, negative, Meas, decode}

-- A temperature in sixteenths of a degree, as a sign and whole and hundredth degrees.
abbrev pub in_degrees : ℤ → Meas
in_degrees t = record {
  sign = if is_neg t then negative else positive;
  integer = abs t / 16;
  fraction = abs t % 16 * 625 / 100;
}

-- The register of the sensor: `msb` and `lsb` are a 16-bit signed number.
abbrev pub register : ℕ → ℕ → ℤ
register lsb msb = signed16 (msb * 256 + lsb)

sign_bit : (b : ℕ) → b < 256 → bit_and b 0x80 ≡ b / 128 * 128
unfolding all_below
sign_bit = eq_below 256 (λ b. bit_and b 0x80) (λ b. b / 128 * 128) refl

-- Over the range of the sensor (below 128 degrees either way) the decoded value is the register's,
-- truncated to hundredths, if the register is not negative or its low byte is not 0.
pub decode-in_degrees :
    (lsb msb : ℕ)
    → lsb < 256
    → msb < 256
    → abs (register lsb msb) < 2048
    → (msb < 128) ⊎ (lsb ≢ 0)
    → decode lsb msb ≡ in_degrees (register lsb msb)
unfolding decode
decode-in_degrees lsb msb hl hm range carry = ground (
  arith,
  sign_bit msb hm,
  bit_and_four_bits lsb,
  bit_and_four_bits (u8 (256 - lsb)),
  bit_or_fields 4 msb (lsb / 16),
  bit_or_fields 4 (255 - msb) (u8 (256 - lsb) / 16),
  bit_and_seven_bits (msb * 16 + lsb / 16),
  bit_and_seven_bits ((255 - msb) * 16 + u8 (256 - lsb) / 16),
)

-- For a negative register value with the low byte 0 above -128 degrees (its absolute value below 2048
-- sixteenths) the decoded whole degrees are 16 too few.
pub decode-lost_carry :
    (msb : ℕ)
    → 128 ≤ msb
    → msb < 256
    → abs (register 0 msb) < 2048
    → (decode 0 msb).integer + 16 ≡ (in_degrees (register 0 msb)).integer
unfolding decode
decode-lost_carry msb lo hm range = ground (
  arith,
  sign_bit msb hm,
  bit_or_fields 4 (255 - msb) 0,
  bit_and_seven_bits ((255 - msb) * 16 + 0),
)
