-- ===== src/Bmp280.antt =====
-- BMP280.c: the indoor thermometer and barometer, on any register bus.
mod Flags
mod Layout
pub mod Registers
pub mod Interface
pub mod Exact
pub mod Accuracy
pub use Flags.*
pub use Layout.*
use Prim.Native.Nat.{bit_or}
use quark_meteo_station.Base.{
  ℕ, ◌+◌, ◌-◌, ◌*◌, ◌/◌, ◌%◌, ◌^◌, Bool, true, false, List, [], ◌∷◌, ◌==◌, ltb, if◌then◌else◌,
  get_or,
}
use quark_meteo_station.Base.Int.{ℤ, pos}
use quark_meteo_station.Base.Word.{u32, u32_of, signed32, add32, sub32, mul32, shl32, sar32, sext16}
use quark_meteo_station.Board.{Board}
use quark_meteo_station.I2c.Interface.{RegisterBus}

abbrev pub bmp280_id : ℕ
bmp280_id = 0x58

abbrev pub addr_low : ℕ
addr_low = 0x76

abbrev pub config_size : ℕ
config_size = 2

abbrev pub cal_data_size : ℕ
cal_data_size = 24

abbrev pub meas_data_size : ℕ
meas_data_size = 6

-- `BMP280_meas_t`. The pressure is a `uint32_t` in pascals, the temperature an `int32_t` in
-- hundredths of a degree.
pub record Meas : Type 0 where
  pub pressure : ℕ
  pub temperature : ℤ

-- `BMP280_detect_t`.
pub data Detect : Type 0 where
  present absent : Detect

-- `BMP280_cal_t`: 24 bytes, read as 16-bit words of which `T1` and `P1` are unsigned. A word is its
-- bit pattern.
abbrev pub Cal : Type 0
Cal = List ℕ

abbrev pub word : Cal → CalWord → ℕ
word cal w = get_or cal (2 * place w) 0 + get_or cal (2 * place w + 1) 0 * 256

-- A signed calibration word, and an unsigned one, as 32-bit patterns.
abbrev pub signed_word : Cal → CalWord → ℕ
signed_word cal w = sext16 (word cal w)

-- `BMP280_read_measurement_regs` behind the transfer: the two 20-bit readings.
unfoldable pub merge : List ℕ → ℕ → ℕ
merge buffer i =
    bit_or (bit_or (get_or buffer i 0 * 2 ^ 12) (get_or buffer (i + 1) 0 * 2 ^ 4))
      (get_or buffer (i + 2) 0 / 2 ^ 4)

-- The temperature part of `BMP280_compute_compensation`: `t_fine`, on 32-bit patterns.
unfoldable pub t_fine_of : Cal → ℕ → ℕ
unfolding add32 sub32 mul32 shl32 sar32 sext16
t_fine_of cal raw =
    let t₁ = word cal t1 in
    let off = sub32 (sar32 raw 4) t₁ in
    let var1 = sar32 (mul32 (sub32 (sar32 raw 3) (shl32 t₁ 1)) (signed_word cal t2)) 11 in
    let var2 = sar32 (mul32 (sar32 (mul32 off off) 12) (signed_word cal t3)) 14 in add32 var1 var2

unfoldable pub temperature_of : ℕ → ℕ
unfolding add32 mul32 sar32
temperature_of t_fine = sar32 (add32 (mul32 t_fine 5) 128) 8

-- The square in the divisor of the pressure part, of the value that is 0 at 25 degrees.
unfoldable pub square_of : ℕ → ℕ
unfolding mul32 shl32 sar32
square_of v = sar32 (mul32 (shl32 v 2) (sar32 v 2)) 13

-- The divisor and the offset of the pressure part: `var1` and `var2` at the test for 0.
unfoldable pub divisor_of : Cal → ℕ → ℕ
unfolding square_of add32 sub32 mul32 sar32 sext16
divisor_of cal t_fine =
    let v = sub32 (sar32 t_fine 1) 64000 in
    let a = sar32 (mul32 (signed_word cal p3) (square_of v)) 3 in
    let b = sar32 (mul32 (signed_word cal p2) v) 1 in
    let var1 = sar32 (add32 a b) 18 in sar32 (mul32 (add32 32768 var1) (word cal p1)) 15

unfoldable pub offset_of : Cal → ℕ → ℕ
unfolding add32 sub32 mul32 shl32 sar32 sext16
offset_of cal t_fine =
    let v = sub32 (sar32 t_fine 1) 64000 in
    let quarter = sar32 v 2 in
    let a = mul32 (sar32 (mul32 quarter quarter) 11) (signed_word cal p6) in
    let b = add32 a (shl32 (mul32 v (signed_word cal p5)) 1) in
    add32 (sar32 b 2) (shl32 (signed_word cal p4) 16)

-- The division of the scaled reading, behind the test for 0: doubled before it if that fits 32
-- bits, else halved after it by the shift.
unfoldable pub divide : ℕ → ℕ → ℕ
unfolding shl32
divide p var1 = if ltb p (2 ^ 31) then shl32 p 1 / var1 else p / var1 / 2

-- The last three lines of the pressure part.
unfoldable pub refine : Cal → ℕ → ℕ
unfolding add32 mul32 sar32 sext16
refine cal p =
    let eighth = p / 2 ^ 3 in
    let var1 = sar32 (mul32 (signed_word cal p9) (mul32 eighth eighth / 2 ^ 13)) 12 in
    let var2 = sar32 (mul32 (p / 2 ^ 2) (signed_word cal p8)) 13 in
    add32 p (sar32 (add32 (add32 var1 var2) (signed_word cal p7)) 4)

unfoldable pub pressure_of : Cal → ℕ → ℕ → ℕ
unfolding divisor_of offset_of divide refine add32 sub32 mul32 sar32
pressure_of cal t_fine raw =
    let var1 = divisor_of cal t_fine in
    let scaled = mul32 (sub32 (sub32 1048576 raw) (sar32 (offset_of cal t_fine) 12)) 3125 in
    if var1 == 0 then 0 else refine cal (divide scaled var1)

-- `BMP280_compute_compensation` on the two raw readings.
unfoldable pub compute_compensation : Cal → ℕ → ℕ → Meas
unfolding t_fine_of temperature_of pressure_of
compute_compensation cal raw_pressure raw_temperature =
    let t_fine = t_fine_of cal raw_temperature in
    record {
      pressure = pressure_of cal t_fine raw_pressure;
      temperature = signed32 (temperature_of t_fine);
    }

-- The functions over any register bus; the static `cal` and the bus's state are passed along.
module _ (i2c : RegisterBus) where
  open i2c use {State, i2c_write, i2c_read, i2c_read_byte}

  -- `cal` is what the static holds before.
  unfoldable pub read_calibration_regs : Cal → State → Board → Cal × State × Board
  read_calibration_regs cal s b = i2c_read cal cal_data_size cal0_reg s b

  -- `buffer` is what the local array holds before the transfer. The two raw readings, the pressure
  -- first.
  unfoldable pub read_measurement_regs : List ℕ → State → Board → (ℕ × ℕ) × State × Board
  unfolding merge
  read_measurement_regs buffer s b =
      let (buffer', s', b') = i2c_read buffer meas_data_size press_msb_reg s b in
      ((merge buffer' 0, merge buffer' 3), s', b')

  unfoldable pub init : Config → Cal → State → Board → Cal × State × Board
  unfolding read_calibration_regs
  init config cal s b =
      let (s', b') = i2c_write (raw_data config) ctrl_meas_reg s b in
      read_calibration_regs cal s' b'

  -- `junk` is what the local of `I2C_read_byte` holds.
  unfoldable pub detect : ℕ → State → Board → Detect × State × Board
  detect junk s b =
      let (byte, s', b') = i2c_read_byte junk id_reg s b in
      ((if byte == bmp280_id then present else absent), s', b')

  unfoldable pub get_measurement : List ℕ → Cal → State → Board → Meas × State × Board
  unfolding read_measurement_regs compute_compensation
  get_measurement buffer cal s b =
      let ((pressure, temperature), s', b') = read_measurement_regs buffer s b in
      (compute_compensation cal pressure temperature, s', b')
