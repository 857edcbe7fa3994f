-- ===== src/Bmp280/Registers.antt =====
-- The readings of the sensor's registers, and the division of the pressure part.
use Prim.Native.Nat.{bit_or}
use native.Mathlib.Nat.{
  div-mul-le_self, lt-div-mul-add, le-div_iff_mul-le, div-lt_iff_lt-mul, mul-le-mul, mul_assoc,
}
use quark_meteo_station.Base.{
  ◌≤◌, ℕ, ◌+◌, ◌-◌, ap, ◌∙◌, ◌*◌, ◌/◌, ◌^◌, ◌<◌, ◌≡◌, refl, arith, [], ◌∷◌, ltb, if◌then◌else◌,
}
use quark_meteo_station.Base.Bits.Fields.{bit_or_fields}
use quark_meteo_station.Base.Int.{pos, negsuc}
use quark_meteo_station.Base.Word.{signed32, mul32, shl32, sar32}
use quark_meteo_station.Bmp280.{
  merge, divide, cal_data_size, cal_regs, cal0_reg, meas_data_size, meas_regs, press_msb_reg, block,
  config_size, ctrl_meas_reg, config_reg, square_of,
}

-- Three bytes of a reading make a number of 20 bits: the first the high byte, the upper half of the
-- third the low four bits.
pub merge_lem :
    (b₀ b₁ b₂ b₃ b₄ b₅ : ℕ)
    → b₀ < 256
    → b₁ < 256
    → b₂ < 256
    → let r = merge (b₀ ∷ b₁ ∷ b₂ ∷ b₃ ∷ b₄ ∷ b₅ ∷ []) 0 in
      (r ≡ b₀ * 4096 + b₁ * 16 + b₂ / 16) × (r < 2 ^ 20)
unfolding merge
merge_lem b₀ b₁ b₂ b₃ b₄ b₅ h₀ h₁ h₂ =
    let e₁ : bit_or (b₀ * 2 ^ 12) (b₁ * 2 ^ 4) ≡ (b₀ * 256 + b₁) * 2 ^ 4 =
      omega (arith, bit_or_fields 12 b₀ (b₁ * 2 ^ 4) (omega arith)) in
    let e₂ = bit_or_fields 4 (b₀ * 256 + b₁) (b₂ / 16) (omega arith) in
    rw (e₁, e₂) (omega arith, omega arith)

quarter : (p v : ℕ) → 0 < v → p / v / 2 ≡ 2 * p / v / 4
quarter p v h =
    let q = p / v in
    let below : 2 * q * v ≤ 2 * p = omega (arith, div-mul-le_self p v) in
    let above : 2 * p < (2 * q + 2) * v = omega (arith, lt-div-mul-add {a = p} {b = v} h) in
    let low : 2 * q ≤ 2 * p / v = (le-div_iff_mul-le h).1 below in
    let high : 2 * p / v < 2 * q + 2 = (div-lt_iff_lt-mul h).1 above in omega arith

-- A scaled reading is doubled and divided, where it is below 2^31. From 2^31 on the result is a
-- quarter of that.
pub divide_lem :
    (p v : ℕ)
    → p < 2 ^ 32
    → 0 < v
    → divide p v ≡ (if ltb p (2 ^ 31) then 2 * p / v else 2 * p / v / 4)
unfolding divide
divide_lem p v h₁ h₂ = ground (arith, quarter p v h₂)

-- The three block accesses go to exactly the registers that they are for: the read of the calibration
-- to the 24 calibration registers, the read of a measurement to the six registers of the pressure and
-- the temperature, the write of the configuration to the two registers of its flags.
block_regs :
    (block cal_data_size cal0_reg ≡ cal_regs)
    × (block meas_data_size press_msb_reg ≡ meas_regs)
    × (block config_size ctrl_meas_reg ≡ ctrl_meas_reg ∷ config_reg ∷ [])
block_regs = (refl, refl, refl)

square-lt : (w : ℕ) → w < 2 ^ 14 → w * w < 2 ^ 28
square-lt w h = omega (
  arith,
  mul-le-mul {n₁ = w} {m₁ = w} {n₂ = 2 ^ 14 - 1} {m₂ = 2 ^ 14 - 1} (omega arith) (omega arith),
)

-- A shift of a pattern, as a signed value.
signed32-sar32 :
    (s : ℕ)
    → s < 2 ^ 32
    → signed32 (sar32 s 13)
      ≡ (if ltb s (2 ^ 31) then pos (s / 2 ^ 13) else negsuc ((2 ^ 32 - 1 - s) / 2 ^ 13))
unfolding sar32
signed32-sar32 s h = ground arith

-- The square of the pressure part, at four times a number of 14 bits: a 2^13th of sixteen times the
-- square of the number where that is below 2^31. From there on it is negative, a product that left the 32 bits.
pub square_of_lem :
    (w : ℕ)
    → w < 2 ^ 14
    → let s = 16 * (w * w) in
      signed32 (square_of (4 * w))
      ≡ (if ltb s (2 ^ 31) then pos (s / 2 ^ 13) else negsuc ((2 ^ 32 - 1 - s) / 2 ^ 13))
unfolding square_of
square_of_lem w h =
    let small = square-lt w h in
    let e₁ : shl32 (4 * w) 2 ≡ 16 * w = unfold shl32 in omega arith in
    let e₂ : sar32 (4 * w) 2 ≡ w = unfold sar32 in ground arith in
    let e₃ : mul32 (16 * w) w ≡ 16 * (w * w) = unfold mul32 in omega (arith, mul_assoc 16 w w) in
    ap (λ x. signed32 (sar32 x 13))
      (ap (λ x. mul32 x (sar32 (4 * w) 2)) e₁ ∙ ap (mul32 (16 * w)) e₂ ∙ e₃)
    ∙ signed32-sar32 (16 * (w * w)) (omega arith)
