-- ===== src/Bmp280/Layout.antt =====
-- BMP280.h, BMP280.c: the registers of the sensor by name, and the words of the calibration.
use quark_meteo_station.Base.{ℕ, zero, suc, ◌+◌, List, [], ◌∷◌}

abbrev pub cal0_reg : ℕ
cal0_reg = 0x88

-- `BMP280_CAL0_REG` to `BMP280_CAL23_REG`.
abbrev pub cal_regs : List ℕ
cal_regs =
    cal0_reg ∷ 0x89 ∷ 0x8A ∷ 0x8B ∷ 0x8C ∷ 0x8D ∷ 0x8E ∷ 0x8F ∷ 0x90 ∷ 0x91 ∷ 0x92 ∷ 0x93 ∷ 0x94
    ∷ 0x95 ∷ 0x96 ∷ 0x97 ∷ 0x98 ∷ 0x99 ∷ 0x9A ∷ 0x9B ∷ 0x9C ∷ 0x9D ∷ 0x9E ∷ 0x9F ∷ []

abbrev pub id_reg : ℕ
id_reg = 0xD0

abbrev pub ctrl_meas_reg : ℕ
ctrl_meas_reg = 0xF4

abbrev pub config_reg : ℕ
config_reg = 0xF5

abbrev pub press_msb_reg : ℕ
press_msb_reg = 0xF7

-- `BMP280_PRESS_MSB_REG` to `BMP280_TEMP_XLSB_REG`.
abbrev pub meas_regs : List ℕ
meas_regs = press_msb_reg ∷ 0xF8 ∷ 0xF9 ∷ 0xFA ∷ 0xFB ∷ 0xFC ∷ []

-- The registers that an access of so many bytes goes to.
abbrev pub block : ℕ → ℕ → List ℕ
block zero reg_addr = []
block (suc size) reg_addr = reg_addr ∷ block size (reg_addr + 1)

-- The fields of `BMP280_cal_t`, and the place of each.
pub data CalWord : Type 0 where
  t1 t2 t3 p1 p2 p3 p4 p5 p6 p7 p8 p9 : CalWord

abbrev pub place : CalWord → ℕ
place t1 = 0
place t2 = 1
place t3 = 2
place p1 = 3
place p2 = 4
place p3 = 5
place p4 = 6
place p5 = 7
place p6 = 8
place p7 = 9
place p8 = 10
place p9 = 11
