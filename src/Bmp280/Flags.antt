-- ===== src/Bmp280/Flags.antt =====
-- BMP280.h: the flags of the two configuration registers, and the configuration.
use quark_meteo_station.Base.{ℕ, List, [], ◌∷◌}

-- `BMP280_control_flags_t`.
pub data ControlFlag : Type 0 where
  mode_forced mode_normal : ControlFlag
  pres_oversampling_x1 pres_oversampling_x2 pres_oversampling_x4 : ControlFlag
  pres_oversampling_x8 pres_oversampling_x16 : ControlFlag
  temp_oversampling_x1 temp_oversampling_x2 temp_oversampling_x4 : ControlFlag
  temp_oversampling_x8 temp_oversampling_x16 : ControlFlag

abbrev pub control_bits : ControlFlag → ℕ
control_bits mode_forced = 0x01
control_bits mode_normal = 0x03
control_bits pres_oversampling_x1 = 0x04
control_bits pres_oversampling_x2 = 0x08
control_bits pres_oversampling_x4 = 0x0C
control_bits pres_oversampling_x8 = 0x10
control_bits pres_oversampling_x16 = 0x14
control_bits temp_oversampling_x1 = 0x20
control_bits temp_oversampling_x2 = 0x40
control_bits temp_oversampling_x4 = 0x60
control_bits temp_oversampling_x8 = 0x80
control_bits temp_oversampling_x16 = 0xA0

-- `BMP280_config_flags_t`.
pub data ConfigFlag : Type 0 where
  spi_3_wire_enable : ConfigFlag
  filter_coeff_2 filter_coeff_4 filter_coeff_8 filter_coeff_16 : ConfigFlag
  stby_time_half_ms stby_time_62ms stby_time_125ms stby_time_250ms : ConfigFlag
  stby_time_500ms stby_time_1s stby_time_2s stby_time_4s : ConfigFlag

abbrev pub config_bits : ConfigFlag → ℕ
config_bits spi_3_wire_enable = 0x01
config_bits filter_coeff_2 = 0x04
config_bits filter_coeff_4 = 0x08
config_bits filter_coeff_8 = 0x0C
config_bits filter_coeff_16 = 0x10
config_bits stby_time_half_ms = 0x00
config_bits stby_time_62ms = 0x20
config_bits stby_time_125ms = 0x40
config_bits stby_time_250ms = 0x60
config_bits stby_time_500ms = 0x80
config_bits stby_time_1s = 0xA0
config_bits stby_time_2s = 0xC0
config_bits stby_time_4s = 0xE0

-- `BMP280_config_t`.
pub record Config : Type 0 where
  pub control_flags : ℕ
  pub config_flags : ℕ

-- The bytes `raw_data` that the union lays over the two flags.
abbrev pub raw_data : Config → List ℕ
raw_data c = c.control_flags ∷ c.config_flags ∷ []
