-- ===== src/Bmp280/Interface.antt =====
-- BMP280.h: what the library of the indoor sensor offers to main.c, and that BMP280.c is one.
use quark_meteo_station.Base.{ℕ, ◌^◌, ◌≤◌, ◌<◌, ◌∙◌, arith, List, ◌==◌, Bool-cases, inl, inr}
use quark_meteo_station.Base.Int.{pos_part, neg_part}
use quark_meteo_station.Base.Word.{signed32, add32}
use quark_meteo_station.Board.{Board}
use quark_meteo_station.Board.Untouched.{Silent}
use quark_meteo_station.I2c.Interface.{RegisterBus}
use quark_meteo_station.Bmp280
use quark_meteo_station.Bmp280.{
  Config, Detect, Meas, Cal, pressure_of, compute_compensation, refine, divisor_of, temperature_of,
  t_fine_of, merge, meas_data_size, press_msb_reg,
}

-- On the state of a bus and the state that the library keeps itself. The numbers of a measurement are
-- of 32 bits, and the transfers set no level and send nothing to the modem.
pub record IndoorSensor (Bus State : Type 0) : Type 0 where
  pub bmp280_init : Config → State → Bus → Board → State × Bus × Board
  pub bmp280_detect : ℕ → Bus → Board → Detect × Bus × Board
  pub get_measurement : List ℕ → State → Bus → Board → Meas × Bus × Board
  pub get_measurement-lt :
      (buffer : List ℕ) (s : State) (bus : Bus) (b : Board)
      → let m = (get_measurement buffer s bus b).0 in
        (m.pressure < 2 ^ 32)
        × (pos_part m.temperature < 2 ^ 31)
        × (neg_part m.temperature ≤ 2 ^ 31)
  pub init-Silent :
      (c : Config) (s : State) (bus : Bus) (b : Board) → Silent b (bmp280_init c s bus b).2
  pub get_measurement-Silent :
      (buffer : List ℕ) (s : State) (bus : Bus) (b : Board)
      → Silent b (get_measurement buffer s bus b).2

add32-lt : (a b : ℕ) → add32 a b < 2 ^ 32
unfolding add32
add32-lt a b = omega arith

refine-lt : (cal : Cal) (p : ℕ) → refine cal p < 2 ^ 32
unfolding refine
refine-lt cal p = add32-lt p _

pressure_of-lt : (cal : Cal) (t_fine raw : ℕ) → pressure_of cal t_fine raw < 2 ^ 32
unfolding pressure_of
pressure_of-lt cal t_fine raw = elim (Bool-cases (divisor_of cal t_fine == 0)) [
  | inl e ↦ rw e (omega arith)
  | inr e ↦ rw e (refine-lt cal _)
]

-- What an `int32_t` can hold.
signed32-lt : (w : ℕ) → (pos_part (signed32 w) < 2 ^ 31) × (neg_part (signed32 w) ≤ 2 ^ 31)
signed32-lt w = ground arith

compute_compensation-lt :
    (cal : Cal) (raw_pressure raw_temperature : ℕ)
    → let m = compute_compensation cal raw_pressure raw_temperature in
      (m.pressure < 2 ^ 32) × (pos_part m.temperature < 2 ^ 31) × (neg_part m.temperature ≤ 2 ^ 31)
unfolding compute_compensation
compute_compensation-lt cal raw_pressure raw_temperature =
    let t = signed32-lt (temperature_of (t_fine_of cal raw_temperature)) in
    (pressure_of-lt cal _ raw_pressure, t.0, t.1)

module _ (i2c : RegisterBus) where
  pub get_measurement-lt :
      (buffer : List ℕ) (cal : Cal) (s : i2c.State) (b : Board)
      → let m = (Bmp280.get_measurement i2c buffer cal s b).0 in
        (m.pressure < 2 ^ 32)
        × (pos_part m.temperature < 2 ^ 31)
        × (neg_part m.temperature ≤ 2 ^ 31)
  unfolding Bmp280.get_measurement
  get_measurement-lt buffer cal s b = compute_compensation-lt cal _ _

  pub init-Silent :
      (c : Config) (cal : Cal) (s : i2c.State) (b : Board) → Silent b (Bmp280.init i2c c cal s b).2
  unfolding Bmp280.init
  init-Silent c cal s b = i2c.read-Silent _ _ _ _ _ ∙ i2c.write-Silent _ _ s b

  pub get_measurement-Silent :
      (buffer : List ℕ) (cal : Cal) (s : i2c.State) (b : Board)
      → Silent b (Bmp280.get_measurement i2c buffer cal s b).2
  unfolding Bmp280.get_measurement
  get_measurement-Silent buffer cal s b = i2c.read-Silent _ _ _ s b

  -- BMP280.c.
  abbrev pub indoor_sensor : IndoorSensor i2c.State Cal
  indoor_sensor = record {
    bmp280_init = Bmp280.init i2c;
    bmp280_detect = Bmp280.detect i2c;
    get_measurement = Bmp280.get_measurement i2c;
    get_measurement-lt = get_measurement-lt;
    init-Silent = init-Silent;
    get_measurement-Silent = get_measurement-Silent;
  }
