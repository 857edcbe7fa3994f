-- ===== src/Dht11/Interface.antt =====
-- DHT11.h: what the library of the humidity sensor offers to main.c, and that DHT11.c is one.
use quark_meteo_station.Base.{ℕ, zero, suc, ◌<◌, refl, ◌∙◌, arith}
use quark_meteo_station.Board.{Board, Env, read_pin, udelay}
use quark_meteo_station.Board.Untouched.{Silent, outputs}
use quark_meteo_station.Dht11.{
  Config, Meas, init, reset, wait_low, sample_bit, retrieve, get_measurement, fields,
}

-- `State` is what the library keeps between two measurements. The parts of a measurement are bytes,
-- and the sensor's transfers set no level and send nothing to the modem.
pub record HumiditySensor (State : Type 0) : Type 0 where
  pub dht11_init : Config → Board → Board
  pub get_measurement : State → Board → Meas × State × Board
  pub get_measurement-lt :
      (s : State) (b : Board)
      → ((get_measurement s b).0.humidity < 256) × ((get_measurement s b).0.temperature < 256)
  pub init-Silent : (config : Config) (b : Board) → Silent b (dht11_init config b)
  pub get_measurement-Silent : (s : State) (b : Board) → Silent b (get_measurement s b).2

pub init-Silent : (config : Config) (b : Board) → Silent b (init config.dht11_pin b)
unfolding init outputs
init-Silent config b = refl

module _ (env : Env) (pin : ℕ) where
  reset-Silent : (b : Board) → Silent b (reset env pin b).1
  unfolding reset outputs
  reset-Silent b = refl

  wait_low-Silent : (timeout : ℕ) (b : Board) → Silent b (wait_low env pin timeout b)
  unfolding wait_low outputs
  wait_low-Silent zero b = refl
  wait_low-Silent (suc timeout) b = ground (arith, wait_low-Silent timeout (read_pin env pin b).1)

  sample_bit-Silent : (b : Board) → Silent b (sample_bit env pin b).1
  unfolding sample_bit outputs
  sample_bit-Silent b = ground (arith, wait_low-Silent 1000 (read_pin env pin (udelay 74 b)).1)

  retrieve-Silent : (left raw : ℕ) (b : Board) → Silent b (retrieve env pin left raw b).1
  unfolding retrieve
  retrieve-Silent zero raw b = refl
  retrieve-Silent (suc left) raw b =
      retrieve-Silent left _ (sample_bit env pin b).1 ∙ sample_bit-Silent b

  pub get_measurement-Silent : (raw : ℕ) (b : Board) → Silent b (get_measurement env pin raw b).2
  unfolding get_measurement
  get_measurement-Silent raw b =
      ground (arith, reset-Silent b, retrieve-Silent 40 raw (reset env pin b).1)

  pub get_measurement-lt :
      (raw : ℕ) (b : Board)
      → ((get_measurement env pin raw b).0.humidity < 256)
        × ((get_measurement env pin raw b).0.temperature < 256)
  unfolding get_measurement fields
  get_measurement-lt raw b = ground arith

  -- DHT11.c.
  abbrev pub humidity_sensor : HumiditySensor ℕ
  humidity_sensor = record {
    dht11_init = λ config. init config.dht11_pin;
    get_measurement = get_measurement env pin;
    get_measurement-lt = get_measurement-lt;
    init-Silent = init-Silent;
    get_measurement-Silent = get_measurement-Silent;
  }
