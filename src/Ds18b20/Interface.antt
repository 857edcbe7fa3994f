-- ===== src/Ds18b20/Interface.antt =====
-- DS18B20.h: what the library of the outdoor sensor offers to main.c, and that DS18B20.c is one.
use quark_meteo_station.Base.{ℕ, ◌*◌, ◌/◌, ◌<◌, ◌∙◌, arith}
use Prim.Native.Nat.{bit_and}
use quark_meteo_station.Base.Bits.Fields.{bit_and_four_bits, bit_and_seven_bits}
use quark_meteo_station.Base.Word.{u8}
use quark_meteo_station.Board.{Board}
use quark_meteo_station.Board.Untouched.{Silent}
use quark_meteo_station.Onewire.Interface.{Bus}
use quark_meteo_station.Ds18b20
use quark_meteo_station.Ds18b20.{Meas, decode}

-- A measurement is below 128 degrees either way, its parts are bytes, and the sensor's transfers set no level and
-- send nothing to the modem.
pub record OutdoorSensor : Type 0 where
  pub request_conversion : Board → Board
  pub get_temperature : Board → Meas × Board
  pub get_temperature-lt :
      (b : Board) → ((get_temperature b).0.integer < 256) × ((get_temperature b).0.fraction < 256)
  pub get_temperature-small :
      (b : Board) → ((get_temperature b).0.integer < 128) × ((get_temperature b).0.fraction < 100)
  pub request_conversion-Silent : (b : Board) → Silent b (request_conversion b)
  pub get_temperature-Silent : (b : Board) → Silent b (get_temperature b).1

decode-lt : (lsb msb : ℕ) → ((decode lsb msb).integer < 256) × ((decode lsb msb).fraction < 256)
unfolding decode
decode-lt lsb msb = (omega arith, omega arith)

integer-lt : (x : ℕ) → u8 (bit_and x 0x7F) < 128
integer-lt x = omega (arith, bit_and_seven_bits x)

fraction-lt : (x : ℕ) → u8 (bit_and x 0x0F * 625 / 100) < 100
fraction-lt x = omega (arith, bit_and_four_bits x)

decode-small : (lsb msb : ℕ) → ((decode lsb msb).integer < 128) × ((decode lsb msb).fraction < 100)
unfolding decode
decode-small lsb msb = (integer-lt _, fraction-lt _)

module _ (bus : Bus) where
  open bus use {onewire_reset, onewire_write_byte, onewire_read_byte}

  -- A reset and two bytes.
  commands-Silent :
      (x y : ℕ) (b : Board)
      → Silent b (onewire_write_byte y (onewire_write_byte x (onewire_reset b).1))
  commands-Silent x y b = bus.write_byte-Silent y _ ∙ bus.write_byte-Silent x _ ∙ bus.reset-Silent b

  pub get_temperature-lt :
      (b : Board)
      → ((Ds18b20.get_temperature bus b).0.integer < 256)
        × ((Ds18b20.get_temperature bus b).0.fraction < 256)
  unfolding Ds18b20.get_temperature
  get_temperature-lt b = decode-lt _ _

  pub get_temperature-small :
      (b : Board)
      → ((Ds18b20.get_temperature bus b).0.integer < 128)
        × ((Ds18b20.get_temperature bus b).0.fraction < 100)
  unfolding Ds18b20.get_temperature
  get_temperature-small b = decode-small _ _

  pub request_conversion-Silent : (b : Board) → Silent b (Ds18b20.request_conversion bus b)
  unfolding Ds18b20.request_conversion
  request_conversion-Silent b = commands-Silent Ds18b20.skip_rom Ds18b20.convert_t b

  pub get_temperature-Silent : (b : Board) → Silent b (Ds18b20.get_temperature bus b).1
  unfolding Ds18b20.get_temperature
  get_temperature-Silent b =
      bus.read_byte-Silent _
      ∙ bus.read_byte-Silent _
      ∙ commands-Silent Ds18b20.skip_rom Ds18b20.read_scratchpad b

  -- DS18B20.c.
  abbrev pub outdoor_sensor : OutdoorSensor
  outdoor_sensor = record {
    request_conversion = Ds18b20.request_conversion bus;
    get_temperature = Ds18b20.get_temperature bus;
    get_temperature-lt = get_temperature-lt;
    get_temperature-small = get_temperature-small;
    request_conversion-Silent = request_conversion-Silent;
    get_temperature-Silent = get_temperature-Silent;
  }
