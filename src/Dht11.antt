-- ===== src/Dht11.antt =====
-- DHT11.c: the indoor humidity sensor on its one-wire line. The shared `gpio_config` is
-- `Board.direction`; `pin` is `DHT11_config->DHT11_pin`; the static `data_frame` is passed along as
-- the 64-bit number `raw`.
pub mod Frame
pub mod Reading
pub mod Bounded
pub mod Interface
use Prim.Native.Nat.{bit_or}
use quark_meteo_station.Base.{
  ℕ, zero, suc, ◌+◌, ◌*◌, ◌/◌, ◌%◌, ◌^◌, Bool, true, false, ◌==◌, if◌then◌else◌,
}
use quark_meteo_station.Base.Word.{u8}
use quark_meteo_station.Board.{
  Board, Env, call, udelay, read_pin, ◌▷◌, gpio_set_config, gpio_clear_pin,
}
use quark_meteo_station.Base.Bits.Masks.{set_bit, clear_bit}

-- `DHT11_config_t`; the pointer `gpio_config` leads to `Board.direction`.
pub record Config : Type 0 where
  pub dht11_pin : ℕ

-- `DHT11_error_t`: in place of both values of a measurement.
abbrev pub no_sensor_error : ℕ
no_sensor_error = 0xFD

abbrev pub checksum_error : ℕ
checksum_error = 0xFE

abbrev pub frame_length : ℕ
frame_length = 40

abbrev pub synchro_loop_timeout : ℕ
synchro_loop_timeout = 1000

-- `DHT11_detect_t`.
pub data Detect : Type 0 where
  present absent : Detect

-- `DHT11_pin_dir_t`.
pub data PinDir : Type 0 where
  output input : PinDir

-- `DHT11_checksum_t`.
pub data Checksum : Type 0 where
  invalid valid : Checksum

-- `DHT11_meas_t`.
pub record Meas : Type 0 where
  pub humidity : ℕ
  pub temperature : ℕ

-- The fields that `DHT11_data_frame_t` lays over `raw_data`, on a little-endian machine.
pub record Fields : Type 0 where
  pub checksum : ℕ
  pub temperature_fraction : ℕ
  pub temperature_integer : ℕ
  pub humidity_fraction : ℕ
  pub humidity_integer : ℕ

unfoldable pub fields : ℕ → Fields
fields raw = record {
  checksum = raw % 2 ^ 8;
  temperature_fraction = raw / 2 ^ 8 % 2 ^ 8;
  temperature_integer = raw / 2 ^ 16 % 2 ^ 8;
  humidity_fraction = raw / 2 ^ 24 % 2 ^ 8;
  humidity_integer = raw / 2 ^ 32 % 2 ^ 8;
}

-- The direction word with the pin's bit set for an output, cleared for an input.
unfoldable pub turned : ℕ → PinDir → ℕ → ℕ
unfolding set_bit clear_bit
turned pin output direction = set_bit direction pin
turned pin input direction = clear_bit direction pin

unfoldable pub pin_set_direction : ℕ → PinDir → Board → Board
unfolding call
pin_set_direction pin dir b =
    let word = turned pin dir b.direction in
    record b { direction = word } ▷ call (gpio_set_config word)

unfoldable pub init : ℕ → Board → Board
unfolding pin_set_direction call
init pin b = b ▷ pin_set_direction pin input ▷ call (gpio_clear_pin pin)

unfoldable pub validate_checksum : ℕ → Checksum
unfolding fields
validate_checksum raw =
    let f = fields raw in
    let sum =
      f.humidity_integer + f.humidity_fraction + f.temperature_integer + f.temperature_fraction in
    if sum % 2 ^ 8 == f.checksum then valid else invalid

module _ (env : Env) (pin : ℕ) where
  unfoldable pub reset : Board → Detect × Board
  unfolding pin_set_direction udelay read_pin
  reset b =
      let driven = b ▷ pin_set_direction pin output ▷ udelay 20000 in
      let released = driven ▷ pin_set_direction pin input ▷ udelay 40 in
      let (response, b') = read_pin env pin released in
      ((if response then absent else present), udelay 145 b')

  -- The synchronising loop, entered with the line high, with so much of the timeout left.
  unfoldable pub wait_low : ℕ → Board → Board
  unfolding read_pin
  wait_low zero b = b
  wait_low (suc timeout) b =
      let (response, b') = read_pin env pin b in
      elim response [ true ↦ wait_low timeout b' | false ↦ b' ]

  -- The bus part of one round: the level sampled after 74 us, and the wait behind a 1.
  unfoldable pub sample_bit : Board → Bool × Board
  unfolding udelay read_pin
  sample_bit b =
      let (response, b') = read_pin env pin (udelay 74 b) in
      (response, if response then wait_low synchro_loop_timeout b' else b')

  -- The loop, with so many rounds left.
  unfoldable pub retrieve : ℕ → ℕ → Board → ℕ × Board
  retrieve zero raw b = (raw, b)
  retrieve (suc left) raw b =
      let (response, b') = sample_bit b in
      let shifted = raw * 2 % 2 ^ 64 in
      retrieve left (if response then bit_or shifted 1 else shifted) b'

  unfoldable pub read_data_frame : ℕ → Board → Detect × ℕ × Board
  read_data_frame raw b =
      let (found, b') = reset b in
      elim found [
        | absent ↦ (absent, raw, b')
        | present ↦ let (raw', b'') = retrieve frame_length raw b' in (present, raw', b'')
      ]

  unfoldable pub get_measurement : ℕ → Board → Meas × ℕ × Board
  unfolding read_data_frame
  get_measurement raw b =
      let (found, raw', b') = read_data_frame raw b in
      elim found [
        | absent ↦ (record { humidity = no_sensor_error; temperature = no_sensor_error }, raw', b')
        | present ↦ elim (validate_checksum raw') [
          | invalid ↦ (record { humidity = checksum_error; temperature = checksum_error }, raw', b')
          | valid ↦ (
            record {
              humidity = (fields raw').humidity_integer;
              temperature = (fields raw').temperature_integer;
            },
            raw',
            b',
          )
        ]
      ]
