-- ===== src/Dht11/Reading.antt =====
-- `DHT11_get_measurement` on every outcome.
use quark_meteo_station.Base.{ℕ, ◌+◌, ◌%◌, ◌≡◌, arith, Bool, List, ◌==◌, if◌then◌else◌}
use quark_meteo_station.Board.{Board, Env}
use quark_meteo_station.Dht11.{present, absent}
use quark_meteo_station.Dht11.{
  Meas, no_sensor_error, checksum_error, validate_checksum, reset, get_measurement,
}
use quark_meteo_station.Dht11.Frame.{byte, levels, length-levels, retrieve-push, fields-push}

-- What a list of 40 levels says: the whole parts of humidity and temperature, if the fifth byte is
-- the sum of the four before it, in a byte.
abbrev pub said_by : List Bool → Meas
said_by xs =
    if (byte 0 xs + byte 1 xs + byte 2 xs + byte 3 xs) % 256 == byte 4 xs
    then record { humidity = byte 0 xs; temperature = byte 2 xs }
    else record { humidity = checksum_error; temperature = checksum_error }

-- A measurement is decided by what the sensor answers alone, not by the frame left from before: no
-- answer to the reset gives the error for a missing sensor, and otherwise the 40 levels sampled
-- behind the reset give the reading, or the error for a checksum that does not fit.
pub get_measurement-said_by :
    (env : Env) (pin raw : ℕ) (b : Board)
    → let (found, b') = reset env pin b in
      (get_measurement env pin raw b).0 ≡ elim found [
        | absent ↦ record { humidity = no_sensor_error; temperature = no_sensor_error }
        | present ↦ said_by (levels env pin 40 b')
      ]
unfolding get_measurement validate_checksum
get_measurement-said_by env pin raw b =
    let b' = (reset env pin b).1 in
    let xs = levels env pin 40 b' in
    ground
      (arith, retrieve-push env pin 40 raw b', fields-push raw xs (length-levels env pin 40 b'))
