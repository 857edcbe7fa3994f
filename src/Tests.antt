-- ===== src/Tests.antt =====
-- The theorems at concrete inputs: the fixtures here, the tests in the modules below.
pub mod Control
pub mod Display
pub mod Hours
pub mod Buses
pub mod Modem
pub mod Averages
use quark_meteo_station.Base.{
  ℕ, refl, Bool, true, false, List, [], ◌∷◌, replicate, Option, some, none, ◌/◌, ◌%◌, ◌^◌, ◌-◌,
  ◌==◌, ltb, if◌then◌else◌,
}
use quark_meteo_station.Base.Int.{ℤ, pos, negsuc}
use quark_meteo_station.Base.Bits.{bit}
use quark_meteo_station.Board.{Board, Env, Call}
use quark_meteo_station.Onewire.Read.{samples}
use quark_meteo_station.I2c
use quark_meteo_station.Bmp280
use quark_meteo_station.Ds18b20
use quark_meteo_station.Ds18b20.{positive, negative}
use quark_meteo_station.Dht11
use quark_meteo_station.Average
use quark_meteo_station.Station.{Measurements, Devices, Machine, initial_control}
use quark_meteo_station.Station.Firmware.{Buffers}
use quark_meteo_station.Station.Boot.{average_pointers}
use quark_meteo_station.Station.Progress.{gui_pointers}

-- Every line is low, every transfer is all right and brings zeros.
abbrev pub low_env : Env
low_env = record {
  pin_level = λ l pin. false;
  i2c_config_result = λ l. 0;
  i2c_write_result = λ l. 0;
  i2c_read_result = λ l. 0;
  i2c_data = λ l n. replicate n 0;
}

-- A 1-Wire device that answers the bits of this number from the second sample on.
abbrev pub answering_env : ℕ → Env
answering_env v = record low_env { pin_level = λ l pin. bit (samples pin l - 1) v == 1 }

abbrev pub fresh_board : Board
fresh_board = record { direction = 0; log = [] }

abbrev pub fresh_buffers : Buffers
fresh_buffers = record {
  number = replicate 11 0;
  registers = replicate 6 0;
  utoa = replicate 8 0;
  number-size = refl;
  utoa-size = refl;
}

abbrev pub indoor : Bmp280.Meas
indoor = record { pressure = 101325; temperature = pos 2150 }

abbrev pub outdoor : Ds18b20.Meas
outdoor = record { sign = negative; integer = 5; fraction = 25 }

abbrev pub humid : Dht11.Meas
humid = record { humidity = 45; temperature = 21 }

abbrev pub measurements : Measurements
measurements = record {
  outdoor = outdoor;
  outdoor_avg = outdoor;
  indoor = indoor;
  indoor_avg = indoor;
  humid = humid;
  humid_avg = humid;
}

abbrev pub fresh_devices : Devices
fresh_devices = record {
  board = fresh_board;
  i2c = I2c.initial;
  cal = replicate 24 0;
  data_frame = 0;
  meas = measurements;
  averages = record { pointers = average_pointers; sums = Average.reset };
  gui = gui_pointers;
  esp = record {
    bmp280_meas = λ m. m.indoor_avg;
    ds18b20_meas = λ m. m.outdoor_avg;
    dht11_meas = λ m. m.humid_avg;
  };
}

abbrev pub fresh : Machine
fresh = record { control = initial_control; devices = fresh_devices }

-- The calibration words and the readings of the example in the data sheet of the indoor sensor.
abbrev pub example_words : List ℕ
example_words =
    112 ∷ 107 ∷ 67 ∷ 103 ∷ 24 ∷ 252 ∷ 125 ∷ 142 ∷ 67 ∷ 214 ∷ 208 ∷ 11 ∷ 39 ∷ 11 ∷ 140 ∷ 0 ∷ 249
    ∷ 255 ∷ 140 ∷ 60 ∷ 248 ∷ 198 ∷ 112 ∷ 23 ∷ []

abbrev pub example_readings : List ℕ
example_readings = 101 ∷ 90 ∷ 192 ∷ 126 ∷ 237 ∷ 0 ∷ []
