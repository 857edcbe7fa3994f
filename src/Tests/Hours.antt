-- ===== src/Tests/Hours.antt =====
-- The whole run of the station at a concrete environment.
use quark_meteo_station.Base.{false, ◌≡◌, refl, arith, some, ◌==◌, if◌then◌else◌}
use quark_meteo_station.Board.{Env}
use quark_meteo_station.Station.{Machine, loop_body, get_measurement}
use quark_meteo_station.Station.Period.{state_at, Ran}
use quark_meteo_station.Station.Boot.{boot}
use quark_meteo_station.Station.Firmware.{firmware}
use quark_meteo_station.Board.Untouched.{sent}
use quark_meteo_station.Station.Transmissions.{Transmissions}
use quark_meteo_station.Station.Mild.{IsMildClimate}
use quark_meteo_station.Station.Endless.{reports, boot-Goes}
use quark_meteo_station.Base.{length}
use quark_meteo_station.Tests.Display.{nothing_shown}
use quark_meteo_station.Tests.{
  low_env, fresh_buffers, fresh_devices, example_words, example_readings,
}
use quark_meteo_station.Hd44780.Memory.{Memory}

-- A sensor that sends the calibration words and the readings of its data sheet's example.
abbrev mild_env : Env
mild_env = record low_env { i2c_data = λ l n. if n == 24 then example_words else example_readings }

mild_climate :
    IsMildClimate
      (firmware mild_env fresh_buffers)
      (boot mild_env fresh_buffers fresh_devices).0.devices.cal
unfolding boot quark_meteo_station.Bmp280.init quark_meteo_station.Bmp280.get_measurement
    quark_meteo_station.I2c.read quark_meteo_station.I2c.write quark_meteo_station.I2c.init
    quark_meteo_station.Bmp280.compute_compensation quark_meteo_station.Bmp280.merge
mild_climate i2c b = (refl, omega arith, omega arith)

boot-Goes_example :
    (m m' : Machine) × (loop_body
        (firmware mild_env fresh_buffers)
        (boot mild_env fresh_buffers fresh_devices).0
      ≡ some m)
    × (ran : Ran (firmware mild_env fresh_buffers) 10000 m m') × (m'.control
        ≡ state_at get_measurement 2800)
    × Transmissions
        (sent (boot mild_env fresh_buffers fresh_devices).0.devices.board.log)
        (reports (firmware mild_env fresh_buffers) ran)
        false
        (sent m'.devices.board.log)
    × (length (reports (firmware mild_env fresh_buffers) ran) ≡ 2)
boot-Goes_example =
    boot-Goes mild_env fresh_buffers fresh_devices nothing_shown (omega arith, omega arith)
      (omega arith, omega arith) (omega arith) 10000 mild_climate
