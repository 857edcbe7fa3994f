-- ===== src/Station/Interrupts.antt =====
-- The timer's interrupt between the parts of a round of main.c's loop: the round in steps.
pub mod Limits
pub mod Measuring
pub mod Safe
pub mod Whole
pub mod Lost
use mathlib.Core.Option
use quark_meteo_station.Base.{
  ℕ, zero, suc, ◌+◌, ◌≤◌, ◌<◌, ◌≡◌, ◌≢◌, ◌⊎◌, inl, inr, refl, arith, Option, some, none, outcome,
}
use quark_meteo_station.Average.{Averages}
use quark_meteo_station.Average.Counts.{Counts}
use quark_meteo_station.Station.{
  ReadoutState, request_conversion, get_measurement, TransmissionState, idle, connect_to_server,
  await_for_connection, send_data, GuiState, up_to_date, update_request, Measurements, Control,
  Devices, Machine, Parts, initial_control, timer_callback, readout, measure_bmp280, measure_dht11,
  transmit, update_gui, ◌>>=◌,
}
use quark_meteo_station.Station.Cycle.{IsSound, after, transmit-after}
use quark_meteo_station.Station.Counts.{
  IsWithin, readout-count, measure_bmp280-count, measure_dht11-count, transmit-kept,
  update_gui-averages,
}
use quark_meteo_station.Station.Safety.{limit_in}

-- Where the program is: at the test of the request, behind it, before the average of a sensor, before
-- the next sensor, before the switch on the state of the transmission, in a case of it, behind its calls
-- of the modem, behind the clearing of the averages and before what the case writes, before the display, before the request is cleared.
pub data Stage : Type 0 where
  polling requested averaging_ds18b20 measuring_bmp280 averaging_bmp280 : Stage
  measuring_dht11 averaging_dht11 switching : Stage
  switched : TransmissionState → Stage
  clearing leaving : TransmissionState → TransmissionState → ℕ → Stage
  drawing finishing : Stage

-- What a case of the switch writes: the case of the idle state writes nothing.
abbrev pub written : TransmissionState → TransmissionState → ℕ → Control → Control
written idle esp n c = c
written connect_to_server esp n c = record c { esp_state = esp }
written await_for_connection esp n c = record c { esp_state = esp; await_counter = n }
written send_data esp n c = record c { esp_state = esp }

module _ (parts : Parts) where
  open parts use {outdoor, humid, indoor, registers, averaging, modem}

  -- What each sensor stores, and its average.
  abbrev pub store_ds18b20 : ReadoutState → Devices → Devices
  store_ds18b20 request_conversion d = record d { board = outdoor.request_conversion d.board }
  store_ds18b20 get_measurement d =
      let (meas, board) = outdoor.get_temperature d.board in
      record d { board = board; meas = record (d.meas) { outdoor = meas } }

  abbrev pub average_ds18b20 : ReadoutState → Devices → Option (ReadoutState × Devices)
  average_ds18b20 request_conversion d = some (get_measurement, d)
  average_ds18b20 get_measurement d =
      averaging.average_update_ds18b20 d.meas d.averages >>= λ (memory, statics).
      some (request_conversion, record d { meas = memory; averages = statics })

  abbrev pub store_bmp280 : Devices → Devices
  store_bmp280 d =
      let (meas, i2c, board) = indoor.get_measurement registers d.cal d.i2c d.board in
      record d { board = board; i2c = i2c; meas = record (d.meas) { indoor = meas } }

  abbrev pub average_bmp280 : Devices → Option Devices
  average_bmp280 d = averaging.average_update_bmp280 d.meas d.averages >>= λ (memory, statics).
      some (record d { meas = memory; averages = statics })

  abbrev pub store_dht11 : Devices → Devices
  store_dht11 d =
      let (meas, frame, board) = humid.get_measurement d.data_frame d.board in
      record d { board = board; data_frame = frame; meas = record (d.meas) { humid = meas } }

  abbrev pub average_dht11 : Devices → Option Devices
  average_dht11 d = averaging.average_update_dht11 d.meas d.averages >>= λ (memory, statics).
      some (record d { meas = memory; averages = statics })

  -- What a case does until it may clear the averages, and that.
  abbrev pub call_modem : TransmissionState → ℕ → Devices → Option (TransmissionState × ℕ × Devices)
  call_modem idle n d = transmit parts idle n d
  call_modem connect_to_server n d = transmit parts connect_to_server n d
  call_modem await_for_connection n d = transmit parts await_for_connection n d
  call_modem send_data n d = modem.esp_send_measurements d.esp d.meas d.board >>= λ board.
      some (idle, n, record d { board = board })

  abbrev pub clear_sent : TransmissionState → Devices → Devices
  clear_sent idle d = d
  clear_sent connect_to_server d = d
  clear_sent await_for_connection d = d
  clear_sent send_data d = record d { averages = averaging.average_reset d.averages }

  unfoldable pub step : Stage → Machine → Option (Stage × Machine)
  step polling m = elim m.control.update_state [
    | up_to_date ↦ some (polling, m)
    | update_request ↦ some (requested, m)
  ]
  step requested m =
      some
        (averaging_ds18b20, record m { devices = store_ds18b20 m.control.ds18b20_state m.devices })
  step averaging_ds18b20 m = average_ds18b20 m.control.ds18b20_state m.devices >>= λ (next, d).
      some (
        measuring_bmp280,
        record { control = record (m.control) { ds18b20_state = next }; devices = d },
      )
  step measuring_bmp280 m = some (averaging_bmp280, record m { devices = store_bmp280 m.devices })
  step averaging_bmp280 m =
      average_bmp280 m.devices >>= λ d. some (measuring_dht11, record m { devices = d })
  step measuring_dht11 m = some (averaging_dht11, record m { devices = store_dht11 m.devices })
  step averaging_dht11 m =
      average_dht11 m.devices >>= λ d. some (switching, record m { devices = d })
  step switching m = some (switched m.control.esp_state, m)
  step (switched s) m = call_modem s m.control.await_counter m.devices >>= λ (esp, n, d).
      some (clearing s esp n, record m { devices = d })
  step (clearing s esp n) m = some (leaving s esp n, record m { devices = clear_sent s m.devices })
  step (leaving s esp n) m = some (drawing, record m { control = written s esp n m.control })
  step drawing m = update_gui parts m.devices >>= λ d. some (finishing, record m { devices = d })
  step finishing m =
      some (polling, record m { control = record (m.control) { update_state = up_to_date } })

  -- So many steps without an interrupt.
  unfoldable pub steps : ℕ → Stage → Machine → Option (Stage × Machine)
  steps zero s m = some (s, m)
  steps (suc n) s m = step s m >>= λ (s', m'). steps n s' m'

  -- What steps and interrupts, in any order, make of the machine that `main` starts with.
  pub data Interleaved : Stage → Machine → Type 0 where
    start :
        (d : Devices)
        → Counts 0 0 0 d.averages.sums
        → Interleaved polling (record { control = initial_control; devices = d })
    interrupt :
        (s : Stage) (m : Machine)
        → Interleaved s m
        → Interleaved s (record m { control = timer_callback m.control })
    advance :
        (s s' : Stage) (m m' : Machine)
        → Interleaved s m
        → step s m ≡ some (s', m')
        → Interleaved s' m'
