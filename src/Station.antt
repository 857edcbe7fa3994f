-- ===== src/Station.antt =====
-- main.c: the timer's callback, the main loop and its state machines, and the start.
pub mod Cycle
pub mod Period
pub mod Counts
pub mod Safety
pub mod Firmware
pub mod Boot
pub mod Progress
pub mod Runs
pub mod Sends
pub mod Ready
pub mod Mild
pub mod Fitting
pub mod Transmissions
pub mod Rounds
pub mod Table
pub mod Logbook
pub mod Averaged
pub mod Noted
pub mod Reports
pub mod Endless
pub mod Drawn
pub mod Interrupts
pub mod Lines
use quark_meteo_station.Base.{
  ℕ, ◌+◌, ◌-◌, Bool, true, false, Option, some, none, List, leb, if◌then◌else◌,
}
use quark_meteo_station.Base.Word.{u8, u16}
use quark_meteo_station.Board.{Board}
use quark_meteo_station.I2c.{I2c}
use quark_meteo_station.Bmp280
use quark_meteo_station.Bmp280.{Cal}
use quark_meteo_station.Bmp280.Interface.{IndoorSensor}
use quark_meteo_station.Ds18b20
use quark_meteo_station.Ds18b20.Interface.{OutdoorSensor}
use quark_meteo_station.Dht11
use quark_meteo_station.Dht11.Interface.{HumiditySensor}
use quark_meteo_station.Average
use quark_meteo_station.Average.Interface.{Averaging}
use quark_meteo_station.Gui
use quark_meteo_station.Gui.Interface.{Screen}
use quark_meteo_station.Esp
use quark_meteo_station.Esp.{connection_time}
use quark_meteo_station.Esp.Interface.{Modem}

abbrev pub server_update_period : ℕ
server_update_period = 3600

abbrev pub timer_period : ℕ
timer_period = 1000

-- `DS18B20_readout_state_t`.
pub data ReadoutState : Type 0 where
  request_conversion get_measurement : ReadoutState

-- `ESP_transmission_state_t`.
pub data TransmissionState : Type 0 where
  idle connect_to_server await_for_connection send_data : TransmissionState

-- `GUI_state_t`.
pub data GuiState : Type 0 where
  up_to_date update_request : GuiState

-- The statics of main.c, the local `DS18B20_state`, and the static counters of `timer_callback` and
-- of the state that waits for the connection.
pub record Control : Type 0 where
  pub update_state : GuiState
  pub esp_state : TransmissionState
  pub server_update_counter : ℕ
  pub await_counter : ℕ
  pub ds18b20_state : ReadoutState

-- The measurements of `main`, to which the other modules have pointers.
pub record Measurements : Type 0 where
  pub outdoor : Ds18b20.Meas
  pub outdoor_avg : Ds18b20.Meas
  pub indoor : Bmp280.Meas
  pub indoor_avg : Bmp280.Meas
  pub humid : Dht11.Meas
  pub humid_avg : Dht11.Meas

-- They, the statics of the other modules, and the board.
pub record Devices : Type 0 where
  pub board : Board
  pub i2c : I2c
  pub cal : Cal
  pub data_frame : ℕ
  pub meas : Measurements
  pub averages : Average.Statics Measurements
  pub gui : Gui.Pointers Measurements
  pub esp : Esp.Pointers Measurements

pub record Machine : Type 0 where
  pub control : Control
  pub devices : Devices

abbrev pub initial_control : Control
initial_control = record {
  update_state = update_request;
  esp_state = idle;
  server_update_counter = 0;
  await_counter = 0;
  ds18b20_state = request_conversion;
}

-- `if(ESP_state == IDLE) server_update_counter++`.
unfoldable pub count_idle : TransmissionState → ℕ → ℕ
count_idle idle n = u16 (n + 1)
count_idle s n = n

unfoldable pub timer_callback : Control → Control
unfolding count_idle
timer_callback c =
    let n = count_idle c.esp_state c.server_update_counter in
    if leb (server_update_period - connection_time) n
    then record c {
      update_state = update_request;
      server_update_counter = 0;
      esp_state = connect_to_server;
    }
    else record c { update_state = update_request; server_update_counter = n }

-- What the loop uses of the other modules. `registers` is what the local buffer of
-- `BMP280_read_measurement_regs` holds.
pub record Parts : Type 1 where
  pub outdoor : OutdoorSensor
  pub humid : HumiditySensor ℕ
  pub indoor : IndoorSensor I2c Cal
  pub registers : List ℕ
  pub averaging : Averaging Measurements
  pub screen : Screen
  pub modem : Modem

infixl 4 ◌>>=◌
abbrev pub ◌>>=◌ {ℓ κ} : {A : Type ℓ} {B : Type κ} → Option A → (A → Option B) → Option B
none >>= f = none
some a >>= f = f a

module _ (parts : Parts) where
  open parts use {outdoor, humid, indoor, registers, averaging, screen, modem}

  -- The state machine of the outdoor sensor.
  unfoldable pub readout : ReadoutState → Devices → Option (ReadoutState × Devices)
  readout request_conversion d =
      some (get_measurement, record d { board = outdoor.request_conversion d.board })
  readout get_measurement d =
      let (meas, board) = outdoor.get_temperature d.board in
      averaging.average_update_ds18b20 (record (d.meas) { outdoor = meas }) d.averages
      >>= λ (memory, statics).
          some (request_conversion, record d { board = board; meas = memory; averages = statics })

  -- The indoor sensors, each with its average.
  unfoldable pub measure_bmp280 : Devices → Option Devices
  measure_bmp280 d =
      let (meas, i2c, board) = indoor.get_measurement registers d.cal d.i2c d.board in
      averaging.average_update_bmp280 (record (d.meas) { indoor = meas }) d.averages
      >>= λ (memory, statics).
          some (record d { board = board; i2c = i2c; meas = memory; averages = statics })

  unfoldable pub measure_dht11 : Devices → Option Devices
  measure_dht11 d =
      let (meas, frame, board) = humid.get_measurement d.data_frame d.board in
      averaging.average_update_dht11 (record (d.meas) { humid = meas }) d.averages
      >>= λ (memory, statics).
          some (record d { board = board; data_frame = frame; meas = memory; averages = statics })

  -- The state machine of the transmission: the state, the counter of the waiting state, the devices.
  unfoldable pub transmit :
      TransmissionState → ℕ → Devices → Option (TransmissionState × ℕ × Devices)
  transmit idle n d = some (idle, n, d)
  transmit connect_to_server n d = modem.esp_connect_to_server d.board >>= λ board.
      some (await_for_connection, n, record d { board = board })
  transmit await_for_connection n d =
      let n' = u8 (n + 1) in
      some
        (if leb (connection_time - 1) n' then (send_data, 0, d) else (await_for_connection, n', d))
  transmit send_data n d = modem.esp_send_measurements d.esp d.meas d.board >>= λ board.
      some (idle, n, record d { board = board; averages = averaging.average_reset d.averages })

  unfoldable pub update_gui : Devices → Option Devices
  update_gui d =
      screen.gui_update d.gui d.meas d.board >>= λ board. some (record d { board = board })

  -- The body under `if(update_state == UPDATE_REQUEST)`.
  unfoldable pub update_cycle : Machine → Option Machine
  update_cycle m = readout m.control.ds18b20_state m.devices >>= λ (next, d₁).
      measure_bmp280 d₁ >>= λ d₂. measure_dht11 d₂ >>= λ d₃.
      transmit m.control.esp_state m.control.await_counter d₃ >>= λ (esp, n, d₄).
      update_gui d₄ >>= λ d₅. some (record {
        control = record (m.control) {
          update_state = up_to_date;
          esp_state = esp;
          await_counter = n;
          ds18b20_state = next;
        };
        devices = d₅;
      })

  -- One round of `while(1)`.
  unfoldable pub loop_body : Machine → Option Machine
  unfolding update_cycle
  loop_body m = elim m.control.update_state [
    | update_request ↦ update_cycle m
    | up_to_date ↦ some m
  ]
