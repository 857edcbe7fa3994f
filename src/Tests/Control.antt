-- ===== src/Tests/Control.antt =====
-- main.c at concrete inputs.
use quark_meteo_station.Base.{
  false, ℕ, zero, suc, ◌+◌, ◌*◌, ◌<◌, ◌≤◌, ◌≡◌, ◌≢◌, ◌⊎◌, ◌↔◌, refl, arith, Option, some, none,
  List, [], ◌∷◌, Returns, ◌==◌, if◌then◌else◌,
}
use quark_meteo_station.Base.Int.{pos, negsuc}
use quark_meteo_station.Dht11
use quark_meteo_station.Average
use quark_meteo_station.Average.{hundredths, split}
use quark_meteo_station.Station.{
  Machine, Devices, Parts, Control, loop_body, initial_control, timer_callback, request_conversion,
  get_measurement, up_to_date, update_request, idle, connect_to_server, await_for_connection,
  send_data, TransmissionState, readout, measure_bmp280, measure_dht11, update_cycle, ◌>>=◌,
}
use quark_meteo_station.Station.Cycle.{round, loop_body-round, IsSound}
use quark_meteo_station.Station.Period.{state_at, seconds, seconds-period, Ran, Ran-state_at}
use quark_meteo_station.Station.Counts.{IsWithin}
use quark_meteo_station.Station.Interrupts.{
  polling, requested, switched, clearing, leaving, step, steps, Interleaved, start, interrupt,
  advance,
}
use quark_meteo_station.Station.Interrupts.Safe.{Interleaved-safe}
use quark_meteo_station.Station.Interrupts.Lost.{remaining, steps-lost}
use quark_meteo_station.Station.Boot.{boot}
use quark_meteo_station.Station.Lines.{boot-direction}
use quark_meteo_station.Station.Firmware.{firmware}
use quark_meteo_station.Base.{length, take}
use quark_meteo_station.Base.Bits.{bit}
use quark_meteo_station.Station.Ready.{boot-Returns}
use quark_meteo_station.Tests.Display.{nothing_shown}
use quark_meteo_station.Tests.{measurements, low_env, fresh_buffers, fresh, fresh_devices}

abbrev parts : Parts
parts = firmware low_env fresh_buffers

abbrev after_one : Machine
after_one = elim (loop_body parts fresh) [ some m ↦ m | none ↦ fresh ]

-- A whole round runs.
one_round : loop_body parts fresh ≡ some after_one
unfolding quark_meteo_station.Utoa.utoa quark_meteo_station.Hd44780.write_integer
    quark_meteo_station.Dht11.validate_checksum quark_meteo_station.Dht11.reset
    quark_meteo_station.Dht11.sample_bit quark_meteo_station.Dht11.retrieve
    quark_meteo_station.Dht11.get_measurement quark_meteo_station.I2c.read
    quark_meteo_station.Bmp280.merge quark_meteo_station.Bmp280.compute_compensation
    quark_meteo_station.Bmp280.get_measurement quark_meteo_station.Average.reset
    quark_meteo_station.Average.update_bmp280 quark_meteo_station.Average.update_dht11
    quark_meteo_station.Gui.update quark_meteo_station.Station.timer_callback
    quark_meteo_station.Station.readout quark_meteo_station.Station.measure_bmp280
    quark_meteo_station.Station.measure_dht11 quark_meteo_station.Station.transmit
    quark_meteo_station.Station.update_gui quark_meteo_station.Station.loop_body
    quark_meteo_station.Base.Int.div_ℤ quark_meteo_station.Base.Int.mod_ℤ
    Average.average_update_bmp280 Average.average_update_dht11
one_round = refl

loop_body-round_example : after_one.control ≡ round fresh.control
loop_body-round_example = loop_body-round parts fresh one_round

-- The first hour of the station, from its start.
boot-Returns_example :
    (m m' : Machine) × (loop_body parts (boot low_env fresh_buffers fresh_devices).0 ≡ some m)
    × Ran parts 3599 m m'
    × (m'.control ≡ state_at get_measurement 3599)
boot-Returns_example =
    boot-Returns low_env fresh_buffers fresh_devices nothing_shown (omega arith, omega arith) 3599
      (omega arith)

-- The first hour, taken apart.
hour :
    (m m' : Machine) × (loop_body parts (boot low_env fresh_buffers fresh_devices).0 ≡ some m)
    × Ran parts 3599 m m'
    × (m'.control ≡ state_at get_measurement 3599)
hour =
    boot-Returns low_env fresh_buffers fresh_devices nothing_shown (omega arith, omega arith) 3599
      (omega arith)

hour-start : hour.0.control ≡ state_at get_measurement 0
unfolding boot
hour-start = loop_body-round parts (boot low_env fresh_buffers fresh_devices).0 hour.2

Ran-state_at_example : hour.1.control ≡ state_at get_measurement 3599
Ran-state_at_example = Ran-state_at parts get_measurement 3599 (omega arith) hour-start hour.3

seconds-period_example :
    (seconds 3600 (state_at get_measurement 0) ≡ state_at get_measurement 0)
    × (((seconds 3598 (state_at get_measurement 0)).esp_state ≡ send_data)
        ↔ (◌≡◌ {A = ℕ} 3598 3599))
seconds-period_example = seconds-period get_measurement 3598 (omega arith)

abbrev waiting : Control
waiting = record initial_control { esp_state = await_for_connection; await_counter = 8 }

-- The first step, and an interrupt behind it.
first_step : step parts polling fresh ≡ some (requested, fresh)
unfolding step
first_step = refl

abbrev interrupted : Machine
interrupted = record fresh { control = timer_callback fresh.control }

interrupted-Interleaved : Interleaved parts requested interrupted
interrupted-Interleaved = interrupt requested fresh (
    advance polling requested fresh fresh
      (start fresh_devices (unfold Average.reset in (omega arith, omega arith, omega arith)))
      first_step)

Interleaved-safe_example :
    let statics = interrupted.devices.averages in
    IsSound interrupted.control
    × IsWithin 3601 statics.sums
    × (parts.averaging.average_update_bmp280 measurements statics ≢ none)
    × (parts.averaging.average_update_ds18b20 measurements statics ≢ none)
    × (parts.averaging.average_update_dht11 measurements statics ≢ none)
    × ((t esp : TransmissionState) (n : ℕ)
        → t ≢ idle
        → (requested ≡ switched t) ⊎ (requested ≡ clearing t esp n) ⊎ (requested ≡ leaving t esp n)
        → interrupted.control.esp_state ≡ t)
Interleaved-safe_example =
    Interleaved-safe parts requested interrupted measurements interrupted-Interleaved

-- The steps that are left of the interrupted round.
abbrev rest_of_round : Machine
rest_of_round = elim (steps parts 12 requested interrupted) [ some (s, m) ↦ m | none ↦ fresh ]

rest_ends : steps parts (remaining requested) requested interrupted ≡ some (polling, rest_of_round)
unfolding step steps quark_meteo_station.Utoa.utoa quark_meteo_station.Hd44780.write_integer
    quark_meteo_station.Dht11.validate_checksum quark_meteo_station.Dht11.reset
    quark_meteo_station.Dht11.sample_bit quark_meteo_station.Dht11.retrieve
    quark_meteo_station.Dht11.get_measurement quark_meteo_station.I2c.read
    quark_meteo_station.Bmp280.merge quark_meteo_station.Bmp280.compute_compensation
    quark_meteo_station.Bmp280.get_measurement quark_meteo_station.Average.reset
    quark_meteo_station.Average.update_bmp280 quark_meteo_station.Average.update_dht11
    quark_meteo_station.Gui.update quark_meteo_station.Station.timer_callback
    quark_meteo_station.Station.readout quark_meteo_station.Station.measure_bmp280
    quark_meteo_station.Station.measure_dht11 quark_meteo_station.Station.transmit
    quark_meteo_station.Station.update_gui quark_meteo_station.Station.loop_body
    quark_meteo_station.Base.Int.div_ℤ quark_meteo_station.Base.Int.mod_ℤ
    Average.average_update_bmp280 Average.average_update_dht11
rest_ends = refl

steps-lost_example :
    (polling ≡ polling)
    × (loop_body parts rest_of_round ≡ some rest_of_round)
    × (rest_of_round.control.server_update_counter ≡ fresh.control.server_update_counter + 1)
steps-lost_example =
    steps-lost parts requested polling fresh rest_of_round (λ e. cc e) refl (omega arith) rest_ends

boot-direction_example :
    bit 18 (boot low_env fresh_buffers fresh_devices).0.devices.board.direction ≡ 1
boot-direction_example = boot-direction low_env fresh_buffers fresh_devices 18 (omega arith)
