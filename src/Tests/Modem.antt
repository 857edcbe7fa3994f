-- ===== src/Tests/Modem.antt =====
-- ESP.c at concrete inputs.
use quark_meteo_station.Base.{◌≡◌, refl, arith, some, none, [], ◌∷◌, length, replicate}
use quark_meteo_station.Base.Int.{negsuc}
use quark_meteo_station.Board.{uart_write_buffer, sys_udelay}
use quark_meteo_station.Esp.{Report, prepare_post_request, send_measurements}
use quark_meteo_station.Esp.Text.{Fits, json_text, post_text}
use quark_meteo_station.Esp.Fits.{
  command_text, send_measurements-sent, prepare_post_request_overflow,
}
use quark_meteo_station.Tests.{fresh_board, indoor, outdoor, humid}

abbrev report : Report
report = record { indoor = indoor; outdoor = outdoor; humid = humid }

report-Fits : Fits report 2150
report-Fits = record {
  not_negative = refl;
  indoor = omega arith;
  pressure = omega arith;
  integer = omega arith;
  fraction = omega arith;
  humidity = omega arith;
}

send_measurements-sent_example :
    send_measurements (replicate 8 0) report fresh_board
    ≡ some (record fresh_board {
      log =
          uart_write_buffer (post_text (json_text report 2150))
          ∷ sys_udelay 100000
          ∷ uart_write_buffer (command_text (length (post_text (json_text report 2150))))
          ∷ [];
    })
send_measurements-sent_example =
    send_measurements-sent (replicate 8 0) refl report 2150 fresh_board report-Fits

-- -0.01 degrees.
abbrev frost : Report
frost = record report { indoor = record indoor { temperature = negsuc 0 } }

prepare_post_request_overflow_example : prepare_post_request (replicate 8 0) frost ≡ none
prepare_post_request_overflow_example =
    prepare_post_request_overflow (replicate 8 0) refl frost 0 refl (omega arith)
