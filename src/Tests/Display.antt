-- ===== src/Tests/Display.antt =====
-- HD44780.c, GUI.c and utoa.c at concrete inputs.
use quark_meteo_station.Base.{
  ℕ, ◌≡◌, refl, arith, some, none, List, [], ◌∷◌, ◌++◌, codes, length, replicate,
}
use quark_meteo_station.Base.Int.{negsuc}
use quark_meteo_station.Board.{Board}
use mathlib.Core.List.{reverse}
use quark_meteo_station.Utoa.{utoa, strrev, text}
use quark_meteo_station.Utoa.Decimal.{value, decimal, IsDecimal}
use quark_meteo_station.Utoa.Reverse.{strrev_lem}
use quark_meteo_station.Utoa.Convert.{utoa_lem, utoa_overflow, value-utoa}
use quark_meteo_station.Hd44780.{
  type_data, write_string, write_integer, gotoxy, load_custom_glyph, required_address, init,
}
use quark_meteo_station.Hd44780.Bus.{Msg, said, Shows, write_string-Shows}
use quark_meteo_station.Hd44780.Integer.{int_text, write_integer-Shows}
use quark_meteo_station.Gui
use quark_meteo_station.Gui.{update}
use quark_meteo_station.Gui.Cells.{Displays}
use quark_meteo_station.Gui.Labels.{IsLabelled, redraw, init-redraw}
use quark_meteo_station.Gui.Interface.{AreInRange}
use quark_meteo_station.Gui.Stale.{update-stale}
use quark_meteo_station.Hd44780.Memory.{Memory, memory, IsForward, Forward, read}
use quark_meteo_station.Station.{Measurements}
use quark_meteo_station.Gui.Layout.{bmp280_msgs, ds18b20_msgs, dht11_msgs, update-Shows}
use quark_meteo_station.Station.Firmware.{lcd, lcd_config, lcd_config-IsWired}
use quark_meteo_station.Station.Progress.{gui_pointers}
use quark_meteo_station.Tests.{fresh_board, fresh_buffers, measurements, indoor, outdoor, humid}

-- A display that has been sent nothing.
pub nothing_shown : Shows lcd_config fresh_board []
unfolding quark_meteo_station.Hd44780.Bus.receive
nothing_shown = record { ready = refl; shown = refl }

-- A display that has been started.
abbrev started : Board
started = ((lcd fresh_buffers).hd44780_init lcd_config fresh_board).1

started_msgs : (ms : List Msg) × Shows lcd_config started ms × Forward ms
started_msgs =
    let (_, (ms, shows, right)) = (lcd fresh_buffers).init-Shows fresh_board nothing_shown in
    (ms, shows, right refl)

write_string-Shows_example :
    Shows lcd_config (write_string lcd_config (codes "P: ") fresh_board) (said (codes "P: ") [])
write_string-Shows_example =
    write_string-Shows lcd_config lcd_config-IsWired (codes "P: ") fresh_board
      (omega arith, (omega arith, (omega arith, tt))) nothing_shown

write_integer-Shows_example :
    (b' : Board) × (write_integer lcd_config (replicate 11 7) (negsuc 4) 2 fresh_board ≡ some b')
    × Shows lcd_config b' (said (int_text (negsuc 4) 2) [])
write_integer-Shows_example =
    write_integer-Shows lcd_config lcd_config-IsWired (replicate 11 7) (negsuc 4) 2 fresh_board refl
      (omega arith) (omega arith) (omega arith) nothing_shown

update-Shows_example :
    (b' : Board) × (update (lcd fresh_buffers) gui_pointers measurements fresh_board ≡ some b')
    × Shows lcd_config b' (dht11_msgs humid (ds18b20_msgs outdoor (bmp280_msgs indoor [])))
update-Shows_example =
    update-Shows (lcd fresh_buffers) refl gui_pointers measurements fresh_board
      (omega arith, omega arith) (omega arith) (omega arith) (omega arith) (omega arith)
      nothing_shown

-- The same with a dry room.
abbrev dry : Measurements
dry = record measurements { humid = record { humidity = 5; temperature = 21 } }

measurements-AreInRange : AreInRange indoor outdoor humid
measurements-AreInRange = record {
  temperature = (omega arith, omega arith);
  pressure = omega arith;
  integer = omega arith;
  fraction = omega arith;
  humidity = omega arith;
}

update-stale_example :
    (b₁ b₂ : Board) × (update (lcd fresh_buffers) gui_pointers measurements started ≡ some b₁)
    × (update (lcd fresh_buffers) gui_pointers dry b₁ ≡ some b₂)
    × (ms : List Msg) × Shows lcd_config b₂ ms
    × ((start : Memory) → read 81 3 (memory start ms).cell ≡ codes "5%%")
update-stale_example =
    update-stale (lcd fresh_buffers) refl gui_pointers measurements dry started
      measurements-AreInRange
      (record {
        temperature = (omega arith, omega arith);
        pressure = omega arith;
        integer = omega arith;
        fraction = omega arith;
        humidity = omega arith;
      })
      (refl, omega arith, omega arith) (refl, omega arith, omega arith) (omega arith) (omega arith)
      (omega arith) started_msgs.1 started_msgs.2

init-redraw_example :
    let drawn =
      Gui.init
        (lcd fresh_buffers)
        gui_pointers.bmp280_meas
        gui_pointers.ds18b20_meas
        gui_pointers.dht11_meas
        started in
    (b₁ b₂ : Board) × (redraw (lcd fresh_buffers) refl gui_pointers (measurements ∷ []) drawn.1
      ≡ some b₁)
    × (update (lcd fresh_buffers) gui_pointers dry b₁ ≡ some b₂)
    × (ms : List Msg) × Shows lcd_config b₂ ms
    × ((start : Memory)
        → IsForward (memory start ms)
          × IsLabelled (memory start ms).cell
          × Displays indoor outdoor (dry.humid) (memory start ms).cell)
unfolding Gui.init
init-redraw_example =
    init-redraw (lcd fresh_buffers) refl gui_pointers.bmp280_meas gui_pointers.ds18b20_meas
      gui_pointers.dht11_meas (measurements ∷ []) dry started
      ((refl, omega arith, omega arith, omega arith, omega arith, omega arith), tt)
      (refl, omega arith, omega arith, omega arith, omega arith, omega arith) started_msgs.1
      started_msgs.2

utoa_lem_example :
    (old rest : List ℕ) × (o : ℕ) × (replicate 8 1 ≡ old ++ o ∷ rest)
    × (length old ≡ length (decimal 2150))
    × (utoa 2150 (replicate 8 1) ≡ some (decimal 2150 ++ 0 ∷ rest))
utoa_lem_example = utoa_lem 2150 (replicate 8 1) (omega arith) (unfold decimal in omega arith)

utoa_overflow_example : utoa 4294967046 (replicate 8 1) ≡ none
utoa_overflow_example =
    utoa_overflow 4294967046 (replicate 8 1) (omega arith) (unfold decimal in omega arith)

value-utoa_example :
    (value (text (codes "90" ++ 0 ∷ 7 ∷ [])) ≡ 90)
    × IsDecimal 90 (text (codes "90" ++ 0 ∷ 7 ∷ []))
    × (length (codes "90" ++ 0 ∷ 7 ∷ []) ≡ length (replicate {A = ℕ} 4 7))
value-utoa_example =
    value-utoa 90 (replicate 4 7) (codes "90" ++ 0 ∷ 7 ∷ []) (omega arith) (unfold utoa in refl)

strrev_lem_example : strrev (codes "abc" ++ 0 ∷ 5 ∷ []) ≡ reverse (codes "abc") ++ 0 ∷ 5 ∷ []
strrev_lem_example =
    strrev_lem (codes "abc") (5 ∷ []) (omega arith, (omega arith, (omega arith, tt)))
