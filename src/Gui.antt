-- ===== src/Gui.antt =====
-- GUI.c: the measurements on the display, on any library of it.
pub mod Layout
pub mod Cells
pub mod Quiet
pub mod Interface
pub mod Stale
pub mod Labels
use quark_meteo_station.Base.{ℕ, ◌/◌, ◌%◌, Option, some, none, List, codes, Bool, true, false}
use quark_meteo_station.Base.Int.{ℤ, pos, div_ℤ, mod_ℤ}
use quark_meteo_station.Board.{Board, ◌▷◌}
use quark_meteo_station.Bmp280
use quark_meteo_station.Ds18b20
use quark_meteo_station.Ds18b20.{positive, negative}
use quark_meteo_station.Dht11
use quark_meteo_station.Hd44780.Interface.{Display}

infixl 4 ◌>>=◌
-- The next statement, if `write_integer` did not fault.
abbrev pub ◌>>=◌ : Option Board → (Board → Option Board) → Option Board
none >>= f = none
some b >>= f = f b

-- The static pointers to const, into a memory `M`.
pub record Pointers (M : Type 0) : Type 0 where
  pub bmp280_meas : M → Bmp280.Meas
  pub ds18b20_meas : M → Ds18b20.Meas
  pub dht11_meas : M → Dht11.Meas

module _ (lcd : Display) where
  open lcd use {gotoxy, write_string, write_char, write_integer, clear}

  unfoldable pub draw_layout : Board → Board
  draw_layout b =
      b
      ▷ write_string (codes "I: ")
      ▷ gotoxy 2 1
      ▷ write_string (codes "P: ")
      ▷ gotoxy 1 12
      ▷ write_string (codes "O: ")
      ▷ gotoxy 2 15
      ▷ write_string (codes "H: ")

  -- A value in hundredths: whole part, point, hundredths in two places, unit.
  unfoldable pub draw_hundredths : ℤ → ℤ → List ℕ → Board → Option Board
  draw_hundredths whole part unit b = write_integer whole 0 b >>= λ b₁.
      write_integer part 2 (write_char b'.' b₁) >>= λ b₂. some (write_string unit b₂)

  unfoldable pub draw_bmp280 : Bmp280.Meas → Board → Option Board
  unfolding draw_hundredths
  draw_bmp280 meas b =
      draw_hundredths (div_ℤ meas.temperature 100) (mod_ℤ meas.temperature 100) (codes "C ")
        (gotoxy 1 4 b)
      >>= λ b₁.
          draw_hundredths (pos (meas.pressure / 100)) (pos (meas.pressure % 100)) (codes "hPa ")
            (gotoxy 2 4 b₁)

  unfoldable pub draw_ds18b20 : Ds18b20.Meas → Board → Option Board
  unfolding draw_hundredths
  draw_ds18b20 meas b =
      let sign : ℕ = elim meas.sign [ negative ↦ b'-' | positive ↦ b' ' ] in
      draw_hundredths (pos meas.integer) (pos meas.fraction) (codes "C ")
        (b ▷ gotoxy 1 14 ▷ write_char sign)

  unfoldable pub draw_dht11 : Dht11.Meas → Board → Option Board
  draw_dht11 meas b = write_integer (pos meas.humidity) 0 (gotoxy 2 18 b) >>= λ b₁.
      some (write_string (codes "%") b₁)

  -- The three pointers are stored whatever the statics held.
  unfoldable pub init :
      {M : Type 0}
      → (M → Bmp280.Meas)
      → (M → Ds18b20.Meas)
      → (M → Dht11.Meas)
      → Board
      → Pointers M × Board
  unfolding draw_layout
  init bmp280_measurement ds18b20_measurement dht11_measurement b = (
    record {
      bmp280_meas = bmp280_measurement;
      ds18b20_meas = ds18b20_measurement;
      dht11_meas = dht11_measurement;
    },
    b ▷ clear ▷ draw_layout,
  )

  unfoldable pub update : {M : Type 0} → Pointers M → M → Board → Option Board
  unfolding draw_bmp280 draw_ds18b20 draw_dht11
  update p m b =
      draw_bmp280 (p.bmp280_meas m) b
      >>= draw_ds18b20 (p.ds18b20_meas m)
      >>= draw_dht11 (p.dht11_meas m)
