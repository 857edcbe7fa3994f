-- ===== src/Station/Firmware.antt =====
-- The modules that main.c puts together, behind their interfaces.
use quark_meteo_station.Base.{ℕ, ◌≡◌, refl, arith, List, length}
use quark_meteo_station.Board.{
  Env, rs_pin, e_pin, d4_pin, d5_pin, d6_pin, d7_pin, onewire_pin, dht11_pin,
}
use quark_meteo_station.Hd44780.{
  Config, display_20x2, entry_mode_bits, on_off_bits, increase_cursor_on, display_on, tmp_buf_size,
}
use quark_meteo_station.Hd44780.Bus.{IsWired}
use quark_meteo_station.Hd44780.Interface.{Display, IsUsable, display}
use quark_meteo_station.Onewire.Interface.{bus}
use quark_meteo_station.Ds18b20.Interface.{outdoor_sensor}
use quark_meteo_station.Dht11.Interface.{humidity_sensor}
use quark_meteo_station.I2c.Interface.{registers}
use quark_meteo_station.Bmp280.Interface.{indoor_sensor}
use quark_meteo_station.Average.Interface.{averaging}
use quark_meteo_station.Gui.Interface.{screen}
use quark_meteo_station.Esp.{max_utoa_size}
use quark_meteo_station.Esp.Interface.{modem}
use quark_meteo_station.Station.{Parts}

-- What uninitialised or static buffers hold: the one of `HD44780_write_integer`, the one of
-- `BMP280_read_measurement_regs`, and `utoa_buffer` of ESP.c; two of them with their sizes.
pub record Buffers : Type 0 where
  pub number : List ℕ
  pub registers : List ℕ
  pub utoa : List ℕ
  pub number-size : length number ≡ tmp_buf_size
  pub utoa-size : length utoa ≡ max_utoa_size

abbrev pub lcd_config : Config
lcd_config = record {
  rs = rs_pin;
  e = e_pin;
  d4 = d4_pin;
  d5 = d5_pin;
  d6 = d6_pin;
  d7 = d7_pin;
  type = display_20x2;
  entry_mode_flags = entry_mode_bits increase_cursor_on;
  on_off_flags = on_off_bits display_on;
}

-- The pins that main.c gives to the display are different.
pub lcd_config-IsWired : IsWired lcd_config
lcd_config-IsWired = record {
  rs-e = omega arith;
  d7-e = omega arith;
  d6-e = omega arith;
  d5-e = omega arith;
  d4-e = omega arith;
  rs-d7 = omega arith;
  rs-d6 = omega arith;
  rs-d5 = omega arith;
  rs-d4 = omega arith;
  d7-d6 = omega arith;
  d7-d5 = omega arith;
  d7-d4 = omega arith;
  d6-d5 = omega arith;
  d6-d4 = omega arith;
  d5-d4 = omega arith;
}

pub lcd_config-IsUsable : IsUsable lcd_config
lcd_config-IsUsable = record {
  wired = lcd_config-IsWired;
  known = omega arith;
  on_off = omega arith;
  entry = omega arith;
}

abbrev pub lcd : Buffers → Display
lcd buffers = display lcd_config lcd_config-IsUsable buffers.number buffers.number-size

abbrev pub firmware : Env → Buffers → Parts
firmware env buffers = record {
  outdoor = outdoor_sensor (bus env onewire_pin (omega arith));
  humid = humidity_sensor env dht11_pin;
  indoor = indoor_sensor (registers env);
  registers = buffers.registers;
  averaging = averaging;
  screen = screen (lcd buffers) refl;
  modem = modem buffers.utoa buffers.utoa-size;
}
