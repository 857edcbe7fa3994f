-- ===== src/Station/Lines.antt =====
-- The direction word of the port: who drives which line when main.c's loop starts.
use quark_meteo_station.Base.{
  ℕ, ◌<◌, ◌≡◌, refl, arith, Bool, List, [], ◌∷◌, ◌==◌, ◌||◌, if◌then◌else◌,
}
use quark_meteo_station.Base.Bits.{bit, all_below, eq_below}
use quark_meteo_station.Board.{Board, Env, onewire_pin, dht11_pin}
use quark_meteo_station.Hd44780
use quark_meteo_station.Hd44780.{Config, Mode, instruction, character}
use quark_meteo_station.Onewire
use quark_meteo_station.Dht11
use quark_meteo_station.I2c
use quark_meteo_station.I2c.{I2c}
use quark_meteo_station.Bmp280
use quark_meteo_station.I2c.Interface.{registers}
use quark_meteo_station.Bmp280.{Cal}
use quark_meteo_station.Timer.{Callback}
use quark_meteo_station.Ds18b20
use quark_meteo_station.Gui
use quark_meteo_station.Timer
use quark_meteo_station.Station.{Devices}
use quark_meteo_station.Station.Firmware.{Buffers, lcd, lcd_config}
use quark_meteo_station.Station.Boot.{boot, gpio_setup, uart_setup, display_pins}

module _ (config : Config) where
  write_byte-direction :
      (byte : ℕ) (mode : Mode) (b : Board)
      → (Hd44780.write_byte config byte mode b).direction ≡ b.direction
  unfolding Hd44780.write_byte
  write_byte-direction byte mode b = refl

  write_string-direction :
      (s : List ℕ) (b : Board) → (Hd44780.write_string config s b).direction ≡ b.direction
  unfolding Hd44780.write_string
  write_string-direction [] b = refl
  write_string-direction (c ∷ s) b =
      cc (
        write_string-direction s (Hd44780.write_char config c b),
        write_byte-direction c character b,
      )

  gotoxy-direction : (x y : ℕ) (b : Board) → (Hd44780.gotoxy config x y b).direction ≡ b.direction
  unfolding Hd44780.gotoxy Hd44780.write_byte
  gotoxy-direction x y b = refl

  clear-direction : (b : Board) → (Hd44780.clear config b).direction ≡ b.direction
  unfolding Hd44780.clear Hd44780.write_byte
  clear-direction b = refl

draw_layout-direction :
    (buffers : Buffers) (b : Board) → (Gui.draw_layout (lcd buffers) b).direction ≡ b.direction
unfolding Gui.draw_layout
draw_layout-direction buffers b =
    simp (write_string-direction lcd_config, gotoxy-direction lcd_config)

gui_init-direction :
    {M : Type 0} (buffers : Buffers) (i : M → Bmp280.Meas) (o : M → Ds18b20.Meas)
    (h : M → Dht11.Meas) (b : Board)
    → (Gui.init (lcd buffers) i o h b).1.direction ≡ b.direction
unfolding Gui.init
gui_init-direction buffers i o h b = simp (draw_layout-direction, clear-direction lcd_config)

hd44780_init-direction :
    (config : Config) (b : Board) → (Hd44780.init config b).1.direction ≡ b.direction
unfolding Hd44780.init Hd44780.write_cmd Hd44780.write_byte Hd44780.clear
hd44780_init-direction config b = refl

i2c_init-direction :
    (env : Env) (addr : ℕ) (s : I2c) (b : Board) → (I2c.init env addr s b).1.direction ≡ b.direction
unfolding I2c.init
i2c_init-direction env addr s b = refl

bmp280_init-direction :
    (env : Env) (config : Bmp280.Config) (cal : Cal) (s : I2c) (b : Board)
    → (Bmp280.init (registers env) config cal s b).2.direction ≡ b.direction
unfolding Bmp280.init Bmp280.read_calibration_regs I2c.write I2c.read
bmp280_init-direction env config cal s b = ground arith

timer_init-direction :
    {S : Type 0} (callback : Callback S) (period : ℕ) (b : Board)
    → (Timer.init callback period b).1.direction ≡ b.direction
unfolding Timer.init
timer_init-direction callback period b = refl

sensors_init-direction :
    (b : Board)
    → b.direction ≡ display_pins
    → (Dht11.init dht11_pin (Onewire.init onewire_pin b)).direction ≡ display_pins
unfolding Dht11.init Dht11.turned Onewire.init Onewire.turned
sensors_init-direction b h = rw h

setup-direction : (b : Board) → (uart_setup (gpio_setup b)).direction ≡ display_pins
unfolding uart_setup gpio_setup
setup-direction b = refl

-- Nothing behind `gpio_setup` changes the word.
boot-direction_word :
    (env : Env) (buffers : Buffers) (d : Devices)
    → (boot env buffers d).0.devices.board.direction ≡ display_pins
unfolding boot
boot-direction_word env buffers d = simp (
  timer_init-direction,
  gui_init-direction,
  bmp280_init-direction,
  i2c_init-direction,
  sensors_init-direction (Hd44780.init lcd_config (uart_setup (gpio_setup d.board))).1
      (simp (hd44780_init-direction, setup-direction)),
)

-- The pins that a display with this configuration is driven by.
abbrev pub drives : Config → ℕ → Bool
drives config p =
    p == config.d4
    || p == config.d5
    || p == config.d6
    || p == config.d7
    || p == config.rs
    || p == config.e

drives-bit : (p : ℕ) → p < 32 → bit p display_pins ≡ (if drives lcd_config p then 1 else 0)
unfolding all_below
drives-bit = eq_below 32 (λ p. bit p display_pins) (λ p. if drives lcd_config p then 1 else 0) refl

-- Behind the start, whatever the sensors answer and whatever the direction word was, a pin of the
-- port is an output exactly if it is one of the six that the display is configured with; so the lines
-- of the two sensors are released.
pub boot-direction :
    (env : Env) (buffers : Buffers) (d : Devices) (p : ℕ)
    → p < 32
    → bit p (boot env buffers d).0.devices.board.direction ≡ (if drives lcd_config p then 1 else 0)
boot-direction env buffers d p h = rw (boot-direction_word env buffers d) (drives-bit p h)
