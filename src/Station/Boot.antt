-- ===== src/Station/Boot.antt =====
-- main.c: what `main` does before its loop.
use Prim.Native.Nat.{bit_or}
use quark_meteo_station.Base.{ℕ, ◌+◌, ◌-◌, ◌*◌, ◌/◌, ◌^◌, ◌<◌, ◌≡◌, arith}
use quark_meteo_station.Base.Word.{u8, u16}
use quark_meteo_station.Board.{
  Board, Env, call, ◌▷◌, pmux_select, gpio_set_config, uart_set_config, periph_enable, rs_pin,
  e_pin, d4_pin, d5_pin, d6_pin, d7_pin, onewire_pin, dht11_pin, tx_pin, rx_pin,
}
use quark_meteo_station.Onewire
use quark_meteo_station.Dht11
use quark_meteo_station.I2c
use quark_meteo_station.I2c.Interface.{registers}
use quark_meteo_station.Bmp280
use quark_meteo_station.Bmp280.{
  addr_low, Config, control_bits, config_bits, mode_normal, pres_oversampling_x1,
  temp_oversampling_x1, stby_time_1s, filter_coeff_2,
}
use quark_meteo_station.Average
use quark_meteo_station.Average.{Pointers}
use quark_meteo_station.Average.Interface.{averaging}
use quark_meteo_station.Gui
use quark_meteo_station.Esp
use quark_meteo_station.Timer
use quark_meteo_station.Timer.{Callback}
use quark_meteo_station.Timer.Interface.{timer}
use quark_meteo_station.Station.{
  Measurements, Control, Devices, Machine, initial_control, timer_period, timer_callback,
}
use quark_meteo_station.Station.Firmware.{Buffers, lcd_config, lcd, firmware}
use quark_meteo_station.Station.Safety.{Reach, start}

abbrev pub uart_baud_rate : ℕ
uart_baud_rate = 9600

-- The bits of the six pins of the display.
abbrev pub display_pins : ℕ
display_pins =
    bit_or
      (bit_or (bit_or (bit_or (bit_or (2 ^ d7_pin) (2 ^ d6_pin)) (2 ^ d5_pin)) (2 ^ d4_pin))
        (2 ^ rs_pin))
      (2 ^ e_pin)

unfoldable pub gpio_setup : Board → Board
unfolding call
gpio_setup b =
    record (b
      ▷ call (pmux_select d7_pin 0)
      ▷ call (pmux_select d6_pin 0)
      ▷ call (pmux_select d5_pin 0)
      ▷ call (pmux_select d4_pin 0)
      ▷ call (pmux_select rs_pin 0)
      ▷ call (pmux_select e_pin 0)
      ▷ call (pmux_select onewire_pin 0)
      ▷ call (pmux_select dht11_pin 0)) { direction = display_pins }
    ▷ call (gpio_set_config display_pins)

-- `second_arg` and `third_arg`: a divider in sixteenths as a whole number and its sixteenths, each a
-- `uint8_t`.
unfoldable pub second_arg : ℕ → ℕ
second_arg divider = u8 (divider / 16)

unfoldable pub third_arg : ℕ → ℕ
unfolding second_arg
third_arg divider = u8 (divider - second_arg divider * 16)

-- The byte of the divisor's high part is 0. `QM_UART_CFG_BAUD_DL_PACK` lays the parts out.
unfoldable pub uart_setup : Board → Board
unfolding call second_arg third_arg
uart_setup b =
    let divider = u16 (32000000 / uart_baud_rate) in
    b
    ▷ call (pmux_select tx_pin 2)
    ▷ call (pmux_select rx_pin 2)
    ▷ call (uart_set_config (bit_or (second_arg divider * 2 ^ 8) (third_arg divider)))
    ▷ call (periph_enable (2 ^ 1 + 2 ^ 17))

abbrev pub bmp280_config : Config
bmp280_config = record {
  config_flags = bit_or (config_bits stby_time_1s) (config_bits filter_coeff_2);
  control_flags =
      bit_or (bit_or (control_bits mode_normal) (control_bits pres_oversampling_x1))
        (control_bits temp_oversampling_x1);
}

abbrev pub onewire_config : Onewire.Config
onewire_config = record { onewire_pin = onewire_pin }

abbrev pub dht11_config : Dht11.Config
dht11_config = record { dht11_pin = dht11_pin }

-- The pointers that `average_init` gets.
abbrev pub average_pointers : Pointers Measurements
average_pointers = record {
  bmp280_meas = λ m. m.indoor;
  ds18b20_meas = λ m. m.outdoor;
  dht11_meas = λ m. m.humid;
  write_bmp280_avg = λ avg m. record m { indoor_avg = avg };
  write_ds18b20_avg = λ avg m. record m { outdoor_avg = avg };
  dht11_meas_avg = λ m. m.humid_avg;
  write_dht11_avg = λ avg m. record m { humid_avg = avg };
}

-- The start of `main`, from what the memory of its variables holds; and what each interrupt of the
-- timer then does.
unfoldable pub boot : Env → Buffers → Devices → Machine × Callback Control
boot env buffers d =
    let (lcd_config', b₁) =
      (lcd buffers).hd44780_init lcd_config (d.board ▷ gpio_setup ▷ uart_setup) in
    let b₂ = b₁ ▷ Onewire.init onewire_config.onewire_pin ▷ Dht11.init dht11_config.dht11_pin in
    let (i2c, b₃) = I2c.init env addr_low d.i2c b₂ in
    let (cal, i2c', b₄) = Bmp280.init (registers env) bmp280_config d.cal i2c b₃ in
    let averages = Average.average_init average_pointers d.averages in
    let (gui, b₅) =
      Gui.init (lcd buffers) (λ (m : Measurements). m.indoor) (λ m. m.outdoor) (λ m. m.humid) b₄ in
    let esp =
      Esp.init (λ (m : Measurements). m.indoor_avg) (λ m. m.outdoor_avg) (λ m. m.humid_avg) in
    let (callback, b₆) = Timer.init timer_callback timer_period b₅ in
    (
      record {
        control = initial_control;
        devices = record d {
          board = b₆;
          i2c = i2c';
          cal = cal;
          averages = averages;
          gui = gui;
          esp = esp;
        };
      },
      callback,
    )

-- Every divider below 4096 sixteenths, so also that of 9600 baud, is split without loss: the two
-- bytes of the baud rate's divisor make it up again, and the second is below 16.
pub uart_args_exact :
    (divider : ℕ)
    → divider < 4096
    → (16 * second_arg divider + third_arg divider ≡ divider) × (third_arg divider < 16)
unfolding second_arg third_arg
uart_args_exact divider h = (omega arith, omega arith)

-- What `main` starts its loop with is a start of the interleavings, and each interrupt then does
-- what `timer_callback` does.
pub boot-Reach :
    (env : Env) (buffers : Buffers) (d : Devices)
    → Reach (firmware env buffers) (boot env buffers d).0
      × ((c : Control) → (boot env buffers d).1 c ≡ timer_callback c)
unfolding boot
boot-Reach env buffers d = (
  start (boot env buffers d).0.devices
      ((averaging {M = Measurements}).init-Counts average_pointers d.averages),
  λ c. timer.init-callback timer_callback timer_period _ c,
)
