-- ===== src/Station/Ready.antt =====
-- The start of main.c makes the station ready, and the first hour runs.
use quark_meteo_station.Base.{ℕ, ◌<◌, ◌≡◌, ◌≢◌, refl, ap, ◌∙◌, arith, some, List}
use quark_meteo_station.Board.{Board, Env, ◌▷◌, onewire_pin, dht11_pin}
use quark_meteo_station.Board.Untouched.{Untouched, Silent, outputs, Silent-Untouched}
use quark_meteo_station.Hd44780.Bus.{Msg, Shows}
use quark_meteo_station.Onewire
use quark_meteo_station.Onewire.Interface as OnewireInterface
use quark_meteo_station.Dht11
use quark_meteo_station.Dht11.Interface as Dht11Interface
use quark_meteo_station.I2c
use quark_meteo_station.I2c.Interface as I2cInterface
use quark_meteo_station.I2c.Interface.{registers}
use quark_meteo_station.Bmp280
use quark_meteo_station.Bmp280.{addr_low}
use quark_meteo_station.Bmp280.Interface as Bmp280Interface
use quark_meteo_station.Average
use quark_meteo_station.Average.Interface.{averaging}
use quark_meteo_station.Gui
use quark_meteo_station.Timer.Interface.{timer}
use quark_meteo_station.Station.{
  get_measurement, send_data, initial_control, timer_period, timer_callback, Measurements, Devices,
  Machine, loop_body,
}
use quark_meteo_station.Station.Firmware.{Buffers, lcd, lcd_config, firmware}
use quark_meteo_station.Station.Boot.{
  average_pointers, gpio_setup, uart_setup, bmp280_config, onewire_config, dht11_config, boot,
}
use quark_meteo_station.Station.Cycle.{loop_body-round, round}
use quark_meteo_station.Station.Counts.{IsWithin, update_cycle-count}
use quark_meteo_station.Station.Period.{state_at, Ran, Ran-state_at}
use quark_meteo_station.Average.Mild.{AreBytes}
use quark_meteo_station.Station.Progress.{IsReady}
use quark_meteo_station.Station.Runs.{loop_body-asked, update_cycle-Returns, seconds-Returns}

setup-Silent : (b : Board) → Silent b (uart_setup (gpio_setup b))
unfolding uart_setup gpio_setup outputs
setup-Silent b = refl

-- The sensors' part of the start.
abbrev sensors_board : Env → Devices → Board → Board
sensors_board env d b =
    let b₁ = b ▷ Onewire.init onewire_pin ▷ Dht11.init dht11_pin in
    let (i2c, b₂) = I2c.init env addr_low d.i2c b₁ in
    (Bmp280.init (registers env) bmp280_config d.cal i2c b₂).2

sensors-Silent : (env : Env) (d : Devices) (b : Board) → Silent b (sensors_board env d b)
sensors-Silent env d b =
    let b₁ = Onewire.init onewire_pin b in
    let b₂ = Dht11.init dht11_pin b₁ in
    let (i2c, b₃) = I2c.init env addr_low d.i2c b₂ in
    Bmp280Interface.init-Silent (registers env) bmp280_config d.cal i2c b₃
    ∙ I2cInterface.init-Silent env addr_low d.i2c b₂
    ∙ Dht11Interface.init-Silent dht11_config b₁
    ∙ OnewireInterface.init-Silent onewire_config b

timer-Untouched : (b : Board) → Untouched b (timer.timer_init timer_callback timer_period b).1
timer-Untouched b =
    Silent-Untouched b (timer.timer_init timer_callback timer_period b).1
      (timer.init-Silent timer_callback timer_period b)

module _ (env : Env) (buffers : Buffers) (d : Devices) {ms : List Msg}
    (waits : Shows lcd_config d.board ms) (bytes : AreBytes d.meas.outdoor) where
  pub boot-IsReady : IsReady (firmware env buffers) (boot env buffers d).0.devices
  unfolding boot Gui.init Average.average_init Average.average_reset
  boot-IsReady =
      let screen = (firmware env buffers).screen in
      let b₁ = uart_setup (gpio_setup d.board) in
      let s₁ =
        (lcd buffers).Untouched-Shows (Silent-Untouched d.board b₁ (setup-Silent d.board)) waits in
      let (_, (ms', started, right)) = (lcd buffers).init-Shows b₁ s₁ in
      let s₂ : screen.IsReady ((lcd buffers).hd44780_init lcd_config b₁).1 =
        (ms', started, right refl) in
      let b₂ = ((lcd buffers).hd44780_init lcd_config b₁).1 in
      let s₃ =
        screen.Untouched-IsReady
          (Silent-Untouched b₂ (sensors_board env d b₂) (sensors-Silent env d b₂)) s₂ in
      let s₄ =
        screen.init-IsReady (λ (m : Measurements). m.indoor) (λ m. m.outdoor) (λ m. m.humid) _ s₃ in
      record {
        screen_ready = screen.Untouched-IsReady (timer-Untouched _) s₄;
        gui = refl;
        pointers = refl;
        bytes = bytes;
      }

  pub boot-IsWithin : IsWithin 0 (boot env buffers d).0.devices.averages.sums
  unfolding boot
  boot-IsWithin = (averaging {M = Measurements}).init-Counts average_pointers d.averages

  -- The first round.
  first-Returns :
      (m : Machine) × (loop_body (firmware env buffers) (boot env buffers d).0 ≡ some m)
      × (m.control ≡ state_at get_measurement 0)
      × IsReady (firmware env buffers) m.devices
      × IsWithin 1 m.devices.averages.sums
  first-Returns =
      let parts = firmware env buffers in
      let m₀ = (boot env buffers d).0 in
      let start : m₀.control ≡ initial_control = unfold boot in refl in
      let ne : m₀.control.esp_state ≢ send_data = rw start (λ e. ground arith) in
      let (m, e, r) = update_cycle-Returns parts m₀ 0 boot-IsReady boot-IsWithin (omega arith) ne in
      let step : loop_body parts m₀ ≡ some m =
        loop_body-asked parts m₀ (ap (λ c. c.update_state) start) ∙ e in
      let count = update_cycle-count parts m₀ m 0 boot-IsWithin (omega arith) e in
      (m, step, loop_body-round parts m₀ step ∙ ap round start, r, rw start at count)

  -- The station does not stall in its first hour. Where the display has taken every byte sent to it
  -- before, and the memory of the outdoor measurement holds bytes: after the start of `main` the first
  -- round of the loop returns, and so does, for every number of seconds below 3600, the round after each
  -- second's interrupt, whatever the sensors answer; the control state is then the table's.
  pub boot-Returns :
      (t : ℕ)
      → t < 3600
      → (m m' : Machine) × (loop_body (firmware env buffers) (boot env buffers d).0 ≡ some m)
        × Ran (firmware env buffers) t m m'
        × (m'.control ≡ state_at get_measurement t)
  boot-Returns t h =
      let parts = firmware env buffers in
      let (m, step, at, r, c) = first-Returns in
      let (m', ran, _, _) = seconds-Returns parts get_measurement t m h at r c in
      (m, m', step, ran, Ran-state_at parts get_measurement t h at ran)
