-- ===== src/Board.antt =====
-- The board as the firmware sees it: the calls that it makes into the board support package
-- (bsp/drivers, bsp/soc/quark_d2000/drivers), in order, and the answers that it gets.
--
-- The package itself is not modelled. A call is recorded; what a call returns is a parameter, `Env`,
-- which may depend on every call made before.
mod Pins
pub mod Untouched
pub use Pins.*
use quark_meteo_station.Base.{ℕ, Bool, List, [], ◌∷◌}

-- The calls that the firmware makes, with the arguments that matter. `gpio_set_config` carries the
-- direction word of the shared `qm_gpio_port_config_t`.
pub data Call : Type 0 where
  gpio_set_config : ℕ → Call
  gpio_set_pin_state : ℕ → Bool → Call
  gpio_clear_pin : ℕ → Call
  gpio_read_pin : ℕ → Call
  sys_udelay : ℕ → Call
  periph_enable : ℕ → Call
  pmux_select : ℕ → ℕ → Call
  uart_set_config : ℕ → Call
  uart_write_buffer : List ℕ → Call
  i2c_set_config : Call
  i2c_master_write : ℕ → List ℕ → Bool → Call
  i2c_master_read : ℕ → ℕ → Bool → Call
  pwm_set_config : ℕ → Call
  irq_request : Call
  pwm_start : Call

-- `direction` is the field of `gpio_config`, the one object that main.c, onewire.c and DHT11.c
-- share by pointer. `log` has the newest call first.
pub record Board : Type 0 where
  pub direction : ℕ
  pub log : List Call

-- What the calls of the package answer, after the calls in the list (newest first). A result other
-- than 0 of an I2C call is an error; `i2c_data` is what a read of so many bytes puts into the buffer.
pub record Env : Type 0 where
  pub pin_level : List Call → ℕ → Bool
  pub i2c_config_result : List Call → ℕ
  pub i2c_write_result : List Call → ℕ
  pub i2c_read_result : List Call → ℕ
  pub i2c_data : List Call → ℕ → List ℕ

infixl 3 ◌▷◌
-- One statement after another.
abbrev pub ◌▷◌ {ℓ κ} : {A : Type ℓ} {B : Type κ} → A → (A → B) → B
a ▷ f = f a

unfoldable pub call : Call → Board → Board
call c b = record b { log = c ∷ b.log }

-- `clk_sys_udelay`.
unfoldable pub udelay : ℕ → Board → Board
unfolding call
udelay us = call (sys_udelay us)

-- `qm_gpio_read_pin(QM_GPIO_0, pin, &response)`: the response is whether the level is high.
unfoldable pub read_pin : Env → ℕ → Board → Bool × Board
unfolding call
read_pin env pin b = (env.pin_level b.log pin, call (gpio_read_pin pin) b)
