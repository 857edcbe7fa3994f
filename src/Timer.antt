-- ===== src/Timer.antt =====
-- timer.c: the periodic timer on PWM channel 1.
pub mod Count
pub mod Interface
use quark_meteo_station.Base.{ℕ, ◌+◌, ◌*◌, ◌/◌, ◌^◌}
use quark_meteo_station.Base.Word.{u32}
use quark_meteo_station.Board.{
  Board, call, ◌▷◌, pwm_set_config, periph_enable, irq_request, pwm_start,
}

abbrev pub quark_xtal_freq : ℕ
quark_xtal_freq = 32000000

abbrev pub miliseconds_in_second : ℕ
miliseconds_in_second = 1000

abbrev pub trimming_value : ℕ
trimming_value = 325000

-- `lo_count`, in clock cycles, in 32-bit arithmetic.
unfoldable pub lo_count : ℕ → ℕ
lo_count period_ms =
    u32 (u32 (quark_xtal_freq / miliseconds_in_second * period_ms) + trimming_value)

-- `callback`, on the state that the callback changes.
abbrev pub Callback : Type 0 → Type 0
Callback S = S → S

-- What the interrupt's routine calls.
unfoldable pub callback_wrapper {ℓ} : {S : Type ℓ} → (S → S) → S → S
callback_wrapper callback s = callback s

-- The interrupt is then unmasked and its routine installed. The result has what each interrupt does.
unfoldable pub init : {S : Type 0} → Callback S → ℕ → Board → Callback S × Board
unfolding lo_count call callback_wrapper
init timer_callback period_ms b =
    let callback = timer_callback in
    (
      callback_wrapper callback,
      b
          ▷ call (pwm_set_config (lo_count period_ms))
          ▷ call (periph_enable (2 ^ 1 + 2 ^ 12))
          ▷ call irq_request
          ▷ call pwm_start,
    )
