-- ===== src/Timer/Interface.antt =====
-- timer.h: what the module offers to main.c, and that timer.c is one.
use quark_meteo_station.Base.{ℕ, ◌≡◌, refl}
use quark_meteo_station.Board.{Board}
use quark_meteo_station.Board.Untouched.{Silent, outputs}
use quark_meteo_station.Timer.{Callback, init}

-- Each interrupt does what the callback does, and the start sets no level and sends
-- nothing to the modem.
pub record PeriodicTimer : Type 1 where
  pub timer_init : {S : Type 0} → Callback S → ℕ → Board → Callback S × Board
  pub init-callback :
      {S : Type 0} (timer_callback : Callback S) (period_ms : ℕ) (b : Board) (s : S)
      → (timer_init timer_callback period_ms b).0 s ≡ timer_callback s
  pub init-Silent :
      {S : Type 0} (timer_callback : Callback S) (period_ms : ℕ) (b : Board)
      → Silent b (timer_init timer_callback period_ms b).1

pub init-callback :
    {S : Type 0} (timer_callback : Callback S) (period_ms : ℕ) (b : Board) (s : S)
    → (init timer_callback period_ms b).0 s ≡ timer_callback s
unfolding init
init-callback timer_callback period_ms b s = refl

pub init-Silent :
    {S : Type 0} (timer_callback : Callback S) (period_ms : ℕ) (b : Board)
    → Silent b (init timer_callback period_ms b).1
unfolding init outputs
init-Silent timer_callback period_ms b = refl

-- timer.c.
abbrev pub timer : PeriodicTimer
timer = record { timer_init = init; init-callback = init-callback; init-Silent = init-Silent }
