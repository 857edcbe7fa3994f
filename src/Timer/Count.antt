-- ===== src/Timer/Count.antt =====
-- The count of the timer for every period.
use quark_meteo_station.Base.{ℕ, ◌+◌, ◌*◌, ◌^◌, ◌<◌, ◌≡◌, arith}
use quark_meteo_station.Timer.{lo_count, trimming_value}

-- For every `uint16_t` number of milliseconds the count is exact, 32000 cycles for each millisecond
-- and the trimming value: it never wraps at 32 bits.
pub lo_count_exact :
    (period_ms : ℕ) → period_ms < 2 ^ 16 → lo_count period_ms ≡ 32000 * period_ms + trimming_value
unfolding lo_count
lo_count_exact period_ms h = omega arith
