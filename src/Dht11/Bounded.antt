-- ===== src/Dht11/Bounded.antt =====
-- No reading of the sensor samples its line more than a fixed number of times, whatever the line
-- does: the synchronising loop is bounded by its timeout.
use Prim.Native.Nat.{bit_or}
use quark_meteo_station.Base.{ℕ, zero, suc, ◌+◌, ◌*◌, ◌%◌, ◌^◌, ◌≤◌, ◌≡◌, arith, if◌then◌else◌}
use quark_meteo_station.Board.{Board, Env, read_pin, udelay}
use quark_meteo_station.Onewire.Read.{samples}
use quark_meteo_station.Dht11.{
  wait_low, sample_bit, retrieve, reset, get_measurement, synchro_loop_timeout,
}

module _ (env : Env) (pin : ℕ) where
  wait_low_bounded :
      (timeout : ℕ) (b : Board)
      → samples pin (wait_low env pin timeout b).log ≤ samples pin b.log + timeout
  unfolding wait_low samples
  wait_low_bounded zero b = omega arith
  wait_low_bounded (suc timeout) b = ground (arith, wait_low_bounded timeout (read_pin env pin b).1)

  sample_bit_bounded :
      (b : Board) → samples pin (sample_bit env pin b).1.log ≤ samples pin b.log + 1001
  unfolding sample_bit samples
  sample_bit_bounded b =
      ground (arith, wait_low_bounded synchro_loop_timeout (read_pin env pin (udelay 74 b)).1)

  retrieve_bounded :
      (left raw : ℕ) (b : Board)
      → samples pin (retrieve env pin left raw b).1.log ≤ samples pin b.log + left * 1001
  unfolding retrieve
  retrieve_bounded zero raw b = omega arith
  retrieve_bounded (suc left) raw b =
      let (x, b') = sample_bit env pin b in
      let shifted = raw * 2 % 2 ^ 64 in
      omega (
        arith,
        sample_bit_bounded b,
        retrieve_bounded left (if x then bit_or shifted 1 else shifted) b',
      )

  samples-reset : (b : Board) → samples pin (reset env pin b).1.log ≡ samples pin b.log + 1
  unfolding reset samples
  samples-reset b = ground arith

  -- `DHT11_get_measurement` returns after one sample for the reset and at most 1001 for each of the
  -- 40 bits, whatever the levels of the line are.
  pub get_measurement_bounded :
      (raw : ℕ) (b : Board)
      → samples pin (get_measurement env pin raw b).2.log ≤ samples pin b.log + 40041
  unfolding get_measurement
  get_measurement_bounded raw b =
      ground (arith, samples-reset b, retrieve_bounded 40 raw (reset env pin b).1)
