-- ===== src/Average/Running.antt =====
-- The sums that average.c keeps, and the averages that it writes, against the sums and the means of
-- the measurements since the last reset.
use quark_meteo_station.Base.{
  ℕ, suc, ◌+◌, ◌-◌, ◌%◌, ◌*◌, ◌/◌, ◌^◌, ◌≤◌, ◌<◌, ◌≡◌, arith, false, Option, some, none, List, [],
  ◌∷◌, length, ◌==◌,
}
use quark_meteo_station.Base.Int.{ℤ, pos, abs, abs-+ℤ, ◌+ℤ◌, div_ℤ}
use quark_meteo_station.Base.Word.{i32_of_small}
use quark_meteo_station.Bmp280.{Meas}
use quark_meteo_station.Average.{Bmp280Average, update_bmp280, reset}

-- A pressure of up to 2^20 Pa, a temperature of up to 2^19 hundredths of a degree either way.
abbrev pub IsUsual : Meas → Type 0
IsUsual m = (m.pressure ≤ 2 ^ 20) × (abs m.temperature ≤ 2 ^ 19)

abbrev pub AreUsual : List Meas → Type 0
AreUsual [] = 0 ≤ 0
AreUsual (m ∷ ms) = IsUsual m × AreUsual ms

abbrev pub temperatures : List Meas → ℤ
temperatures [] = pos 0
temperatures (m ∷ ms) = temperatures ms +ℤ m.temperature

abbrev pub pressures : List Meas → ℕ
pressures [] = 0
pressures (m ∷ ms) = pressures ms + m.pressure

-- The sums of the measurements, the newest first.
abbrev pub totals : List Meas → Bmp280Average
totals ms = record { temp_sum = temperatures ms; pres_sum = pressures ms; meas_num = length ms }

abbrev pub mean : List Meas → Meas
mean ms = record {
  pressure = pressures ms / length ms;
  temperature = div_ℤ (temperatures ms) (length ms);
}

-- The sums fit their 32 bits.
temperatures-bound : (ms : List Meas) → AreUsual ms → abs (temperatures ms) ≤ 2 ^ 19 * length ms
temperatures-bound [] u = omega arith
temperatures-bound (m ∷ ms) ((_, u), us) =
    omega (arith, temperatures-bound ms us, abs-+ℤ (temperatures ms) m.temperature)

pressures-bound : (ms : List Meas) → AreUsual ms → pressures ms ≤ 2 ^ 20 * length ms
pressures-bound [] u = omega arith
pressures-bound (m ∷ ms) ((u, _), us) = omega (arith, pressures-bound ms us)

-- A new measurement is added without overflow.
pub update_bmp280-totals :
    (m : Meas) (ms : List Meas)
    → AreUsual (m ∷ ms)
    → length ms < 4095
    → update_bmp280 m (totals ms) ≡ some (mean (m ∷ ms), totals (m ∷ ms))
unfolding update_bmp280
update_bmp280-totals m ms u h =
    let bound = temperatures-bound (m ∷ ms) u in
    let fits : abs (temperatures (m ∷ ms)) ≤ 2 ^ 31 - 1 = omega arith in
    let e₁ = i32_of_small (temperatures (m ∷ ms)) (ground arith) (ground arith) in
    let e₂ : (pressures ms + m.pressure) % 2 ^ 32 ≡ pressures ms + m.pressure =
      omega (arith, pressures-bound (m ∷ ms) u) in
    let e₃ : (length ms + 1) % 2 ^ 16 ≡ suc (length ms) = omega arith in
    let e₄ : (suc (length ms) == 0) ≡ false = ground arith in rw (e₁, e₂, e₃, e₄)

-- What the module writes and keeps after these measurements, the newest first.
abbrev pub run : List Meas → Meas → Option (Meas × Bmp280Average)
run [] m = update_bmp280 m reset.bmp280
run (m₁ ∷ ms) m = elim (run ms m₁) [ none ↦ none | some (_, avg) ↦ update_bmp280 m avg ]

-- After a reset and any number of measurements up to 4095, with pressures up to 2^20 Pa and
-- temperatures up to 2^19 hundredths of a degree either way, no sum has overflowed and the averages written are the means: the
-- exact sum over the number, rounded towards 0.
pub run-mean :
    (ms : List Meas) (m : Meas)
    → AreUsual (m ∷ ms)
    → length ms < 4095
    → run ms m ≡ some (mean (m ∷ ms), totals (m ∷ ms))
unfolding reset
run-mean [] m u h = update_bmp280-totals m [] u h
run-mean (m₁ ∷ ms) m (u, us) h =
    rw (run-mean ms m₁ us (omega arith)) (update_bmp280-totals m (m₁ ∷ ms) (u, us) h)
