-- ===== src/Average/Humidity.antt =====
-- The humidity and the temperature of the humidity sensor in average.c: the erroneous measurements
-- leave no trace, and of the others the means are exact.
use quark_meteo_station.Base.{
  ℕ, suc, ◌+◌, ◌*◌, ◌/◌, ◌%◌, ◌^◌, ◌≤◌, ◌<◌, ◌≡◌, refl, arith, Bool, true, false, Option, some,
  none, List, [], ◌∷◌, length, All, ◌==◌, ◌||◌, if◌then◌else◌, Bool-cases, inl, inr,
}
use quark_meteo_station.Base.Int.{pos, ◌+ℤ◌, div_ℤ-pos}
use quark_meteo_station.Base.Word.{i32}
use quark_meteo_station.Dht11.{Meas, no_sensor_error, checksum_error}
use quark_meteo_station.Average.{Dht11Average, update_dht11, reset}

abbrev pub is_error : Meas → Bool
is_error m = m.temperature == no_sensor_error || m.temperature == checksum_error

-- The measurements without the erroneous ones.
abbrev pub valid : List Meas → List Meas
valid [] = []
valid (m ∷ ms) = if is_error m then valid ms else m ∷ valid ms

abbrev pub IsByte : Meas → Type 0
IsByte m = (m.temperature < 256) × (m.humidity < 256)

abbrev pub temperatures : List Meas → ℕ
temperatures [] = 0
temperatures (m ∷ ms) = temperatures ms + m.temperature

abbrev pub humidities : List Meas → ℕ
humidities [] = 0
humidities (m ∷ ms) = humidities ms + m.humidity

abbrev pub totals : List Meas → Dht11Average
totals ms = record {
  temp_sum = pos (temperatures ms);
  humid_sum = humidities ms;
  meas_num = length ms;
}

-- The average, which is the old one where there is nothing to average.
abbrev pub mean : Meas → List Meas → Meas
mean old [] = old
mean old (m ∷ ms) = record {
  temperature = temperatures (m ∷ ms) / length (m ∷ ms);
  humidity = humidities (m ∷ ms) / length (m ∷ ms);
}

-- What the module writes and keeps after these measurements since a reset, the newest first.
abbrev pub run : Meas → List Meas → Option (Meas × Dht11Average)
run old [] = some (old, reset.dht11)
run old (m ∷ ms) = elim (run old ms) [ none ↦ none | some (avg, sums) ↦ update_dht11 m avg sums ]

quotient-lt : (a n : ℕ) → a ≤ 255 * n → 0 < n → a / n < 256
quotient-lt a n h p = grind arith

totals-bound :
    (ms : List Meas)
    → All IsByte ms
    → (temperatures ms ≤ 255 * length ms) × (humidities ms ≤ 255 * length ms)
totals-bound [] h = (omega arith, omega arith)
totals-bound (m ∷ ms) (b, h) = omega (arith, totals-bound ms h)

valid-bytes : (ms : List Meas) → All IsByte ms → All IsByte (valid ms)
valid-bytes [] h = h
valid-bytes (m ∷ ms) (b, h) = elim (Bool-cases (is_error m)) [
  | inl e ↦ rw e (valid-bytes ms h)
  | inr e ↦ rw e (b, valid-bytes ms h)
]

length-valid : (ms : List Meas) → length (valid ms) ≤ length ms
length-valid [] = omega arith
length-valid (m ∷ ms) = elim (Bool-cases (is_error m)) [
  | inl e ↦ rw e (omega (arith, length-valid ms))
  | inr e ↦ rw e (omega (arith, length-valid ms))
]

update_dht11-totals :
    (m old : Meas) (ms : List Meas)
    → is_error m ≡ false
    → All IsByte (m ∷ ms)
    → length ms < 65535
    → update_dht11 m old (totals ms) ≡ some (mean old (m ∷ ms), totals (m ∷ ms))
unfolding update_dht11
update_dht11-totals m old ms e (b, bs) h =
    let (t, u) = totals-bound (m ∷ ms) (b, bs) in
    let n = suc (length ms) in
    let e₁ : i32 (pos (temperatures ms) +ℤ pos m.temperature)
        ≡ pos (temperatures ms + m.temperature) =
      unfold ◌+ℤ◌ in ground arith in
    let e₂ : (humidities ms + m.humidity) % 2 ^ 32 ≡ humidities ms + m.humidity = omega arith in
    let e₃ : (length ms + 1) % 2 ^ 16 ≡ n = omega arith in
    let e₄ : (n == 0) ≡ false = ground arith in
    let e₅ = div_ℤ-pos (temperatures (m ∷ ms)) n (omega arith) in
    let q₁ = quotient-lt (temperatures (m ∷ ms)) n t (omega arith) in
    let q₂ = quotient-lt (humidities (m ∷ ms)) n u (omega arith) in
    let e₆ : temperatures (m ∷ ms) / n % 2 ^ 8 ≡ temperatures (m ∷ ms) / n = omega arith in
    let e₇ : humidities (m ∷ ms) / n % 2 ^ 8 ≡ humidities (m ∷ ms) / n = omega arith in
    rw (e, e₁, e₂, e₃, e₄, e₅, e₆, e₇) refl

update_dht11-error :
    (m old : Meas) (sums : Dht11Average)
    → is_error m ≡ true
    → update_dht11 m old sums ≡ some (old, sums)
unfolding update_dht11
update_dht11-error m old sums e = rw e refl

-- A new measurement.
pub update_dht11-valid :
    (m old : Meas) (ms : List Meas)
    → All IsByte (m ∷ ms)
    → length ms < 65535
    → update_dht11 m (mean old (valid ms)) (totals (valid ms))
      ≡ some (mean old (valid (m ∷ ms)), totals (valid (m ∷ ms)))
update_dht11-valid m old ms (b, bs) h = elim (Bool-cases (is_error m)) [
  | inl e ↦ rw e (update_dht11-error m (mean old (valid ms)) (totals (valid ms)) e)
  | inr e ↦
      let few : length (valid ms) < 65535 = omega (arith, length-valid ms) in
      rw e (update_dht11-totals m (mean old (valid ms)) (valid ms) e (b, valid-bytes ms bs) few)
]

-- After a reset and any number of measurements of bytes up to 65535, the erroneous ones left out, no
-- sum has overflowed and the averages are the means, rounded down; where all are erroneous the old
-- average is left.
pub run-mean-valid :
    (old : Meas) (ms : List Meas)
    → All IsByte ms
    → length ms ≤ 65535
    → run old ms ≡ some (mean old (valid ms), totals (valid ms))
unfolding reset
run-mean-valid old [] b h = refl
run-mean-valid old (m ∷ ms) (b, bs) h =
    rw (run-mean-valid old ms bs (omega arith)) (update_dht11-valid m old ms (b, bs) (omega arith))
