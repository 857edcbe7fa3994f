-- ===== src/Average/Outdoor.antt =====
-- The outdoor temperature in average.c: from the sensor's sign and magnitude to one number of
-- hundredths of a degree, to the mean of these numbers, and back.
use quark_meteo_station.Base.{
  ℕ, suc, ◌+◌, ◌-◌, ◌*◌, ◌%◌, ◌^◌, ◌≤◌, ◌<◌, ◌≡◌, ◌≢◌, ◌↔◌, refl, arith, false, Option, some, none,
  List, [], ◌∷◌, length, All, ◌==◌,
}
use quark_meteo_station.Base.Int.{
  ℤ, pos, negsuc, neg, pos_part, neg_part, abs, abs-+ℤ, abs-div_ℤ-le, ◌+ℤ◌, div_ℤ, mod_ℤ,
}
use quark_meteo_station.Base.Word.{i16_of_small, i32_of_small}
use quark_meteo_station.Ds18b20.{Meas, Sign, positive, negative}
use quark_meteo_station.Average.{Ds18b20Average, hundredths, split, update_ds18b20, reset}

-- An average of 0 to 255.99 degrees is split so that its parts read the same again.
pub hundredths-split : (n : ℕ) → n < 25600 → hundredths (split (pos n)) ≡ pos n
unfolding hundredths split div_ℤ mod_ℤ
hundredths-split n h = ground arith

-- No average from -0.01 to -127.99 degrees is split so that its parts read the same again: the whole
-- degrees and the hundredths are negative when they are cut to bytes.
pub hundredths-split_negative : (n : ℕ) → n < 12799 → hundredths (split (negsuc n)) ≢ negsuc n
unfolding hundredths split div_ℤ mod_ℤ
hundredths-split_negative n h e = ground arith

-- A measurement of less than 128 degrees either way.
abbrev pub IsOutdoor : Meas → Type 0
IsOutdoor m = (m.integer < 128) × (m.fraction < 100)

-- The temperature that a sign and a magnitude stand for, in hundredths of a degree.
abbrev pub signed : Sign → ℕ → ℤ
signed positive n = pos n
signed negative n = neg (pos n)

abbrev pub value : Meas → ℤ
value m = signed m.sign (m.integer * 100 + m.fraction)

-- The exact sum of the measurements, and their number.
abbrev pub totals : List Meas → Ds18b20Average
totals [] = record { temp_sum = pos 0; meas_num = 0 }
totals (m ∷ ms) = record {
  temp_sum = (totals ms).temp_sum +ℤ value m;
  meas_num = suc ((totals ms).meas_num);
}

abbrev pub mean : List Meas → ℤ
mean ms = div_ℤ (totals ms).temp_sum (length ms)

-- What the module writes and keeps after these measurements since a reset, the newest first.
abbrev pub run : List Meas → Meas → Option (Meas × Ds18b20Average)
run [] m = update_ds18b20 m reset.ds18b20
run (m₁ ∷ ms) m = elim (run ms m₁) [ none ↦ none | some (_, sums) ↦ update_ds18b20 m sums ]

value-le : (m : Meas) → IsOutdoor m → abs (value m) ≤ 12799
value-le m (i, f) = ground arith

hundredths-value : (m : Meas) → IsOutdoor m → hundredths m ≡ value m
unfolding hundredths
hundredths-value m (i, f) = ground arith

totals-bound :
    (ms : List Meas)
    → All IsOutdoor ms
    → (abs (totals ms).temp_sum ≤ 12799 * length ms) × ((totals ms).meas_num ≡ length ms)
totals-bound [] b = (omega arith, refl)
totals-bound (m ∷ ms) (b, bs) =
    let (h, n) = totals-bound ms bs in
    (omega (arith, value-le m b, abs-+ℤ (totals ms).temp_sum (value m)), omega arith)

small16 : (a : ℤ) → abs a ≤ 12799 → (pos_part a < 2 ^ 15) × (neg_part a ≤ 2 ^ 15)
small16 a h = ground arith

small32 : (a : ℤ) → abs a ≤ 2 ^ 31 - 1 → (pos_part a < 2 ^ 31) × (neg_part a ≤ 2 ^ 31)
small32 a h = ground arith

mean-le : (m : Meas) (ms : List Meas) → All IsOutdoor (m ∷ ms) → abs (mean (m ∷ ms)) ≤ 12799
mean-le m ms b = abs-div_ℤ-le _ 12799 _ (totals-bound (m ∷ ms) b).0 (omega arith)

-- A new measurement is added without overflow.
pub update_ds18b20-totals :
    (m : Meas) (ms : List Meas)
    → All IsOutdoor (m ∷ ms)
    → length ms < 65535
    → update_ds18b20 m (totals ms) ≡ some (split (mean (m ∷ ms)), totals (m ∷ ms))
unfolding update_ds18b20
update_ds18b20-totals m ms b h =
    let (bound, n) = totals-bound (m ∷ ms) b in
    let sum = (totals (m ∷ ms)).temp_sum in
    let (lo, hi) = small32 sum (omega arith) in
    let e₀ = hundredths-value m b.0 in
    let e₁ = i32_of_small sum lo hi in
    let e₂ : (totals ms).meas_num ≡ length ms = omega arith in
    let e₃ : (length ms + 1) % 2 ^ 16 ≡ suc (length ms) = omega arith in
    let e₄ : (suc (length ms) == 0) ≡ false = ground arith in
    let (l, u) = small16 (mean (m ∷ ms)) (mean-le m ms b) in
    let e₅ = i16_of_small (mean (m ∷ ms)) l u in rw (e₀, e₁, e₂, e₃, e₄, e₅) refl

run-totals :
    (ms : List Meas) (m : Meas)
    → All IsOutdoor (m ∷ ms)
    → length ms < 65535
    → run ms m ≡ some (split (mean (m ∷ ms)), totals (m ∷ ms))
unfolding reset
run-totals [] m b h = update_ds18b20-totals m [] b h
run-totals (m₁ ∷ ms) m (b, bs) h =
    rw (run-totals ms m₁ bs (omega arith)) (update_ds18b20-totals m (m₁ ∷ ms) (b, bs) h)

-- A temperature below 128 degrees either way is what its parts stand for exactly if it is not negative.
split-value : (a : ℤ) → abs a ≤ 12799 → (value (split a) ≡ a) ↔ (neg_part a ≡ 0)
unfolding split div_ℤ mod_ℤ
split-value (pos n) h = (λ e. refl, λ e. ground arith)
split-value (negsuc n) h = (λ e. absurd (ground arith), λ e. absurd (omega arith))

-- After a reset and up to 65535 measurements below 128 degrees either way the sum has not overflowed,
-- and the parts of the exact mean, rounded towards 0, are written; the mean is what these parts
-- stand for exactly if it is not negative.
pub run-split-mean :
    (ms : List Meas) (m : Meas)
    → All IsOutdoor (m ∷ ms)
    → length ms < 65535
    → (run ms m ≡ some (split (mean (m ∷ ms)), totals (m ∷ ms)))
      × ((value (split (mean (m ∷ ms))) ≡ mean (m ∷ ms)) ↔ (neg_part (mean (m ∷ ms)) ≡ 0))
run-split-mean ms m b h = (run-totals ms m b h, split-value (mean (m ∷ ms)) (mean-le m ms b))
