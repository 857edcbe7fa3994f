-- ===== src/Bmp280/Accuracy.antt =====
-- The temperature that BMP280.c computes against the quadratic formula that it approximates.
use quark_meteo_station.Base.{ℕ, ◌-◌, ◌*◌, ◌/◌, ◌^◌, ◌≤◌, ◌<◌, ◌≡◌, ap, ◌∙◌, arith}
use quark_meteo_station.Base.Int.{ℤ, pos, abs, sub_ℕ, eq_of_parts, +ℤ_parts, ◌+ℤ◌, ◌*ℤ◌, shr_ℤ}
use quark_meteo_station.Base.Int.Near.{
  Near, Near-trans, Near-le, Near-+ℤ, Near-*ℤ, *ℤ_comm, *ℤ_right_comm, *ℤ_assoc_pos, *ℤ-pos_part,
  *ℤ-neg_part, shr_ℤ-floor, shr_ℤ-Near,
}
use quark_meteo_station.Base.Word.{signed16}
use quark_meteo_station.Bmp280.{t1, t2, t3, Cal, word, compute_compensation}
use quark_meteo_station.Bmp280.Exact.{
  eighths, sixteenths, slope, bend, fine, centidegrees, IsUsual, abs-*ℤ-le, abs-signed16, word-lt,
  sixteenths-le, temperature_of-centidegrees,
}

-- The term of the first degree.
slope-Near :
    (y e s : ℤ)
    → Near (e *ℤ pos 8) y 7
    → abs s ≤ 2 ^ 15
    → Near (shr_ℤ (e *ℤ s) 11 *ℤ pos (2 ^ 34)) (y *ℤ s *ℤ pos (2 ^ 20)) (15 * 2 ^ 34)
slope-Near y e s near h =
    let a = shr_ℤ (e *ℤ s) 11 in
    let cut = Near-*ℤ (pos 8) 8 (shr_ℤ-Near (e *ℤ s) 11 (omega arith)) (omega arith) in
    let far = Near-*ℤ s (2 ^ 15) near h in
    let cut' : Near (a *ℤ pos (2 ^ 14)) (e *ℤ pos 8 *ℤ s) (2 ^ 14) =
      rw (*ℤ_assoc_pos a (2 ^ 11) 8, *ℤ_right_comm e s (pos 8)) at cut in
    let both = Near-trans cut' far in
    rw (*ℤ_assoc_pos a (2 ^ 14) (2 ^ 20)) at (Near-*ℤ (pos (2 ^ 20)) (2 ^ 20) both (omega arith))

-- The square of the distance.
square-Near :
    (y o : ℤ)
    → Near (o *ℤ pos 16) y 15
    → abs o ≤ 2 ^ 15
    → abs y ≤ 2 ^ 19
    → Near (o *ℤ o *ℤ pos (2 ^ 8)) (y *ℤ y) (15 * 2 ^ 20)
square-Near y o near h k =
    let z = o *ℤ pos 16 in
    let small = abs-*ℤ-le o (pos 16) (2 ^ 15) 16 h (omega arith) in
    let square : z *ℤ z ≡ o *ℤ o *ℤ pos (2 ^ 8) =
      *ℤ_right_comm o (pos 16) z
      ∙ ap (λ x. x *ℤ pos 16) (*ℤ_comm o z ∙ *ℤ_right_comm o (pos 16) o)
      ∙ *ℤ_assoc_pos (o *ℤ o) 16 16 in
    let first = Near-*ℤ z (2 ^ 19) near (omega (arith, small)) in
    let second : Near (y *ℤ z) (y *ℤ y) (15 * 2 ^ 19) =
      rw (*ℤ_comm y z) (Near-*ℤ y (2 ^ 19) near k) in
    rw square at (Near-trans first second)

-- The term of the second degree.
bend-Near :
    (y o t : ℤ)
    → Near (o *ℤ pos 16) y 15
    → abs o ≤ 2 ^ 15
    → abs y ≤ 2 ^ 19
    → abs t < 2 ^ 13
    → Near (shr_ℤ (shr_ℤ (o *ℤ o) 12 *ℤ t) 14 *ℤ pos (2 ^ 34)) (y *ℤ y *ℤ t) (9 * 2 ^ 34)
bend-Near y o t near h k l =
    let q = shr_ℤ (o *ℤ o) 12 in
    let b = shr_ℤ (q *ℤ t) 14 in
    let cut : Near (q *ℤ pos (2 ^ 20)) (o *ℤ o *ℤ pos (2 ^ 8)) (2 ^ 20) =
      rw (*ℤ_assoc_pos q (2 ^ 12) (2 ^ 8)) at
        (Near-*ℤ (pos (2 ^ 8)) (2 ^ 8) (shr_ℤ-Near (o *ℤ o) 12 (omega arith)) (omega arith)) in
    let far = Near-*ℤ t (2 ^ 13 - 1) (Near-trans cut (square-Near y o near h k)) (omega arith) in
    let last : Near (b *ℤ pos (2 ^ 34)) (q *ℤ pos (2 ^ 20) *ℤ t) (2 ^ 34) =
      rw (*ℤ_assoc_pos b (2 ^ 14) (2 ^ 20), *ℤ_right_comm q t (pos (2 ^ 20))) at
        (Near-*ℤ (pos (2 ^ 20)) (2 ^ 20) (shr_ℤ-Near (q *ℤ t) 14 (omega arith)) (omega arith)) in
    Near-le (omega arith) (Near-trans last far)

-- How far a reading is from the first calibration word, in the reading's own units.
abbrev pub distance : Cal → ℕ → ℤ
distance cal raw = sub_ℕ raw (16 * word cal t1)

-- The formula: 2^34 times the value that `t_fine` approximates.
abbrev pub quadratic : Cal → ℕ → ℤ
quadratic cal raw =
    let y = distance cal raw in
    y *ℤ signed16 (word cal t2) *ℤ pos (2 ^ 20) +ℤ y *ℤ y *ℤ signed16 (word cal t3)

eighths-Near : (r t : ℕ) → Near (sub_ℕ (r / 2 ^ 3) (2 * t) *ℤ pos 8) (sub_ℕ r (16 * t)) 7
eighths-Near r t =
    let e = sub_ℕ (r / 2 ^ 3) (2 * t) in
    ground (arith, *ℤ-pos_part e (pos 8), *ℤ-neg_part e (pos 8))

sixteenths-Near : (r t : ℕ) → Near (sub_ℕ (r / 2 ^ 4) t *ℤ pos 16) (sub_ℕ r (16 * t)) 15
sixteenths-Near r t =
    let e = sub_ℕ (r / 2 ^ 4) t in ground (arith, *ℤ-pos_part e (pos 16), *ℤ-neg_part e (pos 16))

distance-le : (r t : ℕ) → abs (sub_ℕ (r / 2 ^ 3) (2 * t)) < 2 ^ 16 → abs (sub_ℕ r (16 * t)) ≤ 2 ^ 19
distance-le r t h = ground arith

-- Hundredths of a degree by the shift, from the value that is shifted.
centidegrees-Near : (f : ℤ) → Near (centidegrees f *ℤ pos (2 ^ 8)) (f *ℤ pos 5) 128
centidegrees-Near f =
    let z = f *ℤ pos 5 +ℤ pos 128 in
    omega (arith, shr_ℤ-floor z 8 (omega arith), +ℤ_parts (f *ℤ pos 5) (pos 128))

sum_scaled : (a b : ℤ) → (a +ℤ b) *ℤ pos (2 ^ 34) ≡ a *ℤ pos (2 ^ 34) +ℤ b *ℤ pos (2 ^ 34)
sum_scaled a b =
    let n = pos (2 ^ 34) in
    eq_of_parts ((a +ℤ b) *ℤ n) (a *ℤ n +ℤ b *ℤ n) (
      omega (
        arith,
        +ℤ_parts a b,
        +ℤ_parts (a *ℤ n) (b *ℤ n),
        *ℤ-pos_part (a +ℤ b) n,
        *ℤ-neg_part (a +ℤ b) n,
        *ℤ-pos_part a n,
        *ℤ-neg_part a n,
        *ℤ-pos_part b n,
        *ℤ-neg_part b n,
      ))

module _ (cal : Cal) (raw : ℕ) (u : IsUsual cal raw) where
  fine-Near : Near (fine cal raw *ℤ pos (2 ^ 34)) (quadratic cal raw) (24 * 2 ^ 34)
  fine-Near =
      let y = distance cal raw in
      let e = eighths cal raw in
      let o = sixteenths cal raw in
      let s₂ = abs-signed16 (word cal t2) (word-lt cal t2 u.bytes) in
      let near = sixteenths-le raw (word cal t1) u.distance in
      let far = distance-le raw (word cal t1) u.distance in
      let first = slope-Near y e (signed16 (word cal t2)) (eighths-Near raw (word cal t1)) s₂ in
      let second =
        bend-Near y o (signed16 (word cal t3)) (sixteenths-Near raw (word cal t1)) near far
          u.bent in
      rw (sum_scaled (slope cal raw) (bend cal raw)) (Near-+ℤ first second)

  -- Where the calibration is of bytes, the reading of 20 bits, an eighth of it less than 2^16 from twice
  -- the first calibration word, and the third word less than 2^13 either way: the computed temperature
  -- is, in hundredths of a degree, less than one from the exact value of the quadratic formula, which is
  -- 5 / 2^42 of `quadratic`.
  pub compute_compensation-Near :
      (raw_pressure : ℕ)
      → Near
          ((compute_compensation cal raw_pressure raw).temperature *ℤ pos (2 ^ 42))
          (quadratic cal raw *ℤ pos 5)
          (2 ^ 42 - 1)
  unfolding compute_compensation
  compute_compensation-Near raw_pressure =
      let f = fine cal raw in
      let t = centidegrees f in
      let rounded : Near (t *ℤ pos (2 ^ 42)) (f *ℤ pos (2 ^ 34) *ℤ pos 5) (128 * 2 ^ 34) =
        rw (*ℤ_assoc_pos t (2 ^ 8) (2 ^ 34), *ℤ_right_comm f (pos 5) (pos (2 ^ 34))) at
          (Near-*ℤ (pos (2 ^ 34)) (2 ^ 34) (centidegrees-Near f) (omega arith)) in
      let exact = Near-*ℤ (pos 5) 5 fine-Near (omega arith) in
      rw (temperature_of-centidegrees cal raw u) (Near-le (omega arith) (Near-trans rounded exact))
