-- ===== src/Bmp280/Exact.antt =====
-- The temperature part of the compensation in BMP280.c against the same formula on integers of any
-- size: where no step of it overflows.
use native.Mathlib.Nat.{div-lt_iff_lt-mul, suc-mul}
use quark_meteo_station.Base.{
  ℕ, zero, suc, ◌+◌, ◌-◌, ◌*◌, ◌/◌, ◌^◌, ◌≤◌, ◌<◌, ◌≡◌, refl, ap, ◌∙◌, arith, List, [], ◌∷◌, All,
  get_or,
}
use quark_meteo_station.Base.Int.{
  ℤ, pos, negsuc, pos_part, neg_part, abs, abs-+ℤ, sub_ℕ, ◌+ℤ◌, ◌*ℤ◌, shr_ℤ,
}
use quark_meteo_station.Base.Word.{
  u32_of, signed16, signed32, add32, sub32, mul32, shl32, sar32, sext16, i32_of_small,
}
use quark_meteo_station.Base.Word.Signed.{
  add32-u32_of, sub32-sub_ℕ, mul32-u32_of, sar32-u32_of, sext16-signed16,
}
use quark_meteo_station.Bmp280.{CalWord, t1, t2, t3, place, Cal, word, t_fine_of, temperature_of}

-- The formula on integers: the distance of the reading from the first calibration word, in eighths
-- and in sixteenths, and two terms of it.
abbrev pub eighths : Cal → ℕ → ℤ
eighths cal raw = sub_ℕ (raw / 2 ^ 3) (2 * word cal t1)

abbrev pub sixteenths : Cal → ℕ → ℤ
sixteenths cal raw = sub_ℕ (raw / 2 ^ 4) (word cal t1)

abbrev pub slope : Cal → ℕ → ℤ
slope cal raw = shr_ℤ (eighths cal raw *ℤ signed16 (word cal t2)) 11

abbrev pub bend : Cal → ℕ → ℤ
bend cal raw =
    let off = sixteenths cal raw in shr_ℤ (shr_ℤ (off *ℤ off) 12 *ℤ signed16 (word cal t3)) 14

abbrev pub fine : Cal → ℕ → ℤ
fine cal raw = slope cal raw +ℤ bend cal raw

abbrev pub centidegrees : ℤ → ℤ
centidegrees t = shr_ℤ (t *ℤ pos 5 +ℤ pos 128) 8

abbrev pub AreCalBytes : Cal → Type 0
AreCalBytes cal = All (λ c. c < 256) cal

get_or-lt : (bytes : List ℕ) (i : ℕ) → All (λ c. c < 256) bytes → get_or bytes i 0 < 256
get_or-lt [] i h = omega arith
get_or-lt (c ∷ bytes) zero h = h.0
get_or-lt (c ∷ bytes) (suc i) h = get_or-lt bytes i h.1

pub word-lt : (cal : Cal) (w : CalWord) → AreCalBytes cal → word cal w < 2 ^ 16
word-lt cal w h =
    let lo = get_or-lt cal (2 * place w) h in
    let hi = get_or-lt cal (2 * place w + 1) h in omega arith

pub abs-signed16 : (w : ℕ) → w < 2 ^ 16 → abs (signed16 w) ≤ 2 ^ 15
abs-signed16 w h = ground arith

-- Bounds on products and shifts.
abs-*ℤ : (a b : ℤ) → abs (a *ℤ b) ≡ abs a * abs b
unfolding ◌*ℤ◌
abs-*ℤ (pos a) (pos b) = refl
abs-*ℤ (pos a) (negsuc b) = ground arith
abs-*ℤ (negsuc a) (pos b) = ground arith
abs-*ℤ (negsuc a) (negsuc b) = refl

pub abs-*ℤ-le : (a b : ℤ) (m n : ℕ) → abs a ≤ m → abs b ≤ n → abs (a *ℤ b) ≤ m * n
abs-*ℤ-le a b m n h k = rw (abs-*ℤ a b) (grind arith)

abs-shr_ℤ-le : (a : ℤ) (k n : ℕ) → 0 < 2 ^ k → abs a ≤ n * 2 ^ k → abs (shr_ℤ a k) ≤ n
unfolding shr_ℤ
abs-shr_ℤ-le (pos a) k n p h =
    let low : a / 2 ^ k < suc n = (div-lt_iff_lt-mul p).1 (omega (arith, suc-mul n (2 ^ k))) in
    omega arith
abs-shr_ℤ-le (negsuc a) k n p h = (div-lt_iff_lt-mul p).1 h

-- The readings as signed values.
sar32-raw : (raw k : ℕ) → raw < 2 ^ 20 → sar32 raw k ≡ raw / 2 ^ k
unfolding sar32
sar32-raw raw k h = ground arith

shl32-word : (w : ℕ) → w < 2 ^ 16 → shl32 w 1 ≡ 2 * w
unfolding shl32
shl32-word w h = omega arith

pub sixteenths-le :
    (r t : ℕ) → abs (sub_ℕ (r / 2 ^ 3) (2 * t)) < 2 ^ 16 → abs (sub_ℕ (r / 2 ^ 4) t) ≤ 2 ^ 15
sixteenths-le r t h = ground arith

-- What is known of the calibration words and the reading.
pub record IsUsual (cal : Cal) (raw : ℕ) : Type 0 where
  pub bytes : AreCalBytes cal
  pub reading : raw < 2 ^ 20
  pub distance : abs (eighths cal raw) < 2 ^ 16
  pub bent : abs (signed16 (word cal t3)) < 2 ^ 13

-- The two terms, on patterns and on integers, and their bounds.
module _ (e s : ℤ) (he : abs e < 2 ^ 16) (hs : abs s ≤ 2 ^ 15) where
  product-le : abs (e *ℤ s) ≤ 2 ^ 31 - 2 ^ 15
  product-le = abs-*ℤ-le e s (2 ^ 16 - 1) (2 ^ 15) (omega arith) hs

  slope-pattern : sar32 (mul32 (u32_of e) (u32_of s)) 11 ≡ u32_of (shr_ℤ (e *ℤ s) 11)
  slope-pattern =
      let m = mul32-u32_of e s (omega arith) (omega arith) (omega (arith, product-le)) in
      ap (λ w. sar32 w 11) m ∙ sar32-u32_of (e *ℤ s) 11 (omega (arith, product-le))

  slope-le : abs (shr_ℤ (e *ℤ s) 11) ≤ 2 ^ 20
  slope-le = abs-shr_ℤ-le (e *ℤ s) 11 (2 ^ 20) (omega arith) (omega (arith, product-le))

module _ (o s : ℤ) (ho : abs o ≤ 2 ^ 15) (hs : abs s < 2 ^ 13) where
  square-le : abs (o *ℤ o) ≤ 2 ^ 30
  square-le = abs-*ℤ-le o o (2 ^ 15) (2 ^ 15) ho ho

  reduced-le : abs (shr_ℤ (o *ℤ o) 12) ≤ 2 ^ 18
  reduced-le = abs-shr_ℤ-le (o *ℤ o) 12 (2 ^ 18) (omega arith) (omega (arith, square-le))

  bent-le : abs (shr_ℤ (o *ℤ o) 12 *ℤ s) ≤ 2 ^ 31 - 2 ^ 18
  bent-le = abs-*ℤ-le (shr_ℤ (o *ℤ o) 12) s (2 ^ 18) (2 ^ 13 - 1) reduced-le (omega arith)

  bend-pattern :
      sar32 (mul32 (sar32 (mul32 (u32_of o) (u32_of o)) 12) (u32_of s)) 14
      ≡ u32_of (shr_ℤ (shr_ℤ (o *ℤ o) 12 *ℤ s) 14)
  bend-pattern =
      let q = shr_ℤ (o *ℤ o) 12 in
      let m = mul32-u32_of o o (omega arith) (omega arith) (omega (arith, square-le)) in
      let r = ap (λ w. sar32 w 12) m ∙ sar32-u32_of (o *ℤ o) 12 (omega (arith, square-le)) in
      let n = mul32-u32_of q s (omega (arith, reduced-le)) (omega arith) (omega (arith, bent-le)) in
      ap (λ w. sar32 (mul32 w (u32_of s)) 14) r
      ∙ ap (λ w. sar32 w 14) n
      ∙ sar32-u32_of (q *ℤ s) 14 (omega (arith, bent-le))

  bend-le : abs (shr_ℤ (shr_ℤ (o *ℤ o) 12 *ℤ s) 14) ≤ 2 ^ 17
  bend-le = abs-shr_ℤ-le (shr_ℤ (o *ℤ o) 12 *ℤ s) 14 (2 ^ 17) (omega arith) (omega (arith, bent-le))

parts-lt : (a : ℤ) → abs a < 2 ^ 31 → (pos_part a < 2 ^ 31) × (neg_part a ≤ 2 ^ 31)
parts-lt a h = ground arith

-- The conversion to hundredths of a degree.
centidegrees-pattern :
    (f : ℤ) → abs f ≤ 2 ^ 21 → signed32 (sar32 (add32 (mul32 (u32_of f) 5) 128) 8) ≡ centidegrees f
centidegrees-pattern f h =
    let p = abs-*ℤ-le f (pos 5) (2 ^ 21) 5 h (omega arith) in
    let q = abs-+ℤ (f *ℤ pos 5) (pos 128) in
    let z = f *ℤ pos 5 +ℤ pos 128 in
    let m = mul32-u32_of f (pos 5) (omega arith) (omega arith) (omega (arith, p)) in
    let n = add32-u32_of (f *ℤ pos 5) (pos 128) (omega (arith, p)) (omega arith) in
    let r = sar32-u32_of z 8 (omega (arith, p, q)) in
    let small = abs-shr_ℤ-le z 8 (2 ^ 17) (omega arith) (omega (arith, p, q)) in
    let (lo, hi) = parts-lt (shr_ℤ z 8) (omega (arith, small)) in
    ap (λ w. signed32 (sar32 (add32 w 128) 8)) m
    ∙ ap (λ w. signed32 (sar32 w 8)) n
    ∙ ap signed32 r
    ∙ i32_of_small (shr_ℤ z 8) lo hi

-- The code's steps, with their operations shut.
t_fine_of_lem :
    (cal : Cal) (raw : ℕ)
    → let off = sub32 (sar32 raw 4) (word cal t1) in
      let e = sub32 (sar32 raw 3) (shl32 (word cal t1) 1) in
      t_fine_of cal raw
      ≡ add32
          (sar32 (mul32 e (sext16 (word cal t2))) 11)
          (sar32 (mul32 (sar32 (mul32 off off) 12) (sext16 (word cal t3))) 14)
unfolding t_fine_of
t_fine_of_lem cal raw = refl

temperature_of_lem :
    (t_fine : ℕ)
    → signed32 (temperature_of t_fine) ≡ signed32 (sar32 (add32 (mul32 t_fine 5) 128) 8)
unfolding temperature_of
temperature_of_lem t_fine = refl

module _ (cal : Cal) (raw : ℕ) (u : IsUsual cal raw) where
  w₁ : word cal t1 < 2 ^ 16
  w₁ = word-lt cal t1 u.bytes

  s₂ : abs (signed16 (word cal t2)) ≤ 2 ^ 15
  s₂ = abs-signed16 (word cal t2) (word-lt cal t2 u.bytes)

  near : abs (sixteenths cal raw) ≤ 2 ^ 15
  near = sixteenths-le raw (word cal t1) u.distance

  fine-le : abs (fine cal raw) ≤ 2 ^ 21
  fine-le =
      let a = slope-le (eighths cal raw) (signed16 (word cal t2)) u.distance s₂ in
      let b = bend-le (sixteenths cal raw) (signed16 (word cal t3)) near u.bent in
      omega (arith, a, b, abs-+ℤ (slope cal raw) (bend cal raw))

  t_fine_of-fine : t_fine_of cal raw ≡ u32_of (fine cal raw)
  t_fine_of-fine =
      let reading = u.reading in
      let e₁ = sar32-raw raw 3 reading in
      let e₂ = sar32-raw raw 4 reading in
      let e₃ = shl32-word (word cal t1) w₁ in
      let e₄ = sub32-sub_ℕ (raw / 2 ^ 3) (2 * word cal t1) (omega arith) (omega (arith, w₁)) in
      let e₅ = sub32-sub_ℕ (raw / 2 ^ 4) (word cal t1) (omega arith) (omega (arith, w₁)) in
      let e₆ = sext16-signed16 (word cal t2) (word-lt cal t2 u.bytes) in
      let e₇ = sext16-signed16 (word cal t3) (word-lt cal t3 u.bytes) in
      let a = slope-pattern (eighths cal raw) (signed16 (word cal t2)) u.distance s₂ in
      let b = bend-pattern (sixteenths cal raw) (signed16 (word cal t3)) near u.bent in
      let la = slope-le (eighths cal raw) (signed16 (word cal t2)) u.distance s₂ in
      let lb = bend-le (sixteenths cal raw) (signed16 (word cal t3)) near u.bent in
      t_fine_of_lem cal raw
      ∙ rw (e₁, e₂, e₃, e₄, e₅, e₆, e₇, a, b)
          (add32-u32_of (slope cal raw) (bend cal raw) (omega (arith, la)) (omega (arith, lb)))

  -- No step of the temperature part overflows.
  pub temperature_of-centidegrees :
      signed32 (temperature_of (t_fine_of cal raw)) ≡ centidegrees (fine cal raw)
  temperature_of-centidegrees =
      ap (λ w. signed32 (temperature_of w)) t_fine_of-fine
      ∙ temperature_of_lem (u32_of (fine cal raw))
      ∙ centidegrees-pattern (fine cal raw) fine-le
