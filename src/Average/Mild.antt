-- ===== src/Average/Mild.antt =====
-- Measurements whose averages fit the buffers of ESP.c: an indoor temperature that is not negative,
-- and numbers that are not too large. Their sums in average.c stay as small.
use quark_meteo_station.Base.{
  ℕ, ◌+◌, ◌*◌, ◌/◌, ◌%◌, ◌^◌, ◌≤◌, ◌<◌, ◌≡◌, refl, arith, false, some, ◌==◌, Returns,
}
use quark_meteo_station.Base.Int.{ℤ, pos, pos_part, neg_part, ◌+ℤ◌, div_ℤ-pos}
use quark_meteo_station.Base.Word.{i32}
use quark_meteo_station.Bmp280
use quark_meteo_station.Ds18b20
use quark_meteo_station.Dht11
use quark_meteo_station.Average.{
  Bmp280Average, Ds18b20Average, Dht11Average, update_bmp280, update_ds18b20, update_dht11,
}

-- At most 2^19 hundredths of a degree, and at most 2^20 Pa.
abbrev pub IsMild : Bmp280.Meas → Type 0
IsMild m = (neg_part m.temperature ≡ 0) × (pos_part m.temperature ≤ 2 ^ 19) × (m.pressure ≤ 2 ^ 20)

-- The sums of as many of them.
abbrev pub AreMild : Bmp280Average → Type 0
AreMild a =
    (neg_part a.temp_sum ≡ 0)
    × (pos_part a.temp_sum ≤ 2 ^ 19 * a.meas_num)
    × (a.pres_sum ≤ 2 ^ 20 * a.meas_num)

abbrev pub AreBytes : Ds18b20.Meas → Type 0
AreBytes m = (m.integer < 256) × (m.fraction < 256)

sum-mild :
    (a b : ℤ) (n : ℕ)
    → neg_part a ≡ 0
    → neg_part b ≡ 0
    → pos_part a ≤ 2 ^ 19 * n
    → pos_part b ≤ 2 ^ 19
    → n < 4095
    → i32 (a +ℤ b) ≡ pos (pos_part a + pos_part b)
unfolding ◌+ℤ◌
sum-mild a b n e₁ e₂ h₁ h₂ small = ground arith

quotient-le : (a k n : ℕ) → a ≤ k * n → 0 < n → a / n ≤ k
quotient-le a k n h p = grind arith

-- What the update makes of them.
update_bmp280-mild :
    (meas : Bmp280.Meas) (a : Bmp280Average)
    → IsMild meas
    → AreMild a
    → a.meas_num < 4095
    → let t = pos_part a.temp_sum + pos_part meas.temperature in
      let p = a.pres_sum + meas.pressure in
      let n = a.meas_num + 1 in
      update_bmp280 meas a
      ≡ some (
        record { pressure = p / n; temperature = pos (t / n) },
        record { temp_sum = pos t; pres_sum = p; meas_num = n },
      )
unfolding update_bmp280
update_bmp280-mild meas a (n, t, p) (sn, st, sp) small =
    let e₁ = sum-mild a.temp_sum meas.temperature a.meas_num sn n st t small in
    let e₂ : (a.pres_sum + meas.pressure) % 2 ^ 32 ≡ a.pres_sum + meas.pressure = omega arith in
    let e₃ : (a.meas_num + 1) % 2 ^ 16 ≡ a.meas_num + 1 = omega arith in
    let e₄ : (a.meas_num + 1 == 0) ≡ false = ground arith in
    let e₅ =
      div_ℤ-pos (pos_part a.temp_sum + pos_part meas.temperature) (a.meas_num + 1) (omega arith) in
    rw (e₁, e₂, e₃, e₄, e₅) refl

pub update_bmp280-IsMild :
    (meas : Bmp280.Meas) (a : Bmp280Average)
    → IsMild meas
    → AreMild a
    → a.meas_num < 4095
    → Returns (update_bmp280 meas a) (λ r. IsMild r.0 × AreMild r.1)
update_bmp280-IsMild meas a mild sums small =
    let t = pos_part a.temp_sum + pos_part meas.temperature in
    let p = a.pres_sum + meas.pressure in
    let n = a.meas_num + 1 in
    let bound_t : t ≤ 2 ^ 19 * n = omega arith in
    let bound_p : p ≤ 2 ^ 20 * n = omega arith in
    (
      (
        record { pressure = p / n; temperature = pos (t / n) },
        record { temp_sum = pos t; pres_sum = p; meas_num = n },
      ),
      update_bmp280-mild meas a mild sums small,
      (
        (
          refl,
          quotient-le t (2 ^ 19) n bound_t (omega arith),
          quotient-le p (2 ^ 20) n bound_p (omega arith),
        ),
        (refl, bound_t, bound_p),
      ),
    )

pub update_ds18b20-AreBytes :
    (meas : Ds18b20.Meas) (a : Ds18b20Average) (avg : Ds18b20.Meas) (a' : Ds18b20Average)
    → update_ds18b20 meas a ≡ some (avg, a')
    → AreBytes avg
unfolding update_ds18b20
update_ds18b20-AreBytes meas a avg a' e = ground arith

pub update_dht11-lt :
    (meas old : Dht11.Meas) (a : Dht11Average) (avg : Dht11.Meas) (a' : Dht11Average)
    → old.humidity < 256
    → update_dht11 meas old a ≡ some (avg, a')
    → avg.humidity < 256
unfolding update_dht11
update_dht11-lt meas old a avg a' h e = ground arith
