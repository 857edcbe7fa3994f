-- ===== src/Average.antt =====
-- average.c: running averages of the three sensors since the last reset.
pub mod Mild
pub mod Running
pub mod Outdoor
pub mod Humidity
pub mod Order
pub mod Counts
pub mod Sums
pub mod Interface
use quark_meteo_station.Base.{
  ℕ, ◌+◌, ◌*◌, ◌/◌, ◌%◌, Bool, true, false, Option, some, none, ◌==◌, ◌||◌, if◌then◌else◌,
}
use quark_meteo_station.Base.Int.{ℤ, pos, neg, is_neg, ◌+ℤ◌, div_ℤ, mod_ℤ}
use quark_meteo_station.Base.Word.{u8, u16, u32, u8_of, i16, i32}
use quark_meteo_station.Bmp280
use quark_meteo_station.Ds18b20
use quark_meteo_station.Ds18b20.{positive, negative}
use quark_meteo_station.Dht11
use quark_meteo_station.Dht11.{no_sensor_error, checksum_error}

-- `BMP280_average_t`.
pub record Bmp280Average : Type 0 where
  pub temp_sum : ℤ
  pub pres_sum : ℕ
  pub meas_num : ℕ

-- `DS18B20_average_t`.
pub record Ds18b20Average : Type 0 where
  pub temp_sum : ℤ
  pub meas_num : ℕ

-- `DHT11_average_t`.
pub record Dht11Average : Type 0 where
  pub temp_sum : ℤ
  pub humid_sum : ℕ
  pub meas_num : ℕ

-- The three statics.
pub record Averages : Type 0 where
  pub bmp280 : Bmp280Average
  pub ds18b20 : Ds18b20Average
  pub dht11 : Dht11Average

-- The static pointers, into a memory `M`: a pointer to const reads it, a pointer to an average also
-- writes it.
pub record Pointers (M : Type 0) : Type 0 where
  pub bmp280_meas : M → Bmp280.Meas
  pub ds18b20_meas : M → Ds18b20.Meas
  pub dht11_meas : M → Dht11.Meas
  pub write_bmp280_avg : Bmp280.Meas → M → M
  pub write_ds18b20_avg : Ds18b20.Meas → M → M
  pub dht11_meas_avg : M → Dht11.Meas
  pub write_dht11_avg : Dht11.Meas → M → M

-- All statics of the file.
pub record Statics (M : Type 0) : Type 0 where
  pub pointers : Pointers M
  pub sums : Averages

-- `average_reset`.
unfoldable pub reset : Averages
reset = record {
  bmp280 = record { temp_sum = pos 0; pres_sum = 0; meas_num = 0 };
  ds18b20 = record { temp_sum = pos 0; meas_num = 0 };
  dht11 = record { temp_sum = pos 0; humid_sum = 0; meas_num = 0 };
}

-- The count is a `uint16_t`: where it wraps to 0 the division is undefined, `none`.
unfoldable pub update_bmp280 : Bmp280.Meas → Bmp280Average → Option (Bmp280.Meas × Bmp280Average)
update_bmp280 meas avg =
    let avg' : Bmp280Average = record {
      temp_sum = i32 (avg.temp_sum +ℤ meas.temperature);
      pres_sum = u32 (avg.pres_sum + meas.pressure);
      meas_num = u16 (avg.meas_num + 1);
    } in
    if avg'.meas_num == 0
    then none
    else some (
      record {
        pressure = avg'.pres_sum / avg'.meas_num;
        temperature = div_ℤ avg'.temp_sum avg'.meas_num;
      },
      avg',
    )

-- The outdoor temperature as one signed number of hundredths, an `int16_t`.
unfoldable pub hundredths : Ds18b20.Meas → ℤ
hundredths meas =
    let temperature = i16 (pos (meas.integer * 100 + meas.fraction)) in
    elim meas.sign [ negative ↦ i16 (neg temperature) | positive ↦ temperature ]

-- The average is split into whole degrees and hundredths by C's division and cut to `uint8_t`.
unfoldable pub split : ℤ → Ds18b20.Meas
split average = record {
  sign = if is_neg average then negative else positive;
  integer = u8_of (div_ℤ average 100);
  fraction = u8_of (mod_ℤ average 100);
}

unfoldable pub update_ds18b20 :
    Ds18b20.Meas → Ds18b20Average → Option (Ds18b20.Meas × Ds18b20Average)
unfolding hundredths split
update_ds18b20 meas avg =
    let avg' : Ds18b20Average = record {
      temp_sum = i32 (avg.temp_sum +ℤ hundredths meas);
      meas_num = u16 (avg.meas_num + 1);
    } in
    if avg'.meas_num == 0
    then none
    else some (split (i16 (div_ℤ avg'.temp_sum avg'.meas_num)), avg')

-- An erroneous measurement leaves the sums and the old average.
unfoldable pub update_dht11 :
    Dht11.Meas → Dht11.Meas → Dht11Average → Option (Dht11.Meas × Dht11Average)
update_dht11 meas meas_avg avg =
    let avg' : Dht11Average = record {
      temp_sum = i32 (avg.temp_sum +ℤ pos meas.temperature);
      humid_sum = u32 (avg.humid_sum + meas.humidity);
      meas_num = u16 (avg.meas_num + 1);
    } in
    if meas.temperature == no_sensor_error || meas.temperature == checksum_error
    then some (meas_avg, avg)
    else if avg'.meas_num == 0
    then none
    else some (
      record {
        temperature = u8_of (div_ℤ avg'.temp_sum avg'.meas_num);
        humidity = u8 (avg'.humid_sum / avg'.meas_num);
      },
      avg',
    )

-- The functions of the header, on the memory that the pointers lead to.
module _ {M : Type 0} where
  unfoldable pub average_reset : Statics M → Statics M
  average_reset s = record s { sums = reset }

  unfoldable pub average_init : Pointers M → Statics M → Statics M
  unfolding average_reset
  average_init pointers s = average_reset (record s { pointers = pointers })

  unfoldable pub average_update_bmp280 : M → Statics M → Option (M × Statics M)
  average_update_bmp280 m s = elim (update_bmp280 (s.pointers.bmp280_meas m) s.sums.bmp280) [
    | none ↦ none
    | some (avg, sums) ↦
        some
          (s.pointers.write_bmp280_avg avg m, record s { sums = record (s.sums) { bmp280 = sums } })
  ]

  unfoldable pub average_update_ds18b20 : M → Statics M → Option (M × Statics M)
  average_update_ds18b20 m s = elim (update_ds18b20 (s.pointers.ds18b20_meas m) s.sums.ds18b20) [
    | none ↦ none
    | some (avg, sums) ↦
        some (
          s.pointers.write_ds18b20_avg avg m,
          record s { sums = record (s.sums) { ds18b20 = sums } },
        )
  ]

  unfoldable pub average_update_dht11 : M → Statics M → Option (M × Statics M)
  average_update_dht11 m s =
      let old = s.pointers.dht11_meas_avg m in
      elim (update_dht11 (s.pointers.dht11_meas m) old s.sums.dht11) [
        | none ↦ none
        | some (avg, sums) ↦
            some (
              s.pointers.write_dht11_avg avg m,
              record s { sums = record (s.sums) { dht11 = sums } },
            )
      ]
