-- ===== src/Average/Sums.antt =====
-- What the functions of average.c do with the sums of given measurements: each update adds one, and
-- stores the mean through its own pointer.
use quark_meteo_station.Base.{◌<◌, ◌≡◌, refl, Option, some, List, [], ◌∷◌, length, All}
use quark_meteo_station.Bmp280
use quark_meteo_station.Ds18b20
use quark_meteo_station.Dht11
use quark_meteo_station.Average
use quark_meteo_station.Average.{Averages, Pointers, Statics, split, reset}
use quark_meteo_station.Average.Running
use quark_meteo_station.Average.Running.{AreUsual, update_bmp280-totals}
use quark_meteo_station.Average.Outdoor
use quark_meteo_station.Average.Outdoor.{IsOutdoor, update_ds18b20-totals}
use quark_meteo_station.Average.Humidity
use quark_meteo_station.Average.Humidity.{IsByte, valid, update_dht11-valid}

-- The measurements since a reset, the newest first.
pub record Hour : Type 0 where
  pub indoor : List Bmp280.Meas
  pub outdoor : List Ds18b20.Meas
  pub humid : List Dht11.Meas

abbrev pub no_measurements : Hour
no_measurements = record { indoor = []; outdoor = []; humid = [] }

-- Their sums; the erroneous ones of the humidity sensor are left out.
abbrev pub sums : Hour → Averages
sums h = record {
  bmp280 = Running.totals h.indoor;
  ds18b20 = Outdoor.totals h.outdoor;
  dht11 = Humidity.totals (valid h.humid);
}

abbrev pub statics : {M : Type 0} → Pointers M → Hour → Statics M
statics p h = record { pointers = p; sums = sums h }

-- What is said of an update on a memory `M`: from the sums of some measurements it goes to those of one
-- more, and stores the mean.
abbrev pub AddsIndoor : {M : Type 0} → (M → Statics M → Option (M × Statics M)) → Type 0
AddsIndoor {M} update =
    (m : M) (p : Pointers M) (h : Hour)
    → let x = p.bmp280_meas m in
      AreUsual (x ∷ h.indoor)
      → length h.indoor < 4095
      → update m (statics p h)
        ≡ some (
          p.write_bmp280_avg (Running.mean (x ∷ h.indoor)) m,
          statics p (record h { indoor = x ∷ h.indoor }),
        )

abbrev pub AddsOutdoor : {M : Type 0} → (M → Statics M → Option (M × Statics M)) → Type 0
AddsOutdoor {M} update =
    (m : M) (p : Pointers M) (h : Hour)
    → let y = p.ds18b20_meas m in
      All IsOutdoor (y ∷ h.outdoor)
      → length h.outdoor < 65535
      → update m (statics p h)
        ≡ some (
          p.write_ds18b20_avg (split (Outdoor.mean (y ∷ h.outdoor))) m,
          statics p (record h { outdoor = y ∷ h.outdoor }),
        )

abbrev pub AddsHumid : {M : Type 0} → (M → Statics M → Option (M × Statics M)) → Type 0
AddsHumid {M} update =
    (m : M) (p : Pointers M) (h : Hour) (old : Dht11.Meas)
    → p.dht11_meas_avg m ≡ Humidity.mean old (valid h.humid)
    → let z = p.dht11_meas m in
      All IsByte (z ∷ h.humid)
      → length h.humid < 65535
      → update m (statics p h)
        ≡ some (
          p.write_dht11_avg (Humidity.mean old (valid (z ∷ h.humid))) m,
          statics p (record h { humid = z ∷ h.humid }),
        )

module _ {M : Type 0} where
  pub reset-statics :
      (p : Pointers M) (h : Hour) → Average.average_reset (statics p h) ≡ statics p no_measurements
  unfolding Average.average_reset reset
  reset-statics p h = refl

  pub init-statics :
      (p : Pointers M) (s : Statics M) → Average.average_init p s ≡ statics p no_measurements
  unfolding Average.average_init Average.average_reset reset
  init-statics p s = refl

  pub update_bmp280-statics : AddsIndoor {M = M} Average.average_update_bmp280
  unfolding Average.average_update_bmp280
  update_bmp280-statics m p h usual small =
      rw
        (Average.average_update_bmp280, update_bmp280-totals (p.bmp280_meas m) h.indoor usual small)
        refl

  pub update_ds18b20-statics : AddsOutdoor {M = M} Average.average_update_ds18b20
  unfolding Average.average_update_ds18b20
  update_ds18b20-statics m p h small few =
      rw
        (
          Average.average_update_ds18b20,
          update_ds18b20-totals (p.ds18b20_meas m) h.outdoor small few,
        )
        refl

  pub update_dht11-statics : AddsHumid {M = M} Average.average_update_dht11
  unfolding Average.average_update_dht11
  update_dht11-statics m p h old same bytes few =
      rw
        (
          Average.average_update_dht11,
          same,
          update_dht11-valid (p.dht11_meas m) old h.humid bytes few,
        )
        refl
