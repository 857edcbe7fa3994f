-- ===== src/Average/Interface.antt =====
-- average.h: what the module offers to main.c, and that average.c is one.
use quark_meteo_station.Base.{
  ℕ, ◌+◌, ◌<◌, ◌≡◌, refl, arith, Option, some, outcome, Returns, returned, inl, inr,
}
use quark_meteo_station.Average
use quark_meteo_station.Average.{
  Averages, Bmp280Average, Ds18b20Average, Dht11Average, Pointers, Statics, reset, update_bmp280,
  update_ds18b20, update_dht11,
}
use quark_meteo_station.Average.Mild.{
  IsMild, AreMild, AreBytes, update_bmp280-IsMild, update_ds18b20-AreBytes, update_dht11-lt,
}
use quark_meteo_station.Average.Sums.{
  Hour, no_measurements, statics, AddsIndoor, AddsOutdoor, AddsHumid, reset-statics, init-statics,
  update_bmp280-statics, update_ds18b20-statics, update_dht11-statics,
}
use quark_meteo_station.Average.Counts.{
  Counts, Stores, update_bmp280-Counts, update_ds18b20-Counts, update_dht11-Counts, reset-Counts,
  reset-pointers, init-Counts,
}

-- The same with what is known of the average, and of the indoor sums.
abbrev pub StoresWith :
    {M X : Type 0}
    → (X → Type 0)
    → (X → M → M)
    → (Bmp280Average → Type 0)
    → M
    → M × Statics M
    → Type 0
StoresWith {X = X} P write Q m r = (avg : X) × (r.0 ≡ write avg m) × P avg × Q (r.1).sums.bmp280

-- On the memory `M` that the pointers lead to. An initialisation and a reset leave no measurement;
-- below 65535 measurements each update returns, adds one to its own average at most, and stores an
-- average through its own pointer.
pub record Averaging (M : Type 0) : Type 0 where
  pub average_reset : Statics M → Statics M
  pub average_init : Pointers M → Statics M → Statics M
  pub average_update_bmp280 : M → Statics M → Option (M × Statics M)
  pub average_update_ds18b20 : M → Statics M → Option (M × Statics M)
  pub average_update_dht11 : M → Statics M → Option (M × Statics M)
  pub reset-Counts : (s : Statics M) → Counts 0 0 0 (average_reset s).sums
  pub reset-pointers : (s : Statics M) → (average_reset s).pointers ≡ s.pointers
  pub init-Counts : (p : Pointers M) (s : Statics M) → Counts 0 0 0 (average_init p s).sums
  pub update_bmp280-Counts :
      (m : M) (s : Statics M) {i o h : ℕ}
      → Counts i o h s.sums
      → i < 65535
      → Returns
          (average_update_bmp280 m s)
          (λ r. Counts (i + 1) o h (r.1).sums × Stores s.pointers.write_bmp280_avg m s.pointers r)
  pub update_ds18b20-Counts :
      (m : M) (s : Statics M) {i o h : ℕ}
      → Counts i o h s.sums
      → o < 65535
      → Returns
          (average_update_ds18b20 m s)
          (λ r. Counts i (o + 1) h (r.1).sums × Stores s.pointers.write_ds18b20_avg m s.pointers r)
  pub update_dht11-Counts :
      (m : M) (s : Statics M) {i o h : ℕ}
      → Counts i o h s.sums
      → h < 65535
      → Returns
          (average_update_dht11 m s)
          (λ r. Counts i o (h + 1) (r.1).sums × Stores s.pointers.write_dht11_avg m s.pointers r)
  pub reset-AreMild : (s : Statics M) → AreMild (average_reset s).sums.bmp280
  pub init-AreMild : (p : Pointers M) (s : Statics M) → AreMild (average_init p s).sums.bmp280
  pub update_bmp280-AreMild :
      (m : M) (s : Statics M) (r : M × Statics M)
      → IsMild (s.pointers.bmp280_meas m)
      → AreMild s.sums.bmp280
      → s.sums.bmp280.meas_num < 4095
      → average_update_bmp280 m s ≡ some r
      → StoresWith IsMild s.pointers.write_bmp280_avg AreMild m r
  pub update_ds18b20-AreMild :
      (m : M) (s : Statics M) (r : M × Statics M)
      → average_update_ds18b20 m s ≡ some r
      → StoresWith AreBytes s.pointers.write_ds18b20_avg (λ a. a ≡ s.sums.bmp280) m r
  pub update_dht11-AreMild :
      (m : M) (s : Statics M) (r : M × Statics M)
      → (s.pointers.dht11_meas_avg m).humidity < 256
      → average_update_dht11 m s ≡ some r
      → StoresWith
          (λ avg. avg.humidity < 256)
          s.pointers.write_dht11_avg
          (λ a. a ≡ s.sums.bmp280)
          m
          r
  pub reset-statics :
      (p : Pointers M) (h : Hour) → average_reset (statics p h) ≡ statics p no_measurements
  pub init-statics : (p : Pointers M) (s : Statics M) → average_init p s ≡ statics p no_measurements
  pub update_bmp280-statics : AddsIndoor average_update_bmp280
  pub update_ds18b20-statics : AddsOutdoor average_update_ds18b20
  pub update_dht11-statics : AddsHumid average_update_dht11

module _ {M : Type 0} where
  pub reset-AreMild : (s : Statics M) → AreMild (Average.average_reset s).sums.bmp280
  unfolding Average.average_reset reset
  reset-AreMild s = (omega arith, omega arith, omega arith)

  pub init-AreMild :
      (p : Pointers M) (s : Statics M) → AreMild (Average.average_init p s).sums.bmp280
  unfolding Average.average_init
  init-AreMild p s = reset-AreMild (record s { pointers = p })

  pub update_bmp280-AreMild :
      (m : M) (s : Statics M) (r : M × Statics M)
      → IsMild (s.pointers.bmp280_meas m)
      → AreMild s.sums.bmp280
      → s.sums.bmp280.meas_num < 4095
      → Average.average_update_bmp280 m s ≡ some r
      → StoresWith IsMild s.pointers.write_bmp280_avg AreMild m r
  unfolding Average.average_update_bmp280
  update_bmp280-AreMild m s r mild sums small e =
      let ((avg, sum), done, (p, q)) =
        update_bmp280-IsMild (s.pointers.bmp280_meas m) s.sums.bmp280 mild sums small in
      let r' : M × Statics M =
        (s.pointers.write_bmp280_avg avg m, record s { sums = record (s.sums) { bmp280 = sum } }) in
      let is : Average.average_update_bmp280 m s ≡ some r' =
        rw (Average.average_update_bmp280, done) refl in
      returned (StoresWith IsMild s.pointers.write_bmp280_avg AreMild m) (r', is, (avg, refl, p, q))
        e

  pub update_ds18b20-AreMild :
      (m : M) (s : Statics M) (r : M × Statics M)
      → Average.average_update_ds18b20 m s ≡ some r
      → StoresWith AreBytes s.pointers.write_ds18b20_avg (λ a. a ≡ s.sums.bmp280) m r
  unfolding Average.average_update_ds18b20
  update_ds18b20-AreMild m s r e =
      elim (outcome (update_ds18b20 (s.pointers.ds18b20_meas m) s.sums.ds18b20)) [
        | inl fails ↦ ground arith
        | inr ((avg, sum), done) ↦
            let r' : M × Statics M = (
              s.pointers.write_ds18b20_avg avg m,
              record s { sums = record (s.sums) { ds18b20 = sum } },
            ) in
            let is : Average.average_update_ds18b20 m s ≡ some r' =
              rw (Average.average_update_ds18b20, done) refl in
            let bytes = update_ds18b20-AreBytes _ _ avg sum done in
            returned (StoresWith AreBytes s.pointers.write_ds18b20_avg (λ a. a ≡ s.sums.bmp280) m)
              (r', is, (avg, refl, bytes, refl)) e
      ]

  pub update_dht11-AreMild :
      (m : M) (s : Statics M) (r : M × Statics M)
      → (s.pointers.dht11_meas_avg m).humidity < 256
      → Average.average_update_dht11 m s ≡ some r
      → StoresWith
          (λ avg. avg.humidity < 256)
          s.pointers.write_dht11_avg
          (λ a. a ≡ s.sums.bmp280)
          m
          r
  unfolding Average.average_update_dht11
  update_dht11-AreMild m s r h e =
      let old = s.pointers.dht11_meas_avg m in
      elim (outcome (update_dht11 (s.pointers.dht11_meas m) old s.sums.dht11)) [
        | inl fails ↦ ground arith
        | inr ((avg, sum), done) ↦
            let r' : M × Statics M = (
              s.pointers.write_dht11_avg avg m,
              record s { sums = record (s.sums) { dht11 = sum } },
            ) in
            let is : Average.average_update_dht11 m s ≡ some r' =
              rw (Average.average_update_dht11, done) refl in
            let byte = update_dht11-lt _ old _ avg sum h done in
            returned
              (StoresWith (λ avg. avg.humidity < 256) s.pointers.write_dht11_avg
                (λ a. a ≡ s.sums.bmp280) m)
              (r', is, (avg, refl, byte, refl)) e
      ]

  -- average.c.
  abbrev pub averaging : Averaging M
  averaging = record {
    average_reset = Average.average_reset;
    average_init = Average.average_init;
    average_update_bmp280 = Average.average_update_bmp280;
    average_update_ds18b20 = Average.average_update_ds18b20;
    average_update_dht11 = Average.average_update_dht11;
    reset-Counts = reset-Counts;
    reset-pointers = reset-pointers;
    init-Counts = init-Counts;
    update_bmp280-Counts = update_bmp280-Counts;
    update_ds18b20-Counts = update_ds18b20-Counts;
    update_dht11-Counts = update_dht11-Counts;
    reset-AreMild = reset-AreMild;
    init-AreMild = init-AreMild;
    update_bmp280-AreMild = update_bmp280-AreMild;
    update_ds18b20-AreMild = update_ds18b20-AreMild;
    update_dht11-AreMild = update_dht11-AreMild;
    reset-statics = reset-statics;
    init-statics = init-statics;
    update_bmp280-statics = update_bmp280-statics;
    update_ds18b20-statics = update_ds18b20-statics;
    update_dht11-statics = update_dht11-statics;
  }
