-- ===== src/Average/Counts.antt =====
-- How many measurements the averages of average.c are of, and that an update returns below 65535.
use quark_meteo_station.Base.{ℕ, ◌+◌, ◌≤◌, ◌<◌, ◌≡◌, refl, arith, outcome, Returns, inl, inr}
use quark_meteo_station.Bmp280
use quark_meteo_station.Ds18b20
use quark_meteo_station.Dht11
use quark_meteo_station.Average
use quark_meteo_station.Average.{
  Averages, Bmp280Average, Ds18b20Average, Dht11Average, Pointers, Statics, reset, update_bmp280,
  update_ds18b20, update_dht11,
}

-- No average is of more than so many measurements: of the indoor sensor, of the outdoor one, of the
-- humidity's.
abbrev pub Counts : ℕ → ℕ → ℕ → Averages → Type 0
Counts i o h a = (a.bmp280.meas_num ≤ i) × (a.ds18b20.meas_num ≤ o) × (a.dht11.meas_num ≤ h)

-- What an update does: the pointers stay, and the memory changes by a store of an average.
abbrev pub Stores : {M X : Type 0} → (X → M → M) → M → Pointers M → M × Statics M → Type 0
Stores {X = X} write m p r = (avg : X) × (r.0 ≡ write avg m) × ((r.1).pointers ≡ p)

update_bmp280-count :
    (meas : Bmp280.Meas) (avg : Bmp280Average) (n : ℕ)
    → avg.meas_num ≤ n
    → n < 65535
    → Returns (update_bmp280 meas avg) (λ r. (r.1).meas_num ≤ n + 1)
unfolding update_bmp280
update_bmp280-count meas avg n h₁ h₂ = elim (outcome (update_bmp280 meas avg)) [
  | inl e ↦ ground arith
  | inr (r, e) ↦ (r, e, ground arith)
]

update_ds18b20-count :
    (meas : Ds18b20.Meas) (avg : Ds18b20Average) (n : ℕ)
    → avg.meas_num ≤ n
    → n < 65535
    → Returns (update_ds18b20 meas avg) (λ r. (r.1).meas_num ≤ n + 1)
unfolding update_ds18b20
update_ds18b20-count meas avg n h₁ h₂ = elim (outcome (update_ds18b20 meas avg)) [
  | inl e ↦ ground arith
  | inr (r, e) ↦ (r, e, ground arith)
]

update_dht11-count :
    (meas old : Dht11.Meas) (avg : Dht11Average) (n : ℕ)
    → avg.meas_num ≤ n
    → n < 65535
    → Returns (update_dht11 meas old avg) (λ r. (r.1).meas_num ≤ n + 1)
unfolding update_dht11
update_dht11-count meas old avg n h₁ h₂ = elim (outcome (update_dht11 meas old avg)) [
  | inl e ↦ ground arith
  | inr (r, e) ↦ (r, e, ground arith)
]

module _ {M : Type 0} where
  pub update_bmp280-Counts :
      (m : M) (s : Statics M) {i o h : ℕ}
      → Counts i o h s.sums
      → i < 65535
      → Returns
          (Average.average_update_bmp280 m s)
          (λ r. Counts (i + 1) o h (r.1).sums × Stores s.pointers.write_bmp280_avg m s.pointers r)
  unfolding Average.average_update_bmp280
  update_bmp280-Counts m s {i} (c₁, c₂, c₃) small =
      let ((avg, sum), e, c) =
        update_bmp280-count (s.pointers.bmp280_meas m) s.sums.bmp280 i c₁ small in
      (
        (s.pointers.write_bmp280_avg avg m, record s { sums = record (s.sums) { bmp280 = sum } }),
        rw (Average.average_update_bmp280, e) refl,
        ((c, c₂, c₃), (avg, refl, refl)),
      )

  pub update_ds18b20-Counts :
      (m : M) (s : Statics M) {i o h : ℕ}
      → Counts i o h s.sums
      → o < 65535
      → Returns
          (Average.average_update_ds18b20 m s)
          (λ r. Counts i (o + 1) h (r.1).sums × Stores s.pointers.write_ds18b20_avg m s.pointers r)
  unfolding Average.average_update_ds18b20
  update_ds18b20-Counts m s {o} (c₁, c₂, c₃) small =
      let ((avg, sum), e, c) =
        update_ds18b20-count (s.pointers.ds18b20_meas m) s.sums.ds18b20 o c₂ small in
      (
        (s.pointers.write_ds18b20_avg avg m, record s { sums = record (s.sums) { ds18b20 = sum } }),
        rw (Average.average_update_ds18b20, e) refl,
        ((c₁, c, c₃), (avg, refl, refl)),
      )

  pub update_dht11-Counts :
      (m : M) (s : Statics M) {i o h : ℕ}
      → Counts i o h s.sums
      → h < 65535
      → Returns
          (Average.average_update_dht11 m s)
          (λ r. Counts i o (h + 1) (r.1).sums × Stores s.pointers.write_dht11_avg m s.pointers r)
  unfolding Average.average_update_dht11
  update_dht11-Counts m s {h} (c₁, c₂, c₃) small =
      let ((avg, sum), e, c) =
        update_dht11-count (s.pointers.dht11_meas m) (s.pointers.dht11_meas_avg m) s.sums.dht11 h c₃
          small in
      (
        (s.pointers.write_dht11_avg avg m, record s { sums = record (s.sums) { dht11 = sum } }),
        rw (Average.average_update_dht11, e) refl,
        ((c₁, c₂, c), (avg, refl, refl)),
      )

  pub reset-Counts : (s : Statics M) → Counts 0 0 0 (Average.average_reset s).sums
  unfolding Average.average_reset reset
  reset-Counts s = (omega arith, omega arith, omega arith)

  pub reset-pointers : (s : Statics M) → (Average.average_reset s).pointers ≡ s.pointers
  unfolding Average.average_reset
  reset-pointers s = refl

  pub init-Counts : (p : Pointers M) (s : Statics M) → Counts 0 0 0 (Average.average_init p s).sums
  unfolding Average.average_init
  init-Counts p s = reset-Counts (record s { pointers = p })
