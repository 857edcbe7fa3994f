-- ===== src/Station/Counts.antt =====
-- How many measurements a round of main.c's loop adds to the averages: the numbers
-- by which average.c divides.
use quark_meteo_station.Base.{ℕ, ◌+◌, ◌<◌, ◌≡◌, inl, inr, arith, some, outcome}
use quark_meteo_station.Average.{Averages, Statics}
use quark_meteo_station.Average.Counts.{Counts}
use quark_meteo_station.Station.{
  ReadoutState, request_conversion, get_measurement, TransmissionState, idle, connect_to_server,
  await_for_connection, send_data, Devices, Machine, Measurements, Parts, readout, measure_bmp280,
  measure_dht11, transmit, update_gui, update_cycle,
}

-- No average is of more than so many measurements.
abbrev pub IsWithin : ℕ → Averages → Type 0
IsWithin n = Counts n n n

module _ (parts : Parts) where
  open parts use {averaging}

  pub readout-count :
      (s s' : ReadoutState) (d d' : Devices) (n : ℕ)
      → IsWithin n d.averages.sums
      → n < 65535
      → readout parts s d ≡ some (s', d')
      → Counts n (n + 1) n d'.averages.sums
  unfolding readout
  readout-count request_conversion s' d d' n w h e = ground arith
  readout-count get_measurement s' d d' n w h e =
      let memory = record (d.meas) { outdoor = (parts.outdoor.get_temperature d.board).0 } in
      let (r, e₁, (c, _)) = averaging.update_ds18b20-Counts memory d.averages w h in ground arith

  pub measure_bmp280-count :
      (d d' : Devices) (n : ℕ)
      → Counts n (n + 1) n d.averages.sums
      → n < 65535
      → measure_bmp280 parts d ≡ some d'
      → Counts (n + 1) (n + 1) n d'.averages.sums
  unfolding measure_bmp280
  measure_bmp280-count d d' n w h e =
      let meas = (parts.indoor.get_measurement parts.registers d.cal d.i2c d.board).0 in
      let memory = record (d.meas) { indoor = meas } in
      let (r, e₁, (c, _)) = averaging.update_bmp280-Counts memory d.averages w h in ground arith

  pub measure_dht11-count :
      (d d' : Devices) (n : ℕ)
      → Counts (n + 1) (n + 1) n d.averages.sums
      → n < 65535
      → measure_dht11 parts d ≡ some d'
      → IsWithin (n + 1) d'.averages.sums
  unfolding measure_dht11
  measure_dht11-count d d' n w h e =
      let meas = (parts.humid.get_measurement d.data_frame d.board).0 in
      let memory = record (d.meas) { humid = meas } in
      let (r, e₁, (c, _)) = averaging.update_dht11-Counts memory d.averages w h in ground arith

  -- A transmission clears the averages, every other state keeps them.
  abbrev pub kept : TransmissionState → Statics Measurements → Statics Measurements
  kept send_data a = averaging.average_reset a
  kept s a = a

  -- How many of them a round leaves.
  abbrev pub left : TransmissionState → ℕ → ℕ
  left send_data n = 0
  left s n = n

  pub transmit-kept :
      (s s' : TransmissionState) (n n' : ℕ) (d d' : Devices)
      → transmit parts s n d ≡ some (s', n', d')
      → d'.averages ≡ kept s d.averages
  unfolding transmit
  transmit-kept idle s' n n' d d' h = ground arith
  transmit-kept connect_to_server s' n n' d d' h = ground arith
  transmit-kept await_for_connection s' n n' d d' h = ground arith
  transmit-kept send_data s' n n' d d' h = ground arith

  pub update_gui-averages :
      (d d' : Devices) → update_gui parts d ≡ some d' → d'.averages ≡ d.averages
  unfolding update_gui
  update_gui-averages d d' h = ground arith

  -- The end of a round, from the transmission on.
  transmit-update_gui-count :
      (s : TransmissionState) (k : ℕ) (d : Devices) (n : ℕ) {s' : TransmissionState} {k' : ℕ}
      {d₁ d₂ : Devices}
      → IsWithin n d.averages.sums
      → transmit parts s k d ≡ some (s', k', d₁)
      → update_gui parts d₁ ≡ some d₂
      → IsWithin (left s n) d₂.averages.sums
  transmit-update_gui-count s k d n w h₁ h₂ = ground (
    arith,
    transmit-kept _ _ _ _ _ _ h₁,
    update_gui-averages _ _ h₂,
    averaging.reset-Counts d.averages,
  )

  -- A round's averages: one measurement more each, or none after a transmission.
  pub update_cycle-count :
      (m m' : Machine) (n : ℕ)
      → IsWithin n m.devices.averages.sums
      → n < 65535
      → update_cycle parts m ≡ some m'
      → IsWithin (left m.control.esp_state (n + 1)) m'.devices.averages.sums
  unfolding update_cycle
  update_cycle-count m m' n w h e =
      elim (outcome (readout parts m.control.ds18b20_state m.devices)) [
        | inl e₁ ↦ ground arith
        | inr ((next, d₁), e₁) ↦ elim (outcome (measure_bmp280 parts d₁)) [
          | inl e₂ ↦ ground arith
          | inr (d₂, e₂) ↦ elim (outcome (measure_dht11 parts d₂)) [
            | inl e₃ ↦ ground arith
            | inr (d₃, e₃) ↦
                let w₁ = readout-count _ _ _ _ n w h e₁ in
                let w₂ = measure_bmp280-count _ _ n w₁ h e₂ in
                let w₃ = measure_dht11-count _ _ n w₂ h e₃ in
                elim (outcome (transmit parts m.control.esp_state m.control.await_counter d₃)) [
                  | inl e₄ ↦ ground arith
                  | inr ((esp, k, d₄), e₄) ↦ elim (outcome (update_gui parts d₄)) [
                    | inl e₅ ↦ ground arith
                    | inr (d₅, e₅) ↦
                        ground (
                          arith,
                          transmit-update_gui-count m.control.esp_state _ d₃ (n + 1) w₃ e₄ e₅,
                        )
                  ]
                ]
          ]
        ]
      ]
