-- ===== src/Station/Interrupts/Whole.antt =====
-- A round in steps that no interrupt comes between is the whole round of `loop_body`.
use quark_meteo_station.Base.{ℕ, ◌≡◌, refl, ap, ◌∙◌, arith, some, inl, inr, outcome}
use quark_meteo_station.Station.{
  ReadoutState, request_conversion, get_measurement, TransmissionState, idle, connect_to_server,
  await_for_connection, send_data, Control, Devices, Machine, Parts, readout, measure_bmp280,
  measure_dht11, transmit, update_gui, update_cycle, loop_body, ◌>>=◌,
}
use quark_meteo_station.Station.Cycle.{after, transmit-after}
use quark_meteo_station.Station.Interrupts.{
  polling, step, steps, written, store_ds18b20, average_ds18b20, store_bmp280, average_bmp280,
  store_dht11, average_dht11, call_modem, clear_sent,
}

written_same :
    (s esp : TransmissionState) (n : ℕ) (c : Control)
    → s ≡ c.esp_state
    → (esp, n) ≡ after s c.await_counter
    → written s esp n c ≡ record c { esp_state = esp; await_counter = n }
written_same idle esp n c e h = ground arith
written_same connect_to_server esp n c e h = ground arith
written_same await_for_connection esp n c e h = ground arith
written_same send_data esp n c e h = ground arith

module _ (parts : Parts) where
  -- The parts of a measurement and of a transmission make them up.
  readout-parts :
      (s : ReadoutState) (d : Devices)
      → readout parts s d ≡ average_ds18b20 parts s (store_ds18b20 parts s d)
  unfolding readout
  readout-parts request_conversion d = refl
  readout-parts get_measurement d = refl

  measure_bmp280-parts :
      (d : Devices) → measure_bmp280 parts d ≡ average_bmp280 parts (store_bmp280 parts d)
  unfolding measure_bmp280
  measure_bmp280-parts d = refl

  measure_dht11-parts :
      (d : Devices) → measure_dht11 parts d ≡ average_dht11 parts (store_dht11 parts d)
  unfolding measure_dht11
  measure_dht11-parts d = refl

  transmit-parts :
      (s : TransmissionState) (n : ℕ) (d : Devices)
      → transmit parts s n d
        ≡ (call_modem parts s n d >>= λ (esp, k, d'). some (esp, k, clear_sent parts s d'))
  unfolding transmit
  transmit-parts idle n d = refl
  transmit-parts connect_to_server n d =
      elim (outcome (parts.modem.esp_connect_to_server d.board)) [
        | inl e ↦ ground arith
        | inr (b, e) ↦ ground arith
      ]
  transmit-parts await_for_connection n d = ground arith
  transmit-parts send_data n d =
      elim (outcome (parts.modem.esp_send_measurements d.esp d.meas d.board)) [
        | inl e ↦ ground arith
        | inr (b, e) ↦ ground arith
      ]

  -- Thirteen steps, from the test of the request on, are a round.
  steps-loop_body :
      (m : Machine) → steps parts 13 polling m ≡ (loop_body parts m >>= λ m'. some (polling, m'))
  unfolding steps step loop_body update_cycle
  steps-loop_body m =
      let s = m.control.ds18b20_state in
      let d₀ = store_ds18b20 parts s m.devices in
      elim (outcome (average_ds18b20 parts s d₀)) [
        | inl e₁ ↦ let r = readout-parts s m.devices in ground arith
        | inr ((next, d₁), e₁) ↦
            let r₁ : readout parts s m.devices ≡ some (next, d₁) = readout-parts s m.devices ∙ e₁ in
            elim (outcome (average_bmp280 parts (store_bmp280 parts d₁))) [
              | inl e₂ ↦ let r₂ = measure_bmp280-parts d₁ in ground arith
              | inr (d₂, e₂) ↦
                  let r₂ : measure_bmp280 parts d₁ ≡ some d₂ = measure_bmp280-parts d₁ ∙ e₂ in
                  elim (outcome (average_dht11 parts (store_dht11 parts d₂))) [
                    | inl e₃ ↦ let r₃ = measure_dht11-parts d₂ in ground arith
                    | inr (d₃, e₃) ↦
                        let r₃ : measure_dht11 parts d₂ ≡ some d₃ = measure_dht11-parts d₂ ∙ e₃ in
                        let t = m.control.esp_state in
                        elim (outcome (call_modem parts t m.control.await_counter d₃)) [
                          | inl e₄ ↦
                              let r₄ = transmit-parts t m.control.await_counter d₃ in ground arith
                          | inr ((esp, n, d₄), e₄) ↦
                              let r₄ : transmit parts t m.control.await_counter d₃
                                  ≡ some (esp, n, clear_sent parts t d₄) =
                                transmit-parts t m.control.await_counter d₃
                                ∙ ap
                                    (λ o.
                                      o >>= λ (esp, k, d'). some (esp, k, clear_sent parts t d'))
                                    e₄ in
                              let moved = transmit-after parts t m.control.await_counter d₃ r₄ in
                              let c = record (m.control) { ds18b20_state = next } in
                              let same = written_same t esp n c refl moved in
                              elim (outcome (update_gui parts (clear_sent parts t d₄))) [
                                | inl e₅ ↦ ground arith
                                | inr (d₅, e₅) ↦ ground arith
                              ]
                        ]
                  ]
            ]
      ]
