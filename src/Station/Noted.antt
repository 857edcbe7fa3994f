-- ===== src/Station/Noted.antt =====
-- A round of main.c against the logbook: after the measurements it may transmit, and draws.
use mathlib.Core.Path.{subst}
use quark_meteo_station.Base.{
  ℕ, ◌+◌, ◌-◌, ◌≡◌, refl, ap, ◌∙◌, arith, true, some, inl, inr, outcome, returned, Bool-cases, leb,
}
use quark_meteo_station.Base.Word.{u8}
use quark_meteo_station.Bmp280.{Cal}
use quark_meteo_station.Esp.{connection_time}
use quark_meteo_station.Station.{
  TransmissionState, idle, connect_to_server, await_for_connection, send_data, Devices, Machine,
  Parts, readout, measure_bmp280, measure_dht11, transmit, update_gui, update_cycle,
}
use quark_meteo_station.Station.Boot.{average_pointers}
use quark_meteo_station.Station.Logbook.{Logbook, close, measure, note, IsAtMost}
use quark_meteo_station.Station.Transmissions.{transmit-meas, update_gui-meas}
use quark_meteo_station.Station.Averaged.{
  IsUsualClimate, readings, sensed_by, takes, is_sending, Agrees, measurements-Agree,
}

module _ (parts : Parts) (cal : Cal) where
  open parts use {averaging, screen, modem}

  transmit-Agrees :
      (a : Logbook) (s s' : TransmissionState) (n n' : ℕ) (d d' : Devices)
      → Agrees parts cal a d
      → transmit parts s n d ≡ some (s', n', d')
      → Agrees parts cal (close (is_sending s) a) d'
  unfolding transmit
  transmit-Agrees a idle s' n n' d d' k e =
      returned {A = TransmissionState × ℕ × Devices} (λ r. Agrees parts cal a r.2)
        ((idle, n, d), refl, k) e
  transmit-Agrees a connect_to_server s' n n' d d' k e =
      elim (outcome (modem.esp_connect_to_server d.board)) [
        | inl fails ↦ ground arith
        | inr (b, done) ↦
            returned {A = TransmissionState × ℕ × Devices} (λ r. Agrees parts cal a r.2)
              ((await_for_connection, n, record d { board = b }), rw done refl, k) e
      ]
  transmit-Agrees a await_for_connection s' n n' d d' k e =
      elim (Bool-cases (leb (connection_time - 1) (u8 (n + 1)))) [
        | inl late ↦
            returned {A = TransmissionState × ℕ × Devices} (λ r. Agrees parts cal a r.2)
              ((send_data, 0, d), rw late refl, k) e
        | inr early ↦
            returned {A = TransmissionState × ℕ × Devices} (λ r. Agrees parts cal a r.2)
              ((await_for_connection, u8 (n + 1), d), rw early refl, k) e
      ]
  transmit-Agrees a send_data s' n n' d d' (c, p, m, u, o, h) e =
      elim (outcome (modem.esp_send_measurements d.esp d.meas d.board)) [
        | inl fails ↦ ground arith
        | inr (b, done) ↦
            let cleared =
              ap averaging.average_reset p ∙ averaging.reset-statics average_pointers a.hour in
            returned {A = TransmissionState × ℕ × Devices}
              (λ r. Agrees parts cal (close true a) r.2)
              (
                (idle, n, record d { board = b; averages = averaging.average_reset d.averages }),
                rw done refl,
                (c, cleared, m, omega arith, tt, tt),
              )
              e
      ]

  update_gui-Agrees :
      (a : Logbook) (d d' : Devices)
      → Agrees parts cal a d
      → update_gui parts d ≡ some d'
      → Agrees parts cal a d'
  unfolding update_gui
  update_gui-Agrees a d d' k e = elim (outcome (screen.gui_update d.gui d.meas d.board)) [
    | inl fails ↦ ground arith
    | inr (b, done) ↦
        returned {A = Devices} (Agrees parts cal a) (record d { board = b }, rw done refl, k) e
  ]

  -- A round, and what the logbook notes of it.
  pub update_cycle-Agrees :
      (m m' : Machine) (a : Logbook)
      → IsUsualClimate parts cal
      → Agrees parts cal a m.devices
      → IsAtMost 3601 a.hour
      → update_cycle parts m ≡ some m'
      → Agrees parts cal
          (note
            (takes m.control.ds18b20_state)
            (is_sending m.control.esp_state)
            (sensed_by parts m.control.ds18b20_state m.devices)
            a)
          m'.devices
        × (readings m'.devices.meas ≡ sensed_by parts m.control.ds18b20_state m.devices)
  unfolding update_cycle
  update_cycle-Agrees m m' a climate k few e =
      let s = m.control.ds18b20_state in
      let esp = m.control.esp_state in
      elim (outcome (readout parts s m.devices)) [
        | inl e₁ ↦ ground arith
        | inr ((next, d₁), e₁) ↦ elim (outcome (measure_bmp280 parts d₁)) [
          | inl e₂ ↦ ground arith
          | inr (d₂, e₂) ↦ elim (outcome (measure_dht11 parts d₂)) [
            | inl e₃ ↦ ground arith
            | inr (d₃, e₃) ↦
                let said = sensed_by parts s m.devices in
                let (k₃, is_said) =
                  measurements-Agree parts cal a s next m.devices d₁ d₂ d₃ climate k few e₁ e₂ e₃ in
                let a₃ : Logbook = record a { hour = measure (takes s) said a.hour } in
                elim (outcome (transmit parts esp m.control.await_counter d₃)) [
                  | inl e₄ ↦ ground arith
                  | inr ((esp', n, d₄), e₄) ↦ elim (outcome (update_gui parts d₄)) [
                    | inl e₅ ↦ ground arith
                    | inr (d₅, e₅) ↦
                        let k₃' : Agrees parts cal a₃ d₃ =
                          subst
                            (λ x.
                              Agrees parts cal (record a { hour = measure (takes s) x a.hour }) d₃)
                            is_said k₃ in
                        let k₄ = transmit-Agrees a₃ esp esp' _ n d₃ d₄ k₃' e₄ in
                        let k₅ = update_gui-Agrees (close (is_sending esp) a₃) d₄ d₅ k₄ e₅ in
                        let same : d₅.meas ≡ d₃.meas =
                          update_gui-meas parts d₄ d₅ e₅
                          ∙ transmit-meas parts esp esp' _ n d₃ d₄ e₄ in
                        let is : d₅ ≡ m'.devices = ground arith in
                        subst
                          (λ d.
                            Agrees parts cal (note (takes s) (is_sending esp) said a) d
                            × (readings d.meas ≡ said))
                          is (k₅, ap readings same ∙ is_said)
                  ]
                ]
          ]
        ]
      ]
